-- ===== src/Mining/SubmitSharesExtended.antt =====
-- `SubmitSharesExtended` of mining.go, which embeds `SubmitSharesStandard`.
use stratumv.Prelude.{arith, ℕ, ◌≤◌, ◌≡◌, Option, none, some, List, [], length}
use stratumv.Binary.Failure.{Failure}
use stratumv.Binary.Outcome.{Outcome, Slice}
use stratumv.Binary.Builder
use stratumv.Binary.Builder.{Builder, ◌▷◌, bytes, add_bytes, add_bin32, add_u32}
use stratumv.Binary.Reader.{Read, ◌>>=◌, pure, contents_of, read_bin32, read_u32}
use stratumv.Binary.Codec.{
  run, RoundTrips, round_trip, Carries, Carries-then, Carries-end, embedded,
}
use stratumv.Binary.Codec.Fields.{bin32-Carries, u32-Carries}
use stratumv.Mining.SubmitSharesStandard
use stratumv.Mining.SubmitSharesStandard.{SubmitSharesStandard}

pub record SubmitSharesExtended : Type 0 where
  pub standard : SubmitSharesStandard
  pub open standard use *
  pub extranonce : List ℕ

-- The values fit their Go types, and the lists their length prefixes.
pub record IsValid (m : SubmitSharesExtended) : Type 0 where
  pub standard_fits : SubmitSharesStandard.IsValid m.standard
  pub extranonce_fits : length m.extranonce ≤ 32

-- The embedded struct is encoded first, and its error returned.
abbrev encode_after : List ℕ → List ℕ × Option Failure → List ℕ × Option Failure
encode_after extranonce (b, some e) = ([], some e)
encode_after extranonce (b, none) = bytes (Builder.new ▷ add_bytes b ▷ add_bin32 extranonce)

unfoldable pub encode : SubmitSharesExtended → List ℕ × Option Failure
unfolding bytes SubmitSharesStandard.encode
encode m = encode_after m.extranonce (SubmitSharesStandard.encode m.standard)

unfoldable pub decode : Slice → Outcome (SubmitSharesExtended × Option Failure)
unfolding run
decode = run do
  channel_id ← read_u32
  sequence ← read_u32
  job_id ← read_u32
  nonce ← read_u32
  time ← read_u32
  version ← read_u32
  extranonce ← contents_of read_bin32
  pure (record {
    standard = record {
      channel_id = channel_id;
      sequence = sequence;
      job_id = job_id;
      nonce = nonce;
      time = time;
      version = version;
    };
    extranonce = extranonce;
  })

abbrev standard_fields : SubmitSharesStandard → Builder → Builder
standard_fields s b =
    b
    ▷ add_u32 s.channel_id
    ▷ add_u32 s.sequence
    ▷ add_u32 s.job_id
    ▷ add_u32 s.nonce
    ▷ add_u32 s.time
    ▷ add_u32 s.version

module _ (m : SubmitSharesExtended) (v : IsValid m) where
  -- The six fields of the embedded struct, and then `k`.
  fields-Carries :
      {q : Builder → Builder} {A : Type 0} (k : ℕ → ℕ → ℕ → ℕ → ℕ → ℕ → Read A) {w : A}
      → Carries q (k m.channel_id m.sequence m.job_id m.nonce m.time m.version) w
      → Carries
          (λ b. q (standard_fields m.standard b))
          (do
            channel_id ← read_u32
            sequence ← read_u32
            job_id ← read_u32
            nonce ← read_u32
            time ← read_u32
            version ← read_u32
            k channel_id sequence job_id nonce time version)
          w
  fields-Carries k c = Carries-then _ (u32-Carries m.channel_id v.standard_fits.channel_id_fits) (
      Carries-then _ (u32-Carries m.sequence v.standard_fits.sequence_fits) (
        Carries-then _ (u32-Carries m.job_id v.standard_fits.job_id_fits) (
          Carries-then _ (u32-Carries m.nonce v.standard_fits.nonce_fits) (
            Carries-then _ (u32-Carries m.time v.standard_fits.time_fits)
              (Carries-then _ (u32-Carries m.version v.standard_fits.version_fits) c)))))

  -- Encoding the embedded struct first makes no difference to the bytes.
  encode_flat : encode m ≡ bytes (Builder.new ▷ standard_fields m.standard ▷ add_bin32 m.extranonce)
  unfolding encode
  encode_flat =
      let (fine, same) = embedded (fields-Carries (λ _ _ _ _ _ _. pure tt) (Carries-end tt)) in
      ground (arith, fine, same)

  -- A message that fits (`IsValid`) is encoded with no error, and `decode` reads it back with no
  -- error, whatever bytes follow the encoded ones.
  pub SubmitSharesExtended-RoundTrips : RoundTrips (encode m) decode m
  unfolding decode
  SubmitSharesExtended-RoundTrips = rw encode_flat (
      round_trip (
        fields-Carries _
          (Carries-then _ (bin32-Carries m.extranonce v.extranonce_fits) (Carries-end m))))
