-- ===== src/Mining/OpenExtendedMiningChannel.antt =====
-- `OpenExtendedMiningChannel` of mining.go, which embeds `OpenStandardMiningChannel`.
use stratumv.Prelude.{arith, ℕ, ◌^◌, ◌<◌, ◌≡◌, Option, none, some, List, []}
use stratumv.Binary.Failure.{Failure}
use stratumv.Binary.Outcome.{Outcome, Slice}
use stratumv.Binary.Builder
use stratumv.Binary.Builder.{
  Builder, ◌▷◌, bytes, add_bytes, add_f32, add_str255, add_u16, add_u256, add_u32,
}
use stratumv.Binary.Reader.{Read, ◌>>=◌, pure, read_f32, read_str255, read_u16, read_u256, read_u32}
use stratumv.Binary.Codec.{
  run, RoundTrips, round_trip, Carries, Carries-then, Carries-end, embedded,
}
use stratumv.Binary.Codec.Fields.{
  f32-Carries, str255-Carries, u16-Carries, u256-Carries, u32-Carries,
}
use stratumv.Mining.OpenStandardMiningChannel
use stratumv.Mining.OpenStandardMiningChannel.{OpenStandardMiningChannel}

pub record OpenExtendedMiningChannel : Type 0 where
  pub standard : OpenStandardMiningChannel
  pub open standard use *
  pub min_extranonce_size : ℕ

-- The values fit their Go types, and the lists their length prefixes.
pub record IsValid (m : OpenExtendedMiningChannel) : Type 0 where
  pub standard_fits : OpenStandardMiningChannel.IsValid m.standard
  pub min_extranonce_size_fits : m.min_extranonce_size < 2 ^ 16

-- The embedded struct is encoded first, and its error returned.
abbrev pub encode_after : ℕ → List ℕ × Option Failure → List ℕ × Option Failure
encode_after min_extranonce_size (b, some e) = ([], some e)
encode_after min_extranonce_size (b, none) =
    bytes (Builder.new ▷ add_bytes b ▷ add_u16 min_extranonce_size)

unfoldable pub encode : OpenExtendedMiningChannel → List ℕ × Option Failure
unfolding bytes OpenStandardMiningChannel.encode
encode m = encode_after m.min_extranonce_size (OpenStandardMiningChannel.encode m.standard)

unfoldable pub decode : Slice → Outcome (OpenExtendedMiningChannel × Option Failure)
unfolding run
decode = run do
  request_id ← read_u32
  user_identity ← read_str255
  nominal_hash_rate ← read_f32
  max_target ← read_u256
  min_extranonce_size ← read_u16
  pure (record {
    standard = record {
      request_id = request_id;
      user_identity = user_identity;
      nominal_hash_rate = nominal_hash_rate;
      max_target = max_target;
    };
    min_extranonce_size = min_extranonce_size;
  })

abbrev standard_fields : OpenStandardMiningChannel → Builder → Builder
standard_fields s b =
    b
    ▷ add_u32 s.request_id
    ▷ add_str255 s.user_identity
    ▷ add_f32 s.nominal_hash_rate
    ▷ add_u256 s.max_target

module _ (m : OpenExtendedMiningChannel) (v : IsValid m) where
  -- The four fields of the embedded struct, and then `rest`.
  fields-Carries :
      {q : Builder → Builder} {A : Type 0} (k : ℕ → List ℕ → ℕ → List ℕ → Read A) {w : A}
      → Carries q (k m.request_id m.user_identity m.nominal_hash_rate m.max_target) w
      → Carries
          (λ b. q (standard_fields m.standard b))
          (do
            request_id ← read_u32
            user_identity ← read_str255
            nominal_hash_rate ← read_f32
            max_target ← read_u256
            k request_id user_identity nominal_hash_rate max_target)
          w
  fields-Carries k c = Carries-then _ (u32-Carries m.request_id v.standard_fits.request_id_fits) (
      Carries-then _ (str255-Carries m.user_identity v.standard_fits.user_identity_fits) (
        Carries-then _ (f32-Carries m.nominal_hash_rate v.standard_fits.nominal_hash_rate_fits)
          (Carries-then _ (u256-Carries m.max_target v.standard_fits.max_target_fits) c)))

  -- Encoding the embedded struct first makes no difference to the bytes.
  encode_flat :
      encode m ≡ bytes (Builder.new ▷ standard_fields m.standard ▷ add_u16 m.min_extranonce_size)
  unfolding encode
  encode_flat =
      let (fine, same) = embedded (fields-Carries (λ _ _ _ _. pure tt) (Carries-end tt)) in
      ground (arith, fine, same)

  -- A message that fits (`IsValid`) is encoded with no error, and `decode` reads it back with no
  -- error, whatever bytes follow the encoded ones.
  pub OpenExtendedMiningChannel-RoundTrips : RoundTrips (encode m) decode m
  unfolding decode
  OpenExtendedMiningChannel-RoundTrips = rw encode_flat (
      round_trip (
        fields-Carries _ (
          Carries-then _ (u16-Carries m.min_extranonce_size v.min_extranonce_size_fits)
            (Carries-end m))))
