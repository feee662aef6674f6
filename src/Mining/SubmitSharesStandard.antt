-- ===== src/Mining/SubmitSharesStandard.antt =====
-- `SubmitSharesStandard` of mining.go.
use stratumv.Prelude.{ℕ, ◌^◌, ◌<◌, Option, List}
use stratumv.Binary.Failure.{Failure}
use stratumv.Binary.Outcome.{Outcome, Slice}
use stratumv.Binary.Builder
use stratumv.Binary.Builder.{◌▷◌, bytes, add_u32}
use stratumv.Binary.Reader.{◌>>=◌, pure, read_u32}
use stratumv.Binary.Codec.{run, RoundTrips, round_trip, Carries-then, Carries-end}
use stratumv.Binary.Codec.Fields.{u32-Carries}

pub record SubmitSharesStandard : Type 0 where
  pub channel_id : ℕ
  pub sequence : ℕ
  pub job_id : ℕ
  pub nonce : ℕ
  pub time : ℕ
  pub version : ℕ

-- The values fit their Go types, and the lists their length prefixes.
pub record IsValid (m : SubmitSharesStandard) : Type 0 where
  pub channel_id_fits : m.channel_id < 2 ^ 32
  pub sequence_fits : m.sequence < 2 ^ 32
  pub job_id_fits : m.job_id < 2 ^ 32
  pub nonce_fits : m.nonce < 2 ^ 32
  pub time_fits : m.time < 2 ^ 32
  pub version_fits : m.version < 2 ^ 32

unfoldable pub encode : SubmitSharesStandard → List ℕ × Option Failure
unfolding bytes
encode m = bytes (
    Builder.new
    ▷ add_u32 m.channel_id
    ▷ add_u32 m.sequence
    ▷ add_u32 m.job_id
    ▷ add_u32 m.nonce
    ▷ add_u32 m.time
    ▷ add_u32 m.version)

unfoldable pub decode : Slice → Outcome (SubmitSharesStandard × Option Failure)
unfolding run
decode = run do
  channel_id ← read_u32
  sequence ← read_u32
  job_id ← read_u32
  nonce ← read_u32
  time ← read_u32
  version ← read_u32
  pure (record {
    channel_id = channel_id;
    sequence = sequence;
    job_id = job_id;
    nonce = nonce;
    time = time;
    version = version;
  })

-- A message that fits (`IsValid`) is encoded with no error, and `decode` reads it back with no
-- error, whatever bytes follow the encoded ones.
pub SubmitSharesStandard-RoundTrips :
    (m : SubmitSharesStandard) → IsValid m → RoundTrips (encode m) decode m
unfolding encode decode
SubmitSharesStandard-RoundTrips m v = round_trip (
    Carries-then _ (u32-Carries m.channel_id v.channel_id_fits) (
      Carries-then _ (u32-Carries m.sequence v.sequence_fits) (
        Carries-then _ (u32-Carries m.job_id v.job_id_fits) (
          Carries-then _ (u32-Carries m.nonce v.nonce_fits) (
            Carries-then _ (u32-Carries m.time v.time_fits)
              (Carries-then _ (u32-Carries m.version v.version_fits) (Carries-end m)))))))
