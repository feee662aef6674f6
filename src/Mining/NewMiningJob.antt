-- ===== src/Mining/NewMiningJob.antt =====
-- `NewMiningJob` of mining.go.
use stratumv.Prelude.{ℕ, ◌^◌, ◌<◌, ◌≤◌, ◌≡◌, Option, List, [], length, All}
use stratumv.Binary.Failure.{Failure}
use stratumv.Binary.Outcome.{Outcome, Slice}
use stratumv.Binary.Builder
use stratumv.Binary.Builder.{◌▷◌, bytes, add_u256, add_u32}
use stratumv.Binary.Reader.{◌>>=◌, pure, read_u256, read_u32}
use stratumv.Binary.Sequence.{u32s, add_option_t, read_option_t, assert_u32s}
use stratumv.Binary.Codec.{run, RoundTrips, round_trip, Carries-then, Carries-end}
use stratumv.Binary.Codec.Fields.{option_u32-Carries, u256-Carries, u32-Carries}

pub record NewMiningJob : Type 0 where
  pub channel_id : ℕ
  pub job_id : ℕ
  pub min_time : List ℕ
  pub version : ℕ
  pub merkle_root : List ℕ

-- The values fit their Go types, and the lists their length prefixes.
pub record IsValid (m : NewMiningJob) : Type 0 where
  pub channel_id_fits : m.channel_id < 2 ^ 32
  pub job_id_fits : m.job_id < 2 ^ 32
  pub min_time_elements : All (λ v. v < 2 ^ 32) m.min_time
  pub min_time_fits : length m.min_time ≤ 1
  pub version_fits : m.version < 2 ^ 32
  pub merkle_root_fits : length m.merkle_root ≡ 32

unfoldable pub encode : NewMiningJob → List ℕ × Option Failure
unfolding bytes
encode m = bytes (
    Builder.new
    ▷ add_u32 m.channel_id
    ▷ add_u32 m.job_id
    ▷ add_option_t (u32s m.min_time)
    ▷ add_u32 m.version
    ▷ add_u256 m.merkle_root)

unfoldable pub decode : Slice → Outcome (NewMiningJob × Option Failure)
unfolding run
decode = run do
  channel_id ← read_u32
  job_id ← read_u32
  min_time ← (do x ← read_option_t (u32s []); assert_u32s x)
  version ← read_u32
  merkle_root ← read_u256
  pure (record {
    channel_id = channel_id;
    job_id = job_id;
    min_time = min_time;
    version = version;
    merkle_root = merkle_root;
  })

-- A message that fits (`IsValid`) is encoded with no error, and `decode` reads it back with no
-- error, whatever bytes follow the encoded ones.
pub NewMiningJob-RoundTrips : (m : NewMiningJob) → IsValid m → RoundTrips (encode m) decode m
unfolding encode decode
NewMiningJob-RoundTrips m v = round_trip (
    Carries-then _ (u32-Carries m.channel_id v.channel_id_fits) (
      Carries-then _ (u32-Carries m.job_id v.job_id_fits) (
        Carries-then _ (option_u32-Carries m.min_time v.min_time_elements v.min_time_fits) (
          Carries-then _ (u32-Carries m.version v.version_fits)
            (Carries-then _ (u256-Carries m.merkle_root v.merkle_root_fits) (Carries-end m))))))
