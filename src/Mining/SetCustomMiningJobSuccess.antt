-- ===== src/Mining/SetCustomMiningJobSuccess.antt =====
-- `SetCustomMiningJobSuccess` of mining.go.
use stratumv.Prelude.{ℕ, ◌^◌, ◌<◌, Option, List}
use stratumv.Binary.Failure.{Failure}
use stratumv.Binary.Outcome.{Outcome, Slice}
use stratumv.Binary.Builder
use stratumv.Binary.Builder.{◌▷◌, bytes, add_u32}
use stratumv.Binary.Reader.{◌>>=◌, pure, read_u32}
use stratumv.Binary.Codec.{run, RoundTrips, round_trip, Carries-then, Carries-end}
use stratumv.Binary.Codec.Fields.{u32-Carries}

pub record SetCustomMiningJobSuccess : Type 0 where
  pub channel_id : ℕ
  pub request_id : ℕ
  pub job_id : ℕ

-- The values fit their Go types, and the lists their length prefixes.
pub record IsValid (m : SetCustomMiningJobSuccess) : Type 0 where
  pub channel_id_fits : m.channel_id < 2 ^ 32
  pub request_id_fits : m.request_id < 2 ^ 32
  pub job_id_fits : m.job_id < 2 ^ 32

unfoldable pub encode : SetCustomMiningJobSuccess → List ℕ × Option Failure
unfolding bytes
encode m = bytes (Builder.new ▷ add_u32 m.channel_id ▷ add_u32 m.request_id ▷ add_u32 m.job_id)

unfoldable pub decode : Slice → Outcome (SetCustomMiningJobSuccess × Option Failure)
unfolding run
decode = run do
  channel_id ← read_u32
  request_id ← read_u32
  job_id ← read_u32
  pure (record { channel_id = channel_id; request_id = request_id; job_id = job_id })

-- A message that fits (`IsValid`) is encoded with no error, and `decode` reads it back with no
-- error, whatever bytes follow the encoded ones.
pub SetCustomMiningJobSuccess-RoundTrips :
    (m : SetCustomMiningJobSuccess) → IsValid m → RoundTrips (encode m) decode m
unfolding encode decode
SetCustomMiningJobSuccess-RoundTrips m v = round_trip (
    Carries-then _ (u32-Carries m.channel_id v.channel_id_fits) (
      Carries-then _ (u32-Carries m.request_id v.request_id_fits)
        (Carries-then _ (u32-Carries m.job_id v.job_id_fits) (Carries-end m))))
