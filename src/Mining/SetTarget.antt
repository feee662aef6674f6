-- ===== src/Mining/SetTarget.antt =====
-- `SetTarget` of mining.go.
use stratumv.Prelude.{ℕ, ◌^◌, ◌<◌, ◌≡◌, Option, List, length}
use stratumv.Binary.Failure.{Failure}
use stratumv.Binary.Outcome.{Outcome, Slice}
use stratumv.Binary.Builder
use stratumv.Binary.Builder.{◌▷◌, bytes, add_u256, add_u32}
use stratumv.Binary.Reader.{◌>>=◌, pure, read_u256, read_u32}
use stratumv.Binary.Codec.{run, RoundTrips, round_trip, Carries-then, Carries-end}
use stratumv.Binary.Codec.Fields.{u256-Carries, u32-Carries}

pub record SetTarget : Type 0 where
  pub channel_id : ℕ
  pub max_target : List ℕ

-- The values fit their Go types, and the lists their length prefixes.
pub record IsValid (m : SetTarget) : Type 0 where
  pub channel_id_fits : m.channel_id < 2 ^ 32
  pub max_target_fits : length m.max_target ≡ 32

unfoldable pub encode : SetTarget → List ℕ × Option Failure
unfolding bytes
encode m = bytes (Builder.new ▷ add_u32 m.channel_id ▷ add_u256 m.max_target)

unfoldable pub decode : Slice → Outcome (SetTarget × Option Failure)
unfolding run
decode = run do
  channel_id ← read_u32
  max_target ← read_u256
  pure (record { channel_id = channel_id; max_target = max_target })

-- A message that fits (`IsValid`) is encoded with no error, and `decode` reads it back with no
-- error, whatever bytes follow the encoded ones.
pub SetTarget-RoundTrips : (m : SetTarget) → IsValid m → RoundTrips (encode m) decode m
unfolding encode decode
SetTarget-RoundTrips m v = round_trip (
    Carries-then _ (u32-Carries m.channel_id v.channel_id_fits)
      (Carries-then _ (u256-Carries m.max_target v.max_target_fits) (Carries-end m)))
