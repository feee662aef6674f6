-- ===== src/Mining/UpdateChannel.antt =====
-- `UpdateChannel` of mining.go.
use stratumv.Prelude.{ℕ, ◌^◌, ◌<◌, ◌≡◌, Option, List, length}
use stratumv.Binary.Failure.{Failure}
use stratumv.Binary.Outcome.{Outcome, Slice}
use stratumv.Binary.Builder
use stratumv.Binary.Builder.{◌▷◌, bytes, add_f32, add_u256, add_u32}
use stratumv.Binary.Reader.{◌>>=◌, pure, read_f32, read_u256, read_u32}
use stratumv.Binary.Codec.{run, RoundTrips, round_trip, Carries-then, Carries-end}
use stratumv.Binary.Codec.Fields.{f32-Carries, u256-Carries, u32-Carries}

pub record UpdateChannel : Type 0 where
  pub channel_id : ℕ
  pub nominal_hash_rate : ℕ
  pub max_target : List ℕ

-- The values fit their Go types, and the lists their length prefixes.
pub record IsValid (m : UpdateChannel) : Type 0 where
  pub channel_id_fits : m.channel_id < 2 ^ 32
  pub nominal_hash_rate_fits : m.nominal_hash_rate < 2 ^ 32
  pub max_target_fits : length m.max_target ≡ 32

unfoldable pub encode : UpdateChannel → List ℕ × Option Failure
unfolding bytes
encode m =
    bytes (Builder.new ▷ add_u32 m.channel_id ▷ add_f32 m.nominal_hash_rate ▷ add_u256 m.max_target)

unfoldable pub decode : Slice → Outcome (UpdateChannel × Option Failure)
unfolding run
decode = run do
  channel_id ← read_u32
  nominal_hash_rate ← read_f32
  max_target ← read_u256
  pure (record {
    channel_id = channel_id;
    nominal_hash_rate = nominal_hash_rate;
    max_target = max_target;
  })

-- A message that fits (`IsValid`) is encoded with no error, and `decode` reads it back with no
-- error, whatever bytes follow the encoded ones.
pub UpdateChannel-RoundTrips : (m : UpdateChannel) → IsValid m → RoundTrips (encode m) decode m
unfolding encode decode
UpdateChannel-RoundTrips m v = round_trip (
    Carries-then _ (u32-Carries m.channel_id v.channel_id_fits) (
      Carries-then _ (f32-Carries m.nominal_hash_rate v.nominal_hash_rate_fits)
        (Carries-then _ (u256-Carries m.max_target v.max_target_fits) (Carries-end m))))
