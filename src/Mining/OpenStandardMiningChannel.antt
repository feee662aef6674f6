-- ===== src/Mining/OpenStandardMiningChannel.antt =====
-- `OpenStandardMiningChannel` of mining.go.
use stratumv.Prelude.{ℕ, ◌^◌, ◌<◌, ◌≡◌, Option, List, length}
use stratumv.Binary.Failure.{Failure}
use stratumv.Binary.Outcome.{Outcome, Slice}
use stratumv.Binary.Builder
use stratumv.Binary.Builder.{◌▷◌, bytes, add_f32, add_str255, add_u256, add_u32}
use stratumv.Binary.Reader.{◌>>=◌, pure, read_f32, read_str255, read_u256, read_u32}
use stratumv.Binary.Codec.{run, RoundTrips, round_trip, Carries-then, Carries-end}
use stratumv.Binary.Codec.Fields.{f32-Carries, str255-Carries, u256-Carries, u32-Carries}

pub record OpenStandardMiningChannel : Type 0 where
  pub request_id : ℕ
  pub user_identity : List ℕ
  pub nominal_hash_rate : ℕ
  pub max_target : List ℕ

-- The values fit their Go types, and the lists their length prefixes.
pub record IsValid (m : OpenStandardMiningChannel) : Type 0 where
  pub request_id_fits : m.request_id < 2 ^ 32
  pub user_identity_fits : length m.user_identity < 2 ^ 8
  pub nominal_hash_rate_fits : m.nominal_hash_rate < 2 ^ 32
  pub max_target_fits : length m.max_target ≡ 32

unfoldable pub encode : OpenStandardMiningChannel → List ℕ × Option Failure
unfolding bytes
encode m = bytes (
    Builder.new
    ▷ add_u32 m.request_id
    ▷ add_str255 m.user_identity
    ▷ add_f32 m.nominal_hash_rate
    ▷ add_u256 m.max_target)

unfoldable pub decode : Slice → Outcome (OpenStandardMiningChannel × Option Failure)
unfolding run
decode = run do
  request_id ← read_u32
  user_identity ← read_str255
  nominal_hash_rate ← read_f32
  max_target ← read_u256
  pure (record {
    request_id = request_id;
    user_identity = user_identity;
    nominal_hash_rate = nominal_hash_rate;
    max_target = max_target;
  })

-- A message that fits (`IsValid`) is encoded with no error, and `decode` reads it back with no
-- error, whatever bytes follow the encoded ones.
pub OpenStandardMiningChannel-RoundTrips :
    (m : OpenStandardMiningChannel) → IsValid m → RoundTrips (encode m) decode m
unfolding encode decode
OpenStandardMiningChannel-RoundTrips m v = round_trip (
    Carries-then _ (u32-Carries m.request_id v.request_id_fits) (
      Carries-then _ (str255-Carries m.user_identity v.user_identity_fits) (
        Carries-then _ (f32-Carries m.nominal_hash_rate v.nominal_hash_rate_fits)
          (Carries-then _ (u256-Carries m.max_target v.max_target_fits) (Carries-end m)))))
