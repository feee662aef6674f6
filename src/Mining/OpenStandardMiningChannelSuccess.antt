-- ===== src/Mining/OpenStandardMiningChannelSuccess.antt =====
-- `OpenStandardMiningChannelSuccess` of mining.go.
use stratumv.Prelude.{ℕ, ◌^◌, ◌<◌, ◌≤◌, ◌≡◌, Option, List, length}
use stratumv.Binary.Failure.{Failure}
use stratumv.Binary.Outcome.{Outcome, Slice}
use stratumv.Binary.Builder
use stratumv.Binary.Builder.{◌▷◌, bytes, add_bin32, add_u256, add_u32}
use stratumv.Binary.Reader.{◌>>=◌, pure, contents_of, read_bin32, read_u256, read_u32}
use stratumv.Binary.Codec.{run, RoundTrips, round_trip, Carries-then, Carries-end}
use stratumv.Binary.Codec.Fields.{bin32-Carries, u256-Carries, u32-Carries}

pub record OpenStandardMiningChannelSuccess : Type 0 where
  pub request_id : ℕ
  pub channel_id : ℕ
  pub target : List ℕ
  pub extranonce_prefix : List ℕ
  pub group_channel_id : ℕ

-- The values fit their Go types, and the lists their length prefixes.
pub record IsValid (m : OpenStandardMiningChannelSuccess) : Type 0 where
  pub request_id_fits : m.request_id < 2 ^ 32
  pub channel_id_fits : m.channel_id < 2 ^ 32
  pub target_fits : length m.target ≡ 32
  pub extranonce_prefix_fits : length m.extranonce_prefix ≤ 32
  pub group_channel_id_fits : m.group_channel_id < 2 ^ 32

unfoldable pub encode : OpenStandardMiningChannelSuccess → List ℕ × Option Failure
unfolding bytes
encode m = bytes (
    Builder.new
    ▷ add_u32 m.request_id
    ▷ add_u32 m.channel_id
    ▷ add_u256 m.target
    ▷ add_bin32 m.extranonce_prefix
    ▷ add_u32 m.group_channel_id)

unfoldable pub decode : Slice → Outcome (OpenStandardMiningChannelSuccess × Option Failure)
unfolding run
decode = run do
  request_id ← read_u32
  channel_id ← read_u32
  target ← read_u256
  extranonce_prefix ← contents_of read_bin32
  group_channel_id ← read_u32
  pure (record {
    request_id = request_id;
    channel_id = channel_id;
    target = target;
    extranonce_prefix = extranonce_prefix;
    group_channel_id = group_channel_id;
  })

-- A message that fits (`IsValid`) is encoded with no error, and `decode` reads it back with no
-- error, whatever bytes follow the encoded ones.
pub OpenStandardMiningChannelSuccess-RoundTrips :
    (m : OpenStandardMiningChannelSuccess) → IsValid m → RoundTrips (encode m) decode m
unfolding encode decode
OpenStandardMiningChannelSuccess-RoundTrips m v = round_trip (
    Carries-then _ (u32-Carries m.request_id v.request_id_fits) (
      Carries-then _ (u32-Carries m.channel_id v.channel_id_fits) (
        Carries-then _ (u256-Carries m.target v.target_fits) (
          Carries-then _ (bin32-Carries m.extranonce_prefix v.extranonce_prefix_fits) (
            Carries-then _ (u32-Carries m.group_channel_id v.group_channel_id_fits)
              (Carries-end m))))))
