-- ===== src/Core/ChannelEndpointChanged.antt =====
-- `ChannelEndpointChanged` of core.go.
use stratumv.Prelude.{ℕ, ◌^◌, ◌<◌, Option, List}
use stratumv.Binary.Failure.{Failure}
use stratumv.Binary.Outcome.{Outcome, Slice}
use stratumv.Binary.Builder
use stratumv.Binary.Builder.{◌▷◌, bytes, add_u32}
use stratumv.Binary.Reader.{◌>>=◌, pure, read_u32}
use stratumv.Binary.Codec.{run, RoundTrips, round_trip, Carries-then, Carries-end}
use stratumv.Binary.Codec.Fields.{u32-Carries}

pub record ChannelEndpointChanged : Type 0 where
  pub channel_id : ℕ

-- The values fit their Go types, and the lists their length prefixes.
pub record IsValid (m : ChannelEndpointChanged) : Type 0 where
  pub channel_id_fits : m.channel_id < 2 ^ 32

unfoldable pub encode : ChannelEndpointChanged → List ℕ × Option Failure
unfolding bytes
encode m = bytes (Builder.new ▷ add_u32 m.channel_id)

unfoldable pub decode : Slice → Outcome (ChannelEndpointChanged × Option Failure)
unfolding run
decode = run do channel_id ← read_u32; pure (record { channel_id = channel_id })

-- A message that fits (`IsValid`) is encoded with no error, and `decode` reads it back with no
-- error, whatever bytes follow the encoded ones.
pub ChannelEndpointChanged-RoundTrips :
    (m : ChannelEndpointChanged) → IsValid m → RoundTrips (encode m) decode m
unfolding encode decode
ChannelEndpointChanged-RoundTrips m v =
    round_trip (Carries-then _ (u32-Carries m.channel_id v.channel_id_fits) (Carries-end m))
