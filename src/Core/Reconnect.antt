-- ===== src/Core/Reconnect.antt =====
-- `Reconnect` of core.go.
use stratumv.Prelude.{ℕ, ◌^◌, ◌<◌, Option, List, length}
use stratumv.Binary.Failure.{Failure}
use stratumv.Binary.Outcome.{Outcome, Slice}
use stratumv.Binary.Builder
use stratumv.Binary.Builder.{◌▷◌, bytes, add_str255, add_u16}
use stratumv.Binary.Reader.{◌>>=◌, pure, read_str255, read_u16}
use stratumv.Binary.Codec.{run, RoundTrips, round_trip, Carries-then, Carries-end}
use stratumv.Binary.Codec.Fields.{str255-Carries, u16-Carries}

pub record Reconnect : Type 0 where
  pub new_host : List ℕ
  pub new_port : ℕ

-- The values fit their Go types, and the lists their length prefixes.
pub record IsValid (m : Reconnect) : Type 0 where
  pub new_host_fits : length m.new_host < 2 ^ 8
  pub new_port_fits : m.new_port < 2 ^ 16

unfoldable pub encode : Reconnect → List ℕ × Option Failure
unfolding bytes
encode m = bytes (Builder.new ▷ add_str255 m.new_host ▷ add_u16 m.new_port)

unfoldable pub decode : Slice → Outcome (Reconnect × Option Failure)
unfolding run
decode = run do
  new_host ← read_str255
  new_port ← read_u16
  pure (record { new_host = new_host; new_port = new_port })

-- A message that fits (`IsValid`) is encoded with no error, and `decode` reads it back with no
-- error, whatever bytes follow the encoded ones.
pub Reconnect-RoundTrips : (m : Reconnect) → IsValid m → RoundTrips (encode m) decode m
unfolding encode decode
Reconnect-RoundTrips m v = round_trip (
    Carries-then _ (str255-Carries m.new_host v.new_host_fits)
      (Carries-then _ (u16-Carries m.new_port v.new_port_fits) (Carries-end m)))
