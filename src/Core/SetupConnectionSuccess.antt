-- ===== src/Core/SetupConnectionSuccess.antt =====
-- `SetupConnectionSuccess` of core.go.
use stratumv.Prelude.{ℕ, ◌^◌, ◌<◌, Option, List}
use stratumv.Binary.Failure.{Failure}
use stratumv.Binary.Outcome.{Outcome, Slice}
use stratumv.Binary.Builder
use stratumv.Binary.Builder.{◌▷◌, bytes, add_u16, add_u32}
use stratumv.Binary.Reader.{◌>>=◌, pure, read_u16, read_u32}
use stratumv.Binary.Codec.{run, RoundTrips, round_trip, Carries-then, Carries-end}
use stratumv.Binary.Codec.Fields.{u16-Carries, u32-Carries}

pub record SetupConnectionSuccess : Type 0 where
  pub used_version : ℕ
  pub flags : ℕ

-- The values fit their Go types, and the lists their length prefixes.
pub record IsValid (m : SetupConnectionSuccess) : Type 0 where
  pub used_version_fits : m.used_version < 2 ^ 16
  pub flags_fits : m.flags < 2 ^ 32

unfoldable pub encode : SetupConnectionSuccess → List ℕ × Option Failure
unfolding bytes
encode m = bytes (Builder.new ▷ add_u16 m.used_version ▷ add_u32 m.flags)

unfoldable pub decode : Slice → Outcome (SetupConnectionSuccess × Option Failure)
unfolding run
decode = run do
  used_version ← read_u16
  flags ← read_u32
  pure (record { used_version = used_version; flags = flags })

-- A message that fits (`IsValid`) is encoded with no error, and `decode` reads it back with no
-- error, whatever bytes follow the encoded ones.
pub SetupConnectionSuccess-RoundTrips :
    (m : SetupConnectionSuccess) → IsValid m → RoundTrips (encode m) decode m
unfolding encode decode
SetupConnectionSuccess-RoundTrips m v = round_trip (
    Carries-then _ (u16-Carries m.used_version v.used_version_fits)
      (Carries-then _ (u32-Carries m.flags v.flags_fits) (Carries-end m)))
