-- ===== src/Core/SetupConnectionError.antt =====
-- `SetupConnectionError` of core.go.
use stratumv.Prelude.{ℕ, ◌^◌, ◌<◌, Option, List, length}
use stratumv.Binary.Failure.{Failure}
use stratumv.Binary.Outcome.{Outcome, Slice}
use stratumv.Binary.Builder
use stratumv.Binary.Builder.{◌▷◌, bytes, add_str255, add_u32}
use stratumv.Binary.Reader.{◌>>=◌, pure, read_str255, read_u32}
use stratumv.Binary.Codec.{run, RoundTrips, round_trip, Carries-then, Carries-end}
use stratumv.Binary.Codec.Fields.{str255-Carries, u32-Carries}

pub record SetupConnectionError : Type 0 where
  pub flags : ℕ
  pub error_code : List ℕ

-- The values fit their Go types, and the lists their length prefixes.
pub record IsValid (m : SetupConnectionError) : Type 0 where
  pub flags_fits : m.flags < 2 ^ 32
  pub error_code_fits : length m.error_code < 2 ^ 8

unfoldable pub encode : SetupConnectionError → List ℕ × Option Failure
unfolding bytes
encode m = bytes (Builder.new ▷ add_u32 m.flags ▷ add_str255 m.error_code)

unfoldable pub decode : Slice → Outcome (SetupConnectionError × Option Failure)
unfolding run
decode = run do
  flags ← read_u32
  error_code ← read_str255
  pure (record { flags = flags; error_code = error_code })

-- A message that fits (`IsValid`) is encoded with no error, and `decode` reads it back with no
-- error, whatever bytes follow the encoded ones.
pub SetupConnectionError-RoundTrips :
    (m : SetupConnectionError) → IsValid m → RoundTrips (encode m) decode m
unfolding encode decode
SetupConnectionError-RoundTrips m v = round_trip (
    Carries-then _ (u32-Carries m.flags v.flags_fits)
      (Carries-then _ (str255-Carries m.error_code v.error_code_fits) (Carries-end m)))
