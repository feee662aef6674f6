-- ===== src/Mining/CloseChannel.antt =====
-- `CloseChannel` of mining.go.
use stratumv.Prelude.{ℕ, ◌^◌, ◌<◌, Option, List, length}
use stratumv.Binary.Failure.{Failure}
use stratumv.Binary.Outcome.{Outcome, Slice}
use stratumv.Binary.Builder
use stratumv.Binary.Builder.{◌▷◌, bytes, add_str255, add_u32}
use stratumv.Binary.Reader.{◌>>=◌, pure, read_str255, read_u32}
use stratumv.Binary.Codec.{run, RoundTrips, round_trip, Carries-then, Carries-end}
use stratumv.Binary.Codec.Fields.{str255-Carries, u32-Carries}

pub record CloseChannel : Type 0 where
  pub channel_id : ℕ
  pub reason_code : List ℕ

-- The values fit their Go types, and the lists their length prefixes.
pub record IsValid (m : CloseChannel) : Type 0 where
  pub channel_id_fits : m.channel_id < 2 ^ 32
  pub reason_code_fits : length m.reason_code < 2 ^ 8

unfoldable pub encode : CloseChannel → List ℕ × Option Failure
unfolding bytes
encode m = bytes (Builder.new ▷ add_u32 m.channel_id ▷ add_str255 m.reason_code)

unfoldable pub decode : Slice → Outcome (CloseChannel × Option Failure)
unfolding run
decode = run do
  channel_id ← read_u32
  reason_code ← read_str255
  pure (record { channel_id = channel_id; reason_code = reason_code })

-- A message that fits (`IsValid`) is encoded with no error, and `decode` reads it back with no
-- error, whatever bytes follow the encoded ones.
pub CloseChannel-RoundTrips : (m : CloseChannel) → IsValid m → RoundTrips (encode m) decode m
unfolding encode decode
CloseChannel-RoundTrips m v = round_trip (
    Carries-then _ (u32-Carries m.channel_id v.channel_id_fits)
      (Carries-then _ (str255-Carries m.reason_code v.reason_code_fits) (Carries-end m)))
