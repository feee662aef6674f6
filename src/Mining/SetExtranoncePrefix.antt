-- ===== src/Mining/SetExtranoncePrefix.antt =====
-- `SetExtranoncePrefix` of mining.go.
use stratumv.Prelude.{ℕ, ◌^◌, ◌<◌, ◌≤◌, Option, List, length}
use stratumv.Binary.Failure.{Failure}
use stratumv.Binary.Outcome.{Outcome, Slice}
use stratumv.Binary.Builder
use stratumv.Binary.Builder.{◌▷◌, bytes, add_bin32, add_u32}
use stratumv.Binary.Reader.{◌>>=◌, pure, contents_of, read_bin32, read_u32}
use stratumv.Binary.Codec.{run, RoundTrips, round_trip, Carries-then, Carries-end}
use stratumv.Binary.Codec.Fields.{bin32-Carries, u32-Carries}

pub record SetExtranoncePrefix : Type 0 where
  pub channel_id : ℕ
  pub extranonce_prefix : List ℕ

-- The values fit their Go types, and the lists their length prefixes.
pub record IsValid (m : SetExtranoncePrefix) : Type 0 where
  pub channel_id_fits : m.channel_id < 2 ^ 32
  pub extranonce_prefix_fits : length m.extranonce_prefix ≤ 32

unfoldable pub encode : SetExtranoncePrefix → List ℕ × Option Failure
unfolding bytes
encode m = bytes (Builder.new ▷ add_u32 m.channel_id ▷ add_bin32 m.extranonce_prefix)

unfoldable pub decode : Slice → Outcome (SetExtranoncePrefix × Option Failure)
unfolding run
decode = run do
  channel_id ← read_u32
  extranonce_prefix ← contents_of read_bin32
  pure (record { channel_id = channel_id; extranonce_prefix = extranonce_prefix })

-- A message that fits (`IsValid`) is encoded with no error, and `decode` reads it back with no
-- error, whatever bytes follow the encoded ones.
pub SetExtranoncePrefix-RoundTrips :
    (m : SetExtranoncePrefix) → IsValid m → RoundTrips (encode m) decode m
unfolding encode decode
SetExtranoncePrefix-RoundTrips m v = round_trip (
    Carries-then _ (u32-Carries m.channel_id v.channel_id_fits)
      (Carries-then _ (bin32-Carries m.extranonce_prefix v.extranonce_prefix_fits) (Carries-end m)))
