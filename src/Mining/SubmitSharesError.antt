-- ===== src/Mining/SubmitSharesError.antt =====
-- `SubmitSharesError` of mining.go.
use stratumv.Prelude.{ℕ, ◌^◌, ◌<◌, Option, List, length}
use stratumv.Binary.Failure.{Failure}
use stratumv.Binary.Outcome.{Outcome, Slice}
use stratumv.Binary.Builder
use stratumv.Binary.Builder.{◌▷◌, bytes, add_str255, add_u32}
use stratumv.Binary.Reader.{◌>>=◌, pure, read_str255, read_u32}
use stratumv.Binary.Codec.{run, RoundTrips, round_trip, Carries-then, Carries-end}
use stratumv.Binary.Codec.Fields.{str255-Carries, u32-Carries}

pub record SubmitSharesError : Type 0 where
  pub channel_id : ℕ
  pub sequence_number : ℕ
  pub error_code : List ℕ

-- The values fit their Go types, and the lists their length prefixes.
pub record IsValid (m : SubmitSharesError) : Type 0 where
  pub channel_id_fits : m.channel_id < 2 ^ 32
  pub sequence_number_fits : m.sequence_number < 2 ^ 32
  pub error_code_fits : length m.error_code < 2 ^ 8

unfoldable pub encode : SubmitSharesError → List ℕ × Option Failure
unfolding bytes
encode m =
    bytes (Builder.new ▷ add_u32 m.channel_id ▷ add_u32 m.sequence_number ▷ add_str255 m.error_code)

unfoldable pub decode : Slice → Outcome (SubmitSharesError × Option Failure)
unfolding run
decode = run do
  channel_id ← read_u32
  sequence_number ← read_u32
  error_code ← read_str255
  pure (record {
    channel_id = channel_id;
    sequence_number = sequence_number;
    error_code = error_code;
  })

-- A message that fits (`IsValid`) is encoded with no error, and `decode` reads it back with no
-- error, whatever bytes follow the encoded ones.
pub SubmitSharesError-RoundTrips :
    (m : SubmitSharesError) → IsValid m → RoundTrips (encode m) decode m
unfolding encode decode
SubmitSharesError-RoundTrips m v = round_trip (
    Carries-then _ (u32-Carries m.channel_id v.channel_id_fits) (
      Carries-then _ (u32-Carries m.sequence_number v.sequence_number_fits)
        (Carries-then _ (str255-Carries m.error_code v.error_code_fits) (Carries-end m))))
