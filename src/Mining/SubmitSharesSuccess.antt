-- ===== src/Mining/SubmitSharesSuccess.antt =====
-- `SubmitSharesSuccess` of mining.go.
use stratumv.Prelude.{ℕ, ◌^◌, ◌<◌, Option, List}
use stratumv.Binary.Failure.{Failure}
use stratumv.Binary.Outcome.{Outcome, Slice}
use stratumv.Binary.Builder
use stratumv.Binary.Builder.{◌▷◌, bytes, add_u32, add_u64}
use stratumv.Binary.Reader.{◌>>=◌, pure, read_u32, read_u64}
use stratumv.Binary.Codec.{run, RoundTrips, round_trip, Carries-then, Carries-end}
use stratumv.Binary.Codec.Fields.{u32-Carries, u64-Carries}

pub record SubmitSharesSuccess : Type 0 where
  pub channel_id : ℕ
  pub last_sequence_number : ℕ
  pub new_submits_accepted_count : ℕ
  pub new_shares_sum : ℕ

-- The values fit their Go types, and the lists their length prefixes.
pub record IsValid (m : SubmitSharesSuccess) : Type 0 where
  pub channel_id_fits : m.channel_id < 2 ^ 32
  pub last_sequence_number_fits : m.last_sequence_number < 2 ^ 32
  pub new_submits_accepted_count_fits : m.new_submits_accepted_count < 2 ^ 32
  pub new_shares_sum_fits : m.new_shares_sum < 2 ^ 64

unfoldable pub encode : SubmitSharesSuccess → List ℕ × Option Failure
unfolding bytes
encode m = bytes (
    Builder.new
    ▷ add_u32 m.channel_id
    ▷ add_u32 m.last_sequence_number
    ▷ add_u32 m.new_submits_accepted_count
    ▷ add_u64 m.new_shares_sum)

unfoldable pub decode : Slice → Outcome (SubmitSharesSuccess × Option Failure)
unfolding run
decode = run do
  channel_id ← read_u32
  last_sequence_number ← read_u32
  new_submits_accepted_count ← read_u32
  new_shares_sum ← read_u64
  pure (record {
    channel_id = channel_id;
    last_sequence_number = last_sequence_number;
    new_submits_accepted_count = new_submits_accepted_count;
    new_shares_sum = new_shares_sum;
  })

-- A message that fits (`IsValid`) is encoded with no error, and `decode` reads it back with no
-- error, whatever bytes follow the encoded ones.
pub SubmitSharesSuccess-RoundTrips :
    (m : SubmitSharesSuccess) → IsValid m → RoundTrips (encode m) decode m
unfolding encode decode
SubmitSharesSuccess-RoundTrips m v = round_trip (
    Carries-then _ (u32-Carries m.channel_id v.channel_id_fits) (
      Carries-then _ (u32-Carries m.last_sequence_number v.last_sequence_number_fits) (
        Carries-then _ (u32-Carries m.new_submits_accepted_count v.new_submits_accepted_count_fits)
          (Carries-then _ (u64-Carries m.new_shares_sum v.new_shares_sum_fits) (Carries-end m)))))
