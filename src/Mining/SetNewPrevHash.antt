-- ===== src/Mining/SetNewPrevHash.antt =====
-- `SetNewPrevHash` of mining.go.
use stratumv.Prelude.{ℕ, ◌^◌, ◌<◌, ◌≡◌, Option, List, length}
use stratumv.Binary.Failure.{Failure}
use stratumv.Binary.Outcome.{Outcome, Slice}
use stratumv.Binary.Builder
use stratumv.Binary.Builder.{◌▷◌, bytes, add_u256, add_u32}
use stratumv.Binary.Reader.{◌>>=◌, pure, read_u256, read_u32}
use stratumv.Binary.Codec.{run, RoundTrips, round_trip, Carries-then, Carries-end}
use stratumv.Binary.Codec.Fields.{u256-Carries, u32-Carries}

pub record SetNewPrevHash : Type 0 where
  pub channel_id : ℕ
  pub job_id : ℕ
  pub prev_hash : List ℕ
  pub min_time : ℕ
  pub bits : ℕ

-- The values fit their Go types, and the lists their length prefixes.
pub record IsValid (m : SetNewPrevHash) : Type 0 where
  pub channel_id_fits : m.channel_id < 2 ^ 32
  pub job_id_fits : m.job_id < 2 ^ 32
  pub prev_hash_fits : length m.prev_hash ≡ 32
  pub min_time_fits : m.min_time < 2 ^ 32
  pub bits_fits : m.bits < 2 ^ 32

unfoldable pub encode : SetNewPrevHash → List ℕ × Option Failure
unfolding bytes
encode m = bytes (
    Builder.new
    ▷ add_u32 m.channel_id
    ▷ add_u32 m.job_id
    ▷ add_u256 m.prev_hash
    ▷ add_u32 m.min_time
    ▷ add_u32 m.bits)

unfoldable pub decode : Slice → Outcome (SetNewPrevHash × Option Failure)
unfolding run
decode = run do
  channel_id ← read_u32
  job_id ← read_u32
  prev_hash ← read_u256
  min_time ← read_u32
  bits ← read_u32
  pure (record {
    channel_id = channel_id;
    job_id = job_id;
    prev_hash = prev_hash;
    min_time = min_time;
    bits = bits;
  })

-- A message that fits (`IsValid`) is encoded with no error, and `decode` reads it back with no
-- error, whatever bytes follow the encoded ones.
pub SetNewPrevHash-RoundTrips : (m : SetNewPrevHash) → IsValid m → RoundTrips (encode m) decode m
unfolding encode decode
SetNewPrevHash-RoundTrips m v = round_trip (
    Carries-then _ (u32-Carries m.channel_id v.channel_id_fits) (
      Carries-then _ (u32-Carries m.job_id v.job_id_fits) (
        Carries-then _ (u256-Carries m.prev_hash v.prev_hash_fits) (
          Carries-then _ (u32-Carries m.min_time v.min_time_fits)
            (Carries-then _ (u32-Carries m.bits v.bits_fits) (Carries-end m))))))
