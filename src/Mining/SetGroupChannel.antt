-- ===== src/Mining/SetGroupChannel.antt =====
-- `SetGroupChannel` of mining.go.
use stratumv.Prelude.{ℕ, ◌^◌, ◌<◌, ◌≤◌, Option, List, length, All}
use stratumv.Binary.Failure.{Failure}
use stratumv.Binary.Outcome.{Outcome, Slice}
use stratumv.Binary.Builder
use stratumv.Binary.Builder.{◌▷◌, bytes, add_u32}
use stratumv.Binary.Reader.{◌>>=◌, pure, read_u16, read_u32}
use stratumv.Binary.Sequence.{u32s, add_seq64k, read_each}
use stratumv.Binary.Codec.{run, RoundTrips, round_trip, Carries-then, Carries-end}
use stratumv.Binary.Codec.Fields.{u32-Carries, u32_list-Carries}

pub record SetGroupChannel : Type 0 where
  pub group_channel_id : ℕ
  pub channel_ids : List ℕ

-- The values fit their Go types, and the lists their length prefixes.
pub record IsValid (m : SetGroupChannel) : Type 0 where
  pub group_channel_id_fits : m.group_channel_id < 2 ^ 32
  pub channel_ids_elements : All (λ v. v < 2 ^ 32) m.channel_ids
  pub channel_ids_fits : length m.channel_ids ≤ 65535

unfoldable pub encode : SetGroupChannel → List ℕ × Option Failure
unfolding bytes
encode m = bytes (Builder.new ▷ add_u32 m.group_channel_id ▷ add_seq64k (u32s m.channel_ids))

unfoldable pub decode : Slice → Outcome (SetGroupChannel × Option Failure)
unfolding run
decode = run do
  group_channel_id ← read_u32
  channel_ids ← (do l ← read_u16; read_each read_u32 l)
  pure (record { group_channel_id = group_channel_id; channel_ids = channel_ids })

-- A message that fits (`IsValid`) is encoded with no error, and `decode` reads it back with no
-- error, whatever bytes follow the encoded ones.
pub SetGroupChannel-RoundTrips : (m : SetGroupChannel) → IsValid m → RoundTrips (encode m) decode m
unfolding encode decode
SetGroupChannel-RoundTrips m v = round_trip (
    Carries-then _ (u32-Carries m.group_channel_id v.group_channel_id_fits) (
      Carries-then _ (u32_list-Carries m.channel_ids v.channel_ids_elements v.channel_ids_fits)
        (Carries-end m)))
