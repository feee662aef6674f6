-- ===== src/Mining/OpenExtendedMiningChannelSuccess.antt =====
-- `OpenExtendedMiningChannelSuccess` of mining.go, which embeds the standard channel's message.
use stratumv.Prelude.{ℕ, ◌^◌, ◌<◌, Option, List}
use stratumv.Binary.Failure.{Failure}
use stratumv.Binary.Outcome.{Outcome, Slice}
use stratumv.Binary.Builder
use stratumv.Binary.Builder.{◌▷◌, bytes, add_bin32, add_u16, add_u256, add_u32}
use stratumv.Binary.Reader.{◌>>=◌, pure, contents_of, read_bin32, read_u16, read_u256, read_u32}
use stratumv.Binary.Codec.{run, RoundTrips, round_trip, Carries-then, Carries-end}
use stratumv.Binary.Codec.Fields.{bin32-Carries, u16-Carries, u256-Carries, u32-Carries}
use stratumv.Mining.OpenStandardMiningChannelSuccess
use stratumv.Mining.OpenStandardMiningChannelSuccess.{OpenStandardMiningChannelSuccess}

pub record OpenExtendedMiningChannelSuccess : Type 0 where
  pub standard : OpenStandardMiningChannelSuccess
  pub open standard use *
  pub extranonce_size : ℕ

-- The values fit their Go types, and the lists their length prefixes.
pub record IsValid (m : OpenExtendedMiningChannelSuccess) : Type 0 where
  pub standard_fits : OpenStandardMiningChannelSuccess.IsValid m.standard
  pub extranonce_size_fits : m.extranonce_size < 2 ^ 16

unfoldable pub encode : OpenExtendedMiningChannelSuccess → List ℕ × Option Failure
unfolding bytes
encode m = bytes (
    Builder.new
    ▷ add_u32 m.request_id
    ▷ add_u32 m.channel_id
    ▷ add_u256 m.target
    ▷ add_u16 m.extranonce_size
    ▷ add_bin32 m.extranonce_prefix
    ▷ add_u32 m.group_channel_id)

unfoldable pub decode : Slice → Outcome (OpenExtendedMiningChannelSuccess × Option Failure)
unfolding run
decode = run do
  request_id ← read_u32
  channel_id ← read_u32
  target ← read_u256
  extranonce_size ← read_u16
  extranonce_prefix ← contents_of read_bin32
  group_channel_id ← read_u32
  pure (record {
    standard = record {
      request_id = request_id;
      channel_id = channel_id;
      target = target;
      extranonce_prefix = extranonce_prefix;
      group_channel_id = group_channel_id;
    };
    extranonce_size = extranonce_size;
  })

-- A message that fits (`IsValid`) is encoded with no error, and `decode` reads it back with no
-- error, whatever bytes follow the encoded ones.
pub OpenExtendedMiningChannelSuccess-RoundTrips :
    (m : OpenExtendedMiningChannelSuccess) → IsValid m → RoundTrips (encode m) decode m
unfolding encode decode
OpenExtendedMiningChannelSuccess-RoundTrips m v =
    let s = v.standard_fits in
    round_trip (
      Carries-then _ (u32-Carries m.request_id s.request_id_fits) (
        Carries-then _ (u32-Carries m.channel_id s.channel_id_fits) (
          Carries-then _ (u256-Carries m.target s.target_fits) (
            Carries-then _ (u16-Carries m.extranonce_size v.extranonce_size_fits) (
              Carries-then _ (bin32-Carries m.extranonce_prefix s.extranonce_prefix_fits) (
                Carries-then _ (u32-Carries m.group_channel_id s.group_channel_id_fits)
                  (Carries-end m)))))))
