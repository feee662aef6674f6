-- ===== src/Tests/Messaging.antt =====
-- Frames and messages at concrete inputs.
use stratumv.Prelude.{◌≡◌, arith, none, some, [], ◌∷◌, ◌++◌, ◌<◌, ◌^◌, replicate, length}
use stratumv.Binary.Failure.{ok}
use stratumv.Binary.Outcome.{returns}
use stratumv.Binary.Builder.{add_u32, add_u256}
use stratumv.Binary.Codec.{RoundTrips}
use stratumv.Mining.OpenExtendedMiningChannel.{OpenExtendedMiningChannel}
use stratumv.Mining.SetTarget
use stratumv.Mining.SetTarget.{SetTarget}
use stratumv.Messages
use stratumv.MessageTypes.{message_type_to_string}
use stratumv.Kinds
use stratumv.Kinds.{open_extended_mining_channel}
use stratumv.Kinds.RoundTrips.{every_message-RoundTrips}
use stratumv.Frame
use stratumv.Frame.{Frame, empty}
use stratumv.Frame.RoundTrip.{message_arrives}

abbrev channel : OpenExtendedMiningChannel
channel = record {
  standard = record {
    request_id = 1;
    user_identity = b'x' ∷ b'.' ∷ b'y' ∷ [];
    nominal_hash_rate = 0x5368d4a5;
    max_target = replicate 4 0 ++ replicate 28 255;
  };
  min_extranonce_size = 1;
}

every_message-RoundTrips_example :
    RoundTrips
      (Kinds.encode open_extended_mining_channel channel)
      (Kinds.decode open_extended_mining_channel)
      channel
    × (message_type_to_string (Kinds.number open_extended_mining_channel)
        ≡ ok "OpenExtendedMiningChannel")
every_message-RoundTrips_example =
    every_message-RoundTrips open_extended_mining_channel channel (omega arith)

abbrev small_frame : Frame
small_frame = record {
  extension_type = 0;
  message_type = 0x21;
  message_length = 3;
  payload = 1 ∷ 2 ∷ 3 ∷ [];
  tlvs = [];
}

abbrev new_target : SetTarget
new_target = record { channel_id = 7; max_target = replicate 32 1 }

new_target_short : length (Messages.set_target.codable.encode new_target).0 < 2 ^ 24
unfolding SetTarget.encode add_u32 add_u256
new_target_short = omega arith

message_arrives_example :
    (f : Frame) × (Frame.new_frame_from_params Messages.set_target.codable 0x21 0 new_target ≡ ok f)
    × ((Frame.encode f).1.1 ≡ none)
    × (Frame.decode (Frame.encode f).1.0 empty ≡ some (returns (f, none)))
    × (Frame.to_params Messages.set_target.codable f ≡ returns (new_target, none))
message_arrives_example =
    message_arrives Messages.set_target 0x21 0 new_target (omega arith) (omega arith) (omega arith)
      new_target_short
