-- ===== src/Examples/Written.antt =====
-- The frames that examples/logger/logger.go writes can be sent, and carry their messages.
use stratumv.Prelude.{
  ℕ, ◌+◌, ◌^◌, ◌<◌, ◌≤◌, ◌≡◌, refl, ap, ◌∙◌, arith, none, List, ◌++◌, length, length-append, ascii,
}
use stratumv.Binary.Failure.{Result, ok}
use stratumv.Binary.Outcome.{returns}
use stratumv.Binary.Codec.Sizes.{
  Sized-then, u8-Sized, u16-Sized, u32-Sized, f32-Sized, u256-Sized, bytes-Sized, str255-Sized,
  bytes-size,
}
use stratumv.Frame.{Frame, LawfulCodable, new_frame_from_params, to_params, extension_type_core}
use stratumv.Frame.RoundTrip.{new_frame_from_params_lem}
use stratumv.Noise.Transport.Delivery.{IsSendable}
use stratumv.Core.SetupConnection
use stratumv.Mining.OpenStandardMiningChannel
use stratumv.Mining.OpenExtendedMiningChannel
use stratumv.Mining.CloseChannel
use stratumv.Messages
use stratumv.MessageTypes.{
  message_setup_connection, message_open_extended_mining_channel, message_close_channel,
}
use stratumv.Examples.Logger.{
  max_target, setup_msg, open_chan_msg, close_msg, setup_frame, open_chan_frame, close_msg_frame,
}

-- A frame that was made of the message `m` and can be sent.
pub record Framed {A : Type 0} (c : LawfulCodable A) (message_type : ℕ) (m : A)
    (made : Result Frame) : Type 0 where
  pub frame : Frame
  pub is_made : made ≡ ok frame
  pub type_kept : frame.message_type ≡ message_type
  pub sendable : IsSendable frame
  pub message_kept : to_params c.codable frame ≡ returns (m, none)

pub framed_lem :
    {A : Type 0} (c : LawfulCodable A) (message_type : ℕ) (m : A)
    → c.Fits m
    → message_type < 2 ^ 8
    → 0 < length (c.codable.encode m).0
    → length (c.codable.encode m).0 ≤ 65519
    → Framed c message_type m (new_frame_from_params c.codable message_type extension_type_core m)
framed_lem c message_type m fits hm h0 hl =
    let (f, framed, valid, plain, payload, same_type, opened) =
      new_frame_from_params_lem c message_type 0 m fits hm (omega arith) (omega (arith, hl)) in
    let size = ap length payload in
    record {
      frame = f;
      is_made = framed;
      type_kept = same_type;
      sendable = record {
        valid = valid;
        plain = plain;
        not_empty = omega (arith, valid.length_exact, size, h0);
        one_chunk = omega (arith, valid.length_exact, size, hl);
      };
      message_kept = opened;
    }

max_target_length : length max_target ≡ 32
unfolding max_target stratumv.U256.Hex.from_hex_char
max_target_length = refl

module _ (pool_host : List ℕ) (pool_port : ℕ) (host_fits : length pool_host < 2 ^ 8) where
  setup_msg_size :
      length (Messages.setup_connection.codable.encode (setup_msg pool_host pool_port)).0
      ≡ 74 + length pool_host
  unfolding SetupConnection.encode
  setup_msg_size =
      let (wire, written, size) = bytes-size (
        Sized-then (u8-Sized _) (
          Sized-then (u16-Sized _) (
            Sized-then (u16-Sized _) (
              Sized-then (u32-Sized _) (
                Sized-then (str255-Sized pool_host host_fits) (
                  Sized-then (u16-Sized pool_port) (
                    Sized-then (str255-Sized (ascii "0xf0xx0") (omega arith)) (
                      Sized-then (str255-Sized (ascii "logger.go") (omega arith)) (
                        Sized-then
                          (str255-Sized (ascii "git.0xf0xx0.eth.limo/0xf0xx0/stratumv2")
                            (omega arith))
                          (str255-Sized (ascii "paws") (omega arith))))))))))) in
      ap (λ e. length e.0) written ∙ size ∙ omega arith

  pub setup_frame-Framed :
      pool_port < 2 ^ 16
      → Framed Messages.setup_connection message_setup_connection
          (setup_msg pool_host pool_port)
          (setup_frame pool_host pool_port)
  unfolding setup_frame
  setup_frame-Framed port_fits =
      framed_lem Messages.setup_connection message_setup_connection (setup_msg pool_host pool_port)
        (omega (arith, host_fits, port_fits)) (omega arith) (omega (arith, setup_msg_size))
        (omega (arith, setup_msg_size, host_fits))

module _ (address : List ℕ) (address_fits : length address ≤ 244) where
  identity_fits : length (address ++ ascii ".sv2-logger") < 2 ^ 8
  identity_fits = omega (arith, address_fits, length-append address (ascii ".sv2-logger"))

  -- The message fits its Go types.
  open_chan_msg-Fits : Messages.open_extended_mining_channel.Fits (open_chan_msg address)
  open_chan_msg-Fits = record {
    standard_fits = record {
      request_id_fits = omega arith;
      user_identity_fits = identity_fits;
      nominal_hash_rate_fits = omega arith;
      max_target_fits = max_target_length;
    };
    min_extranonce_size_fits = omega arith;
  }

  open_chan_msg_size :
      length (Messages.open_extended_mining_channel.codable.encode (open_chan_msg address)).0
      ≡ 54 + length address
  unfolding OpenExtendedMiningChannel.encode OpenStandardMiningChannel.encode
  open_chan_msg_size =
      let (inner, inner_written, inner_size) = bytes-size (
        Sized-then (u32-Sized _) (
          Sized-then (str255-Sized (address ++ ascii ".sv2-logger") identity_fits)
            (Sized-then (f32-Sized _) (u256-Sized max_target max_target_length)))) in
      let (wire, written, size) = bytes-size (Sized-then (bytes-Sized inner) (u16-Sized 1)) in
      ap (λ e. length (OpenExtendedMiningChannel.encode_after 1 e).0) inner_written
      ∙ ap (λ e. length e.0) written
      ∙ omega (arith, size, inner_size, length-append address (ascii ".sv2-logger"))

  pub open_chan_frame-Framed :
      Framed Messages.open_extended_mining_channel message_open_extended_mining_channel
        (open_chan_msg address)
        (open_chan_frame address)
  unfolding open_chan_frame
  open_chan_frame-Framed =
      framed_lem Messages.open_extended_mining_channel message_open_extended_mining_channel
        (open_chan_msg address) open_chan_msg-Fits (omega arith) (omega (arith, open_chan_msg_size))
        (omega (arith, open_chan_msg_size, address_fits))

module _ (chan_id : ℕ) where
  close_msg_size : length (Messages.close_channel.codable.encode (close_msg chan_id)).0 ≡ 49
  unfolding CloseChannel.encode
  close_msg_size =
      let (wire, written, size) =
        bytes-size
          (Sized-then (u32-Sized _) (str255-Sized (close_msg chan_id).reason_code (omega arith))) in
      ap (λ e. length e.0) written ∙ size ∙ omega arith

  pub close_msg_frame-Framed :
      Framed Messages.close_channel message_close_channel
        (close_msg chan_id)
        (close_msg_frame chan_id)
  unfolding close_msg_frame
  close_msg_frame-Framed =
      framed_lem Messages.close_channel message_close_channel (close_msg chan_id) (omega arith)
        (omega arith) (omega (arith, close_msg_size)) (omega (arith, close_msg_size))
