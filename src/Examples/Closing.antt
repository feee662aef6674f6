-- ===== src/Examples/Closing.antt =====
-- How the logger of examples/logger learns of its channel and closes it.
use mathlib.Core.Path.{subst}
use stratumv.Prelude.{
  ℕ, suc, ◌+◌, ◌%◌, ◌^◌, ◌<◌, ◌≡◌, sym, ap, ◌∙◌, arith, none, List, [], ◌∷◌, ◌++◌, append-nil,
  length, length-append, All,
}
use stratumv.Prelude.Int.{ℤ, pos, negsuc}
use stratumv.Binary.Failure.{ok}
use stratumv.Binary.Outcome.{returns}
use stratumv.Binary.Codec.Sizes.{
  Sized-then, u16-Sized, u32-Sized, u256-Sized, bin32-Sized, bytes-size,
}
use stratumv.Frame.{Frame, new_frame_from_params, to_params, extension_type_core}
use stratumv.Mining.OpenExtendedMiningChannelSuccess
use stratumv.Mining.OpenExtendedMiningChannelSuccess.{OpenExtendedMiningChannelSuccess}
use stratumv.Messages
use stratumv.MessageTypes.{message_open_extended_mining_channel_success, message_close_channel}
use stratumv.Noise.Aead.{Aead}
use stratumv.Noise.Cipher.Laws.{advanced}
use stratumv.Noise.Transport.Delivery.{IsSendable, ciphertext}
use stratumv.Connection.{Sv2Conn, read_frame}
use stratumv.Examples.Logger.{close_msg, note_frame, read_rounds, put, close_channel}
use stratumv.Examples.Written.{Framed, framed_lem, close_msg_frame-Framed}
use stratumv.Examples.Streams.{
  HasRoom, HasRoom-next, IsOther, wire_of, put_lem, read_first, after_frames, after_frames-send,
  read_noted, read_others, read_others_before,
}

opened_size :
    (m : OpenExtendedMiningChannelSuccess)
    → OpenExtendedMiningChannelSuccess.IsValid m
    → length (OpenExtendedMiningChannelSuccess.encode m).0 ≡ 47 + length m.extranonce_prefix
unfolding OpenExtendedMiningChannelSuccess.encode
opened_size m v =
    let s = v.standard_fits in
    let (wire, written, size) = bytes-size (
      Sized-then (u32-Sized _) (
        Sized-then (u32-Sized _) (
          Sized-then (u256-Sized m.target s.target_fits) (
            Sized-then (u16-Sized _) (
              Sized-then (bin32-Sized m.extranonce_prefix s.extranonce_prefix_fits)
                (u32-Sized _)))))) in
    ap (λ e. length e.0) written ∙ size ∙ omega arith

opened-Framed :
    (m : OpenExtendedMiningChannelSuccess)
    → OpenExtendedMiningChannelSuccess.IsValid m
    → Framed Messages.open_extended_mining_channel_success
        message_open_extended_mining_channel_success m
        (new_frame_from_params Messages.open_extended_mining_channel_success.codable
          message_open_extended_mining_channel_success extension_type_core m)
opened-Framed m v =
    framed_lem Messages.open_extended_mining_channel_success
      message_open_extended_mining_channel_success m v (omega arith)
      (omega (arith, opened_size m v))
      (omega (arith, opened_size m v, v.standard_fits.extranonce_prefix_fits))

-- The frame that opens the channel gives the logger the channel's id.
note_opened :
    (m : OpenExtendedMiningChannelSuccess) (f : Frame) (chan_id : ℤ)
    → f.message_type ≡ message_open_extended_mining_channel_success
    → to_params Messages.open_extended_mining_channel_success.codable f ≡ returns (m, none)
    → note_frame f chan_id ≡ returns (pos m.channel_id)
unfolding note_frame to_params
note_opened m f chan_id is_opened opened = ground (arith, opened)

module _ (aead : Aead) (max_noise_nonce : ℕ) where
  -- What the logger reads behind the frames `before`, and what it then writes at the signal.
  pub record LastExchange (before after : List Frame) (m : OpenExtendedMiningChannelSuccess)
      (logger server : Sv2Conn) : Type 0 where
    pub frame : Frame
    pub framed :
        new_frame_from_params Messages.open_extended_mining_channel_success.codable
          message_open_extended_mining_channel_success extension_type_core m
        ≡ ok frame
    pub reader_conn : Sv2Conn
    pub learned :
        read_rounds aead max_noise_nonce
          (length (before ++ frame ∷ after))
          (wire_of aead max_noise_nonce logger.recv (before ++ frame ∷ after))
          logger
          (negsuc 0)
        ≡ returns (record { conn = reader_conn; chan_id = pos m.channel_id; ended = none })
    pub logger_after : Sv2Conn
    pub wire : List ℕ
    pub closed :
        close_channel aead max_noise_nonce (pos m.channel_id) [] reader_conn
        ≡ returns (logger_after, (wire, none))
    pub server_after : Sv2Conn
    pub close_frame : Frame
    pub close_read :
        read_frame aead max_noise_nonce wire server ≡ returns (server_after, (ok close_frame, []))
    pub close_type : close_frame.message_type ≡ message_close_channel
    pub close_kept :
        to_params Messages.close_channel.codable close_frame
        ≡ returns
            (record { channel_id = m.channel_id; reason_code = (close_msg 0).reason_code }, none)

  learned_lem :
      (before after : List Frame) (f : Frame) (m : OpenExtendedMiningChannelSuccess)
      (conn : Sv2Conn) (chan_id : ℤ)
      → All IsSendable before
      → All IsOther before
      → IsSendable f
      → note_frame f chan_id ≡ returns (pos m.channel_id)
      → All IsSendable after
      → All IsOther after
      → HasRoom max_noise_nonce (length (before ++ f ∷ after)) conn.recv
      → (conn' : Sv2Conn) × (read_rounds aead max_noise_nonce
            (length (before ++ f ∷ after))
            (wire_of aead max_noise_nonce conn.recv (before ++ f ∷ after))
            conn
            chan_id
          ≡ returns (record { conn = conn'; chan_id = pos m.channel_id; ended = none }))
        × (conn'.send ≡ conn.send)
  learned_lem before after f m conn chan_id sb ob sf noted_so sa oa room =
      let (skipped, room') =
        read_others_before aead max_noise_nonce before (f ∷ after) conn chan_id sb ob room in
      let mid : Sv2Conn = after_frames aead max_noise_nonce before conn in
      let next : Sv2Conn = record mid { recv = advanced 2 mid.recv } in
      (
        _,
        skipped
            ∙ read_noted aead max_noise_nonce f (length after)
                (wire_of aead max_noise_nonce next.recv after) mid chan_id (pos m.channel_id) room'
                sf noted_so
            ∙ read_others aead max_noise_nonce after next (pos m.channel_id) sa oa
                (HasRoom-next max_noise_nonce (length after) mid.recv room'),
        after_frames-send aead max_noise_nonce after next
            ∙ after_frames-send aead max_noise_nonce before conn,
      )

  -- Let the server answer with an `OpenExtendedMiningChannelSuccess` that fits its fields, among
  -- any other frames that can be sent and are not of this type, and let there be nonces for all.
  -- Then the logger, which has read them in as many rounds, has the id of the channel; and the
  -- `CloseChannel` that it writes at the signal is written with no error, and is what a server with
  -- the logger's sending state reads: it has the id of that channel.
  pub logger_closes :
      (before after : List Frame) (m : OpenExtendedMiningChannelSuccess) (logger server : Sv2Conn)
      → OpenExtendedMiningChannelSuccess.IsValid m
      → All IsSendable before
      → All IsOther before
      → All IsSendable after
      → All IsOther after
      → HasRoom max_noise_nonce (suc (length before + length after)) logger.recv
      → HasRoom max_noise_nonce 1 logger.send
      → server.recv ≡ logger.send
      → LastExchange before after m logger server
  unfolding close_channel
  logger_closes before after m logger server v sb ob sa oa room last same =
      let opened = opened-Framed m v in
      let (reader_conn, learned, kept) =
        learned_lem before after opened.frame m logger (negsuc 0) sb ob opened.sendable
          (note_opened m opened.frame (negsuc 0) opened.type_kept opened.message_kept) sa oa
          (enough opened.frame) in
      let closing = close_msg_frame-Framed m.channel_id in
      record {
        frame = opened.frame;
        framed = opened.is_made;
        reader_conn = reader_conn;
        learned = learned;
        logger_after = _;
        wire = _;
        closed =
            ap (λ r. put aead max_noise_nonce r [] reader_conn) closing.is_made
            ∙ put_lem aead max_noise_nonce closing.frame [] reader_conn
                (subst (HasRoom max_noise_nonce 1) (sym kept) last) closing.sendable;
        server_after = _;
        close_frame = closing.frame;
        close_read =
            ap
              (λ cs.
                read_frame aead max_noise_nonce (ciphertext aead max_noise_nonce cs closing.frame)
                  server)
              (kept ∙ sym same)
            ∙ ap (λ w. read_frame aead max_noise_nonce w server)
                (sym (append-nil (ciphertext aead max_noise_nonce server.recv closing.frame)))
            ∙ read_first aead max_noise_nonce closing.frame 0 [] server
                (subst (HasRoom max_noise_nonce 1) (sym same) last) closing.sendable;
        close_type = closing.type_kept;
        close_kept =
            closing.message_kept
            ∙ ap
                (λ id.
                  returns
                    (record { channel_id = id; reason_code = (close_msg 0).reason_code }, none))
                (small v.standard_fits.channel_id_fits);
      }
    where
      enough : (f : Frame) → HasRoom max_noise_nonce (length (before ++ f ∷ after)) logger.recv
      enough f = record {
        keyed = room.keyed;
        room = omega (arith, room.room, length-append before (f ∷ after));
        end_fits = room.end_fits;
      }

      small : {id : ℕ} → id < 2 ^ 32 → id % 2 ^ 32 ≡ id
      small h = omega (arith, h)
