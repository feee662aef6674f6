-- ===== src/Connection/Messaging.antt =====
-- The first message over a connection: framed, written, read and taken from its frame.
use stratumv.Prelude.{
  ℕ, ◌+◌, ◌^◌, ◌<◌, ◌≤◌, ◌≡◌, refl, sym, ap, ◌∙◌, arith, none, List, [], append-nil, length,
}
use stratumv.Binary.Failure.{ok}
use stratumv.Binary.Outcome.{returns}
use stratumv.Frame.{Frame, LawfulCodable, new_frame_from_params, to_params}
use stratumv.Frame.RoundTrip.{new_frame_from_params_lem}
use stratumv.Noise.Aead.{Aead}
use stratumv.Noise.Cipher.{CipherState}
use stratumv.Noise.Cipher.Laws.{IsReady, advanced}
use stratumv.Noise.Digest.{Sha256}
use stratumv.Noise.Secp256k1.{Secp256k1}
use stratumv.Noise.Proc.{Network}
use stratumv.Noise.Handshake.{HandshakeState, Ended}
use stratumv.Noise.Handshake.Transcript.{Parties}
use stratumv.Noise.Handshake.Completion.{IsComplete}
use stratumv.Noise.Transport.Delivery.{IsSendable, ciphertext}
use stratumv.Connection.{Sv2Conn, client_conn, server_conn, write_frame, read_frame}
use stratumv.Connection.Actions.{write_frame_lem, read_frame_lem}

-- What `writer` writes, `reader` reads whole, and takes the message from it.
pub record Arrives (aead : Aead) (max_noise_nonce : ℕ) {A : Type 0} (c : LawfulCodable A)
    (message_type extension_type : ℕ) (m : A) (writer reader : Sv2Conn) : Type 0 where
  pub frame : Frame
  pub framed : new_frame_from_params c.codable message_type extension_type m ≡ ok frame
  pub wire : List ℕ
  pub writer' : Sv2Conn
  pub written :
      write_frame aead max_noise_nonce frame [] writer
      ≡ (frame, (writer', (wire, ok (length wire))))
  pub reader' : Sv2Conn
  pub was_read : read_frame aead max_noise_nonce wire reader ≡ returns (reader', (ok frame, []))
  pub opened : to_params c.codable frame ≡ returns (m, none)

module _ (aead : Aead) (max_noise_nonce : ℕ) {A : Type 0} (c : LawfulCodable A)
    (message_type extension_type : ℕ) (m : A) where
  same_state-Arrives :
      (cs other other' : CipherState)
      → IsReady max_noise_nonce cs
      → cs.n + 1 < max_noise_nonce
      → c.Fits m
      → message_type < 2 ^ 8
      → extension_type < 2 ^ 16
      → 0 < length (c.codable.encode m).0
      → length (c.codable.encode m).0 ≤ 65519
      → Arrives aead max_noise_nonce c message_type extension_type m
          (record { send = cs; recv = other })
          (record { send = other'; recv = cs })
  same_state-Arrives cs other other' ready more fits hm he h0 hl =
      let (f, framed, valid, plain, payload, same_type, opened) =
        new_frame_from_params_lem c message_type extension_type m fits hm he (omega (arith, hl)) in
      let size = ap length payload in
      let sendable : IsSendable f = record {
        valid = valid;
        plain = plain;
        not_empty = omega (arith, valid.length_exact, size, h0);
        one_chunk = omega (arith, valid.length_exact, size, hl);
      } in
      let bs = ciphertext aead max_noise_nonce cs f in
      record {
        frame = f;
        framed = framed;
        wire = bs;
        writer' = record { send = advanced 2 cs; recv = other };
        written =
            write_frame_lem aead max_noise_nonce f [] (record { send = cs; recv = other }) ready
              more sendable;
        reader' = record { send = other'; recv = advanced 2 cs };
        was_read =
            ap (λ w. read_frame aead max_noise_nonce w (record { send = other'; recv = cs }))
              (sym (append-nil bs))
            ∙ read_frame_lem aead max_noise_nonce f [] (record { send = other'; recv = cs }) ready
                more sendable;
        opened = opened;
      }

module _ (sha : Sha256) (aead : Aead) (max_noise_nonce : ℕ) (curve : Secp256k1)
    (p : Parties sha aead max_noise_nonce curve) {initiator responder : HandshakeState}
    {net : Network Ended Ended} {A : Type 0} (c : LawfulCodable A) where
  -- Where a handshake is complete, both sides get an `Sv2Conn`. A message that fits, of a type
  -- whose encoding is read back and takes 1 to 65519 bytes, is framed by `NewFrameFromParams`; the
  -- client writes the frame with no error, the server reads it from the bytes written and leaves
  -- none, and `ToParams` gives the message. The same holds from the server to the client.
  pub message_delivered :
      (k : IsComplete sha aead max_noise_nonce curve p initiator responder net)
      (message_type extension_type : ℕ) (m : A)
      → 1 < max_noise_nonce
      → max_noise_nonce < 2 ^ 64
      → c.Fits m
      → message_type < 2 ^ 8
      → extension_type < 2 ^ 16
      → 0 < length (c.codable.encode m).0
      → length (c.codable.encode m).0 ≤ 65519
      → (client_side : Sv2Conn) × (server_side : Sv2Conn) × (client_conn
            (k.initiator_state, ok k.keys)
          ≡ ok client_side)
        × (server_conn (k.responder_state, ok k.keys) ≡ ok server_side)
        × Arrives aead max_noise_nonce c message_type extension_type m client_side server_side
        × Arrives aead max_noise_nonce c message_type extension_type m server_side client_side
  unfolding client_conn server_conn
  message_delivered k message_type extension_type m two end_fits fits hm he h0 hl = (
    _,
    _,
    refl,
    refl,
    same_state-Arrives aead max_noise_nonce c message_type extension_type m k.keys.0 k.keys.1
        k.keys.1
        (record {
          keyed = omega (arith, k.fresh.first_key);
          below = omega (arith, k.fresh.first_counter);
          end_fits = end_fits;
        })
        (omega (arith, k.fresh.first_counter)) fits hm he h0 hl,
    same_state-Arrives aead max_noise_nonce c message_type extension_type m k.keys.1 k.keys.0
        k.keys.0
        (record {
          keyed = omega (arith, k.fresh.second_key);
          below = omega (arith, k.fresh.second_counter);
          end_fits = end_fits;
        })
        (omega (arith, k.fresh.second_counter)) fits hm he h0 hl,
  )
