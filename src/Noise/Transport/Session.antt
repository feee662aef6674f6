-- ===== src/Noise/Transport/Session.antt =====
-- One direction of a connection: a side that sends frames by `EncryptFrameToWriter`, a side that
-- receives them by `DecryptFrameFromReader`, and the bytes between them, in any interleaving.
pub mod InOrder
use mathlib.Core.Path.{subst}
use stratumv.Prelude.{
  ℕ, ◌+◌, ◌^◌, ◌<◌, ◌≡◌, ◌⊎◌, inl, inr, refl, sym, ap, ◌∙◌, arith, List, [], ◌∷◌, ◌++◌, append-nil,
  append_assoc, length, length-append,
}
use stratumv.Binary.Failure.{Result, ok, err}
use stratumv.Binary.Outcome.{Outcome, returns, panics}
use stratumv.Frame.{Frame}
use stratumv.Noise.Aead.{Aead}
use stratumv.Noise.Cipher.{CipherState}
use stratumv.Noise.Cipher.Laws.{IsReady, advanced}
use stratumv.Noise.Transport.{written, encrypt_frame_to_writer, decrypt_frame_from_reader}
use stratumv.Noise.Transport.Delivery.{
  IsSendable, ciphertext, length-ciphertext, encrypt_frame_lem, decrypt_frame_from_reader_lem,
}

-- What has been sent and received is kept beside the two cipher states.
pub record Session : Type 0 where
  pub sender : CipherState
  pub wire : List ℕ
  pub receiver : CipherState
  pub sent : List Frame
  pub received : List Frame

-- Both sides have the same cipher state when the handshake is over.
abbrev pub start : CipherState → Session
start cs = record { sender = cs; wire = []; receiver = cs; sent = []; received = [] }

module _ (aead : Aead) (max_noise_nonce : ℕ) where
  abbrev pub after_send : Frame → Session → Frame × (CipherState × (List ℕ × Result ℕ)) → Session
  after_send f st (f', (cs, (w, ok n))) = record st {
    sender = cs;
    wire = w;
    sent = st.sent ++ f ∷ [];
  }
  after_send f st (f', (cs, (w, err e))) = record st { sender = cs; wire = w }

  unfoldable pub send : Frame → Session → Session
  unfolding encrypt_frame_to_writer
  send f st = after_send f st (encrypt_frame_to_writer aead max_noise_nonce f st.wire st.sender)

  abbrev after_take : Session → Outcome (CipherState × (Result Frame × List ℕ)) → Outcome Session
  after_take st (returns (cs, (ok f, w))) =
      returns (record st { receiver = cs; wire = w; received = st.received ++ f ∷ [] })
  after_take st (returns (cs, (err e, w))) = returns (record st { receiver = cs; wire = w })
  after_take st panics = panics

  unfoldable pub take_frame : Session → Outcome Session
  unfolding decrypt_frame_from_reader
  take_frame st = after_take st (decrypt_frame_from_reader aead max_noise_nonce st.wire st.receiver)

  -- The sessions that sends and reads lead to, in any order. A frame is sent while the counter
  -- has two values left.
  pub data Reaches (cs : CipherState) : Session → Type 0 where
    begin : Reaches cs (start cs)
    sends :
        {st : Session} (f : Frame)
        → IsSendable f
        → st.sender.n + 1 < max_noise_nonce
        → Reaches cs st
        → Reaches cs (send f st)
    takes : {st st' : Session} → take_frame st ≡ returns st' → Reaches cs st → Reaches cs st'
