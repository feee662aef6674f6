-- ===== src/Noise/Transport/Session/InOrder.antt =====
-- In a session, what is under way and what has been received are what has been sent, in order.
use mathlib.Core.Path.{subst}
use stratumv.Prelude.{
  ℕ, ◌+◌, ◌^◌, ◌<◌, ◌≡◌, ◌⊎◌, inl, inr, refl, sym, ap, ◌∙◌, arith, List, [], ◌∷◌, ◌++◌, append-nil,
  append_assoc, length, length-append,
}
use stratumv.Binary.Outcome.{returned, Outcome, returns}
use stratumv.Frame.{Frame}
use stratumv.Noise.Aead.{Aead}
use stratumv.Noise.Cipher.{CipherState}
use stratumv.Noise.Cipher.Laws.{IsReady, advanced}
use stratumv.Noise.Transport.{written, encrypt_frame_to_writer}
use stratumv.Noise.Transport.Delivery.{
  IsSendable, ciphertext, length-ciphertext, encrypt_frame_lem, decrypt_frame_from_reader_lem,
}
use stratumv.Noise.Transport.Session.{
  Session, after_send, send, take_frame, Reaches, begin, sends, takes,
}

-- The bytes that frames take on the wire: two tags and a header beside each payload.
abbrev pub wire_size : List Frame → ℕ
wire_size [] = 0
wire_size (f ∷ fs) = f.message_length + 38 + wire_size fs

module _ (aead : Aead) (max_noise_nonce : ℕ) where
  -- The bytes on the wire are the ciphertexts of the frames, one state of the cipher after another.
  pub data InFlight : CipherState → List ℕ → List Frame → CipherState → Type 0 where
    nothing : {cs : CipherState} → InFlight cs [] [] cs
    next :
        {cs end : CipherState} {w : List ℕ} {f : Frame} {fs : List Frame}
        → cs.n + 1 < max_noise_nonce
        → IsSendable f
        → InFlight (advanced 2 cs) w fs end
        → InFlight cs (ciphertext aead max_noise_nonce cs f ++ w) (f ∷ fs) end

  abbrev pub IsKeyed : CipherState → Type 0
  IsKeyed cs = (0 < length cs.k) × (max_noise_nonce < 2 ^ 64)

  -- Nothing is under way, or a first frame is.
  pub first_under_way :
      {cs end : CipherState} {w : List ℕ} {fs : List Frame}
      → InFlight cs w fs end
      → ((w ≡ []) × (fs ≡ []))
        ⊎ ((f : Frame) × (v : List ℕ) × (gs : List Frame) × (w
              ≡ ciphertext aead max_noise_nonce cs f ++ v)
            × (fs ≡ f ∷ gs)
            × (cs.n + 1 < max_noise_nonce)
            × IsSendable f
            × InFlight (advanced 2 cs) v gs end)
  first_under_way nothing = inl (refl, refl)
  first_under_way (next {w = w} {f = f} {fs = fs} h s rest) = inr (f, w, fs, refl, refl, h, s, rest)

  on_wire :
      {cs end : CipherState} {w w' : List ℕ} {fs : List Frame}
      → w ≡ w'
      → InFlight cs w fs end
      → InFlight cs w' fs end
  on_wire {cs = cs} {end = end} {fs = fs} h flight = subst (λ w. InFlight cs w fs end) h flight

  pub one_more :
      {cs end : CipherState} {w : List ℕ} {fs : List Frame} (f : Frame)
      → end.n + 1 < max_noise_nonce
      → IsSendable f
      → InFlight cs w fs end
      → InFlight cs (w ++ ciphertext aead max_noise_nonce end f) (fs ++ f ∷ []) (advanced 2 end)
  one_more f h s nothing = on_wire (append-nil _) (next h s nothing)
  one_more f h s (next {w = w} h' s' rest) =
      on_wire (sym (append_assoc _ w (ciphertext aead max_noise_nonce _ f)))
        (next h' s' (one_more f h s rest))

  -- The frames under way are those that have been sent and not yet received.
  pub record IsInStep (pending : List Frame) (st : Session) : Type 0 where
    pub sender_keyed : IsKeyed st.sender
    pub receiver_keyed : IsKeyed st.receiver
    pub in_order : st.sent ≡ st.received ++ pending
    pub in_flight : InFlight st.receiver st.wire pending st.sender

  sent_state : Frame → Session → Session
  sent_state f st = record st {
    sender = advanced 2 st.sender;
    wire = st.wire ++ ciphertext aead max_noise_nonce st.sender f;
    sent = st.sent ++ f ∷ [];
  }

  send_ready :
      (f : Frame) (st : Session)
      → IsReady max_noise_nonce st.sender
      → st.sender.n + 1 < max_noise_nonce
      → IsSendable f
      → sent_state f st ≡ send aead max_noise_nonce f st
  unfolding send encrypt_frame_to_writer sent_state
  send_ready f st ready h s = sym (
      ap
        (λ out.
          after_send aead max_noise_nonce f st (out.0, written aead max_noise_nonce st.wire out.1))
        (encrypt_frame_lem aead max_noise_nonce st.sender f ready h s))

  send-IsInStep :
      (f : Frame) {pending : List Frame} {st : Session}
      → IsSendable f
      → st.sender.n + 1 < max_noise_nonce
      → IsInStep pending st
      → IsInStep (pending ++ f ∷ []) (send aead max_noise_nonce f st)
  unfolding sent_state
  send-IsInStep f {pending = pending} {st = st} s h step =
      subst (IsInStep (pending ++ f ∷ [])) (send_ready f st ready h s) (record {
        sender_keyed = step.sender_keyed;
        receiver_keyed = step.receiver_keyed;
        in_order =
            ap (λ fs. fs ++ f ∷ []) step.in_order ∙ append_assoc st.received pending (f ∷ []);
        in_flight = one_more f h s step.in_flight;
      })
    where
      ready : IsReady max_noise_nonce st.sender
      ready = record {
        keyed = step.sender_keyed.0;
        below = omega arith;
        end_fits = step.sender_keyed.1;
      }

  -- A read finds the first frame that is under way, or the end of the data.
  data Taken (st : Session) : List Frame → Outcome Session → Type 0 where
    found :
        {f : Frame} {fs : List Frame} {st' : Session}
        → st'.received ≡ st.received ++ f ∷ []
        → st'.sent ≡ st.sent
        → IsInStep fs st'
        → Taken st (f ∷ fs) (returns st')
    ended : IsInStep [] st → Taken st [] (returns st)

  take-Taken :
      {cs end : CipherState} {w : List ℕ} {fs : List Frame} (sent received : List Frame)
      → IsKeyed cs
      → IsKeyed end
      → sent ≡ received ++ fs
      → InFlight cs w fs end
      → (let st : Session = record {
        sender = end;
        wire = w;
        receiver = cs;
        sent = sent;
        received = received;
      } in
          Taken st fs (take_frame aead max_noise_nonce st))
  unfolding take_frame
  take-Taken {cs = cs} sent received k k' h nothing =
      ended (record { sender_keyed = k'; receiver_keyed = k; in_order = h; in_flight = nothing })
  take-Taken {cs = cs} sent received k k' h (next {w = w} {f = f} {fs = fs} more s rest) =
      rw (decrypt_frame_from_reader_lem aead max_noise_nonce cs f ready more s w) (
        found refl refl (record {
          sender_keyed = k';
          receiver_keyed = k;
          in_order = h ∙ sym (append_assoc received (f ∷ []) fs);
          in_flight = rest;
        }))
    where
      ready : IsReady max_noise_nonce cs
      ready = record { keyed = k.0; below = omega arith; end_fits = k.1 }

  pub length-InFlight :
      {cs end : CipherState} {w : List ℕ} {fs : List Frame}
      → InFlight cs w fs end
      → length w ≡ wire_size fs
  length-InFlight nothing = refl
  length-InFlight (next {cs = cs} {w = w} {f = f} h s rest) = omega (
    arith,
    length-append (ciphertext aead max_noise_nonce cs f) w,
    length-ciphertext aead max_noise_nonce cs f s.valid,
    length-InFlight rest,
  )

  taken_next :
      {st st' : Session} {pending : List Frame} {out : Outcome Session}
      → Taken st pending out
      → out ≡ returns st'
      → (fs : List Frame) × IsInStep fs st'
  taken_next (found {fs = fs} h h' step) e = (fs, subst (IsInStep fs) (returned e) step)
  taken_next (ended step) e = ([], subst (IsInStep []) (returned e) step)

  Reaches-IsInStep :
      {cs : CipherState} {st : Session}
      → IsKeyed cs
      → Reaches aead max_noise_nonce cs st
      → (pending : List Frame) × IsInStep pending st
  Reaches-IsInStep k begin =
      ([], record { sender_keyed = k; receiver_keyed = k; in_order = refl; in_flight = nothing })
  Reaches-IsInStep k (sends f s h before) =
      let (pending, step) = Reaches-IsInStep k before in
      (pending ++ f ∷ [], send-IsInStep f s h step)
  Reaches-IsInStep k (takes {st = st} e before) =
      let (pending, step) = Reaches-IsInStep k before in
      taken_next
        (take-Taken st.sent st.received step.receiver_keyed step.sender_keyed step.in_order
          step.in_flight)
        e

  next_taken :
      {st : Session} {pending : List Frame} {out : Outcome Session}
      → st.sent ≡ st.received ++ pending
      → Taken st pending out
      → (st' : Session) × (out ≡ returns st')
        × ((st.sent ≡ st.received × st' ≡ st)
            ⊎ ((f : Frame) × (fs : List Frame) × (st.sent ≡ st.received ++ f ∷ fs)
                × (st'.received ≡ st.received ++ f ∷ [])
                × (st'.sent ≡ st.sent)))
  next_taken h (found {f = f} {fs = fs} {st' = st'} received same step) =
      (st', refl, inr (f, fs, h, received, same))
  next_taken {st = st} h (ended step) = (st, refl, inl (h ∙ append-nil _, refl))

  module _ {cs : CipherState} {st : Session} (keyed : 0 < length cs.k)
      (fits : max_noise_nonce < 2 ^ 64) (reached : Reaches aead max_noise_nonce cs st) where
    -- Whatever the order in which frames of one chunk are sent and reads are made, the frames
    -- received are the first of those sent, in order, and the wire holds the bytes of the others.
    pub received_in_order :
        (pending : List Frame) × (st.sent ≡ st.received ++ pending)
        × (length st.wire ≡ wire_size pending)
    received_in_order =
        let (pending, step) = Reaches-IsInStep (keyed, fits) reached in
        (pending, step.in_order, length-InFlight step.in_flight)

    -- In a session of sends of frames of one chunk and of reads, in any order, a read returns with
    -- no panic: it takes the first frame that was sent and not yet received, or, where all were
    -- received, changes nothing.
    pub take_frame_next :
        (st' : Session) × (take_frame aead max_noise_nonce st ≡ returns st')
        × ((st.sent ≡ st.received × st' ≡ st)
            ⊎ ((f : Frame) × (fs : List Frame) × (st.sent ≡ st.received ++ f ∷ fs)
                × (st'.received ≡ st.received ++ f ∷ [])
                × (st'.sent ≡ st.sent)))
    take_frame_next =
        let (pending, step) = Reaches-IsInStep (keyed, fits) reached in
        next_taken step.in_order (
          take-Taken st.sent st.received step.receiver_keyed step.sender_keyed step.in_order
            step.in_flight)
