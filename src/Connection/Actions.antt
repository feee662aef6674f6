-- ===== src/Connection/Actions.antt =====
-- One write or read at an end of a connection, and the frames that are under way to and from it.
use stratumv.Prelude.{
  ℕ, suc, ◌+◌, ◌*◌, ◌<◌, ◌≤◌, ◌≡◌, inl, inr, refl, sym, ap, ◌∙◌, arith, List, [], ◌∷◌, ◌++◌,
  append-nil, append_assoc, length, length-append,
}
use stratumv.Binary.Failure.{ok}
use stratumv.Binary.Outcome.{Outcome, returns}
use stratumv.Frame.{Frame}
use stratumv.Frame.RoundTrip.{encode_plain}
use stratumv.Noise.Aead.{Aead}
use stratumv.Noise.Cipher.Laws.{IsReady, advanced}
use stratumv.Noise.Transport.{written, encrypt_frame_to_writer}
use stratumv.Noise.Transport.Delivery.{
  IsSendable, ciphertext, length-ciphertext, encrypt_frame_lem, decrypt_frame_from_reader_lem,
}
use stratumv.Noise.Transport.Session.InOrder.{InFlight, IsKeyed, one_more, first_under_way}
use stratumv.Connection.{
  Sv2Conn, frame_written, frame_read, write_frame, read_frame, End, Action, write, read,
  read_arrived, after_write, after_read, act,
}

abbrev pub writes_of : Action → List Frame
writes_of (write f) = f ∷ []
writes_of read = []

-- A frame that is written has no TLV fields and a payload of one chunk.
abbrev pub IsPlain : Action → Type 0
IsPlain (write f) = IsSendable f
IsPlain read = Unit

module _ (aead : Aead) (max_noise_nonce : ℕ) where
  pub write_frame_lem :
      (f : Frame) (w : List ℕ) (conn : Sv2Conn)
      → IsReady max_noise_nonce conn.send
      → conn.send.n + 1 < max_noise_nonce
      → IsSendable f
      → write_frame aead max_noise_nonce f w conn ≡ (
        f,
        (
          record conn { send = advanced 2 conn.send },
          (
            w ++ ciphertext aead max_noise_nonce conn.send f,
            ok (length (ciphertext aead max_noise_nonce conn.send f)),
          ),
        ),
      )
  unfolding write_frame encrypt_frame_to_writer
  write_frame_lem f w conn ready more s =
      ap
        (λ encoded.
          frame_written aead max_noise_nonce conn
            (encrypt_frame_to_writer aead max_noise_nonce encoded.0 w conn.send))
        (encode_plain f s.valid s.plain)
      ∙ ap
          (λ out.
            frame_written aead max_noise_nonce conn (out.0, written aead max_noise_nonce w out.1))
          (encrypt_frame_lem aead max_noise_nonce conn.send f ready more s)

  pub read_frame_lem :
      (f : Frame) (w : List ℕ) (conn : Sv2Conn)
      → IsReady max_noise_nonce conn.recv
      → conn.recv.n + 1 < max_noise_nonce
      → IsSendable f
      → read_frame aead max_noise_nonce (ciphertext aead max_noise_nonce conn.recv f ++ w) conn
        ≡ returns (record conn { recv = advanced 2 conn.recv }, (ok f, w))
  unfolding read_frame
  read_frame_lem f w conn ready more s =
      ap (frame_read aead max_noise_nonce conn)
        (decrypt_frame_from_reader_lem aead max_noise_nonce conn.recv f ready more s w)
      ∙ ap (λ encoded. returns (record conn { recv = advanced 2 conn.recv }, (ok encoded.0, w)))
          (encode_plain f s.valid s.plain)

  read_arrived_some :
      (self other : End) (w : List ℕ)
      → 0 < length w
      → read_arrived aead max_noise_nonce self other w
        ≡ after_read aead max_noise_nonce self other (read_frame aead max_noise_nonce w self.conn)
  read_arrived_some self other [] h = absurd (omega arith)
  read_arrived_some self other (b ∷ bs) h = refl

  -- From end `a` to end `b` the frames of `pending` are under way, and `a` can write `budget` more.
  pub record Link (budget : ℕ) (a b : End) (pending : List Frame) : Type 0 where
    pub sender_keyed : IsKeyed aead max_noise_nonce a.conn.send
    pub receiver_keyed : IsKeyed aead max_noise_nonce b.conn.recv
    pub in_order : a.sent ≡ b.received ++ pending
    pub in_flight : InFlight aead max_noise_nonce b.conn.recv b.incoming pending a.conn.send
    pub room : a.conn.send.n + 2 * budget ≤ max_noise_nonce

  -- What an action leads to: the other end is told nothing but what arrives.
  pub record Acted (a : Action) (m n : ℕ) (self other : End) (result : Outcome (End × End))
      : Type 0 where
    pub self' : End
    pub other' : End
    pub happens : result ≡ returns (self', other')
    pub to_other : List Frame
    pub from_other : List Frame
    pub link_to : Link m self' other' to_other
    pub link_from : Link n other' self' from_other
    pub sends : self'.sent ≡ self.sent ++ writes_of a
    pub other_sends : other'.sent ≡ other.sent

  act-write :
      (f : Frame) (m n : ℕ) {self other : End} {p q : List Frame}
      → IsSendable f
      → Link (suc m) self other p
      → Link n other self q
      → Acted (write f) m n self other (act aead max_noise_nonce (write f) self other)
  unfolding act
  act-write f m n {self = self} {other} {p} {q} s to from = record {
    self' = _;
    other' = _;
    happens =
        ap (λ out. returns (after_write aead max_noise_nonce f self other out))
          (write_frame_lem f other.incoming self.conn ready more s);
    to_other = p ++ f ∷ [];
    from_other = q;
    link_to = record {
      sender_keyed = to.sender_keyed;
      receiver_keyed = to.receiver_keyed;
      in_order = ap (λ fs. fs ++ f ∷ []) to.in_order ∙ append_assoc other.received p (f ∷ []);
      in_flight = one_more aead max_noise_nonce f more s to.in_flight;
      room = omega (arith, to.room);
    };
    link_from = record {
      sender_keyed = from.sender_keyed;
      receiver_keyed = from.receiver_keyed;
      in_order = from.in_order;
      in_flight = from.in_flight;
      room = from.room;
    };
    sends = refl;
    other_sends = refl;
  }
    where
      more : self.conn.send.n + 1 < max_noise_nonce
      more = omega (arith, to.room)

      ready : IsReady max_noise_nonce self.conn.send
      ready = record {
        keyed = to.sender_keyed.0;
        below = omega (arith, more);
        end_fits = to.sender_keyed.1;
      }

  relaxed : {m n : ℕ} {a b : End} {p : List Frame} → m ≤ n → Link n a b p → Link m a b p
  relaxed h l = record {
    sender_keyed = l.sender_keyed;
    receiver_keyed = l.receiver_keyed;
    in_order = l.in_order;
    in_flight = l.in_flight;
    room = omega (arith, l.room);
  }

  act-read :
      (m n : ℕ) {self other : End} {p q : List Frame}
      → Link m self other p
      → Link n other self q
      → Acted read m n self other (act aead max_noise_nonce read self other)
  unfolding act
  act-read m n {self = self} {other} {p} {q} to from =
      elim (first_under_way aead max_noise_nonce from.in_flight) [
        | inl (nothing_arrived, e) ↦ record {
          self' = self;
          other' = other;
          happens = ap (read_arrived aead max_noise_nonce self other) nothing_arrived;
          to_other = p;
          from_other = q;
          link_to = to;
          link_from = from;
          sends = sym (append-nil self.sent);
          other_sends = refl;
        }
        | inr (f, v, gs, arrived, e, more, s, rest) ↦ some_arrived f v gs arrived e more s rest
      ]
    where
      some_arrived :
          (f : Frame) (v : List ℕ) (gs : List Frame)
          → self.incoming ≡ ciphertext aead max_noise_nonce self.conn.recv f ++ v
          → q ≡ f ∷ gs
          → self.conn.recv.n + 1 < max_noise_nonce
          → IsSendable f
          → InFlight aead max_noise_nonce (advanced 2 self.conn.recv) v gs other.conn.send
          → Acted read m n self other (read_arrived aead max_noise_nonce self other self.incoming)
      some_arrived f v gs arrived e more s rest = record {
        self' = _;
        other' = other;
        happens =
            ap (read_arrived aead max_noise_nonce self other) arrived
            ∙ read_arrived_some self other (ciphertext aead max_noise_nonce self.conn.recv f ++ v) (
                omega (
                  arith,
                  length-append (ciphertext aead max_noise_nonce self.conn.recv f) v,
                  length-ciphertext aead max_noise_nonce self.conn.recv f s.valid,
                ))
            ∙ ap (after_read aead max_noise_nonce self other) (
                read_frame_lem f v self.conn
                  (record {
                    keyed = from.receiver_keyed.0;
                    below = omega (arith, more);
                    end_fits = from.receiver_keyed.1;
                  })
                  more s);
        to_other = p;
        from_other = gs;
        link_to = record {
          sender_keyed = to.sender_keyed;
          receiver_keyed = to.receiver_keyed;
          in_order = to.in_order;
          in_flight = to.in_flight;
          room = to.room;
        };
        link_from = record {
          sender_keyed = from.sender_keyed;
          receiver_keyed = from.receiver_keyed;
          in_order =
              from.in_order
              ∙ ap (λ fs. self.received ++ fs) e
              ∙ sym (append_assoc self.received (f ∷ []) gs);
          in_flight = rest;
          room = from.room;
        };
        sends = sym (append-nil self.sent);
        other_sends = refl;
      }

  pub act_lem :
      (a : Action) (n : ℕ) {self other : End} {p q : List Frame}
      → IsPlain a
      → Link (suc n) self other p
      → Link (suc n) other self q
      → Acted a n n self other (act aead max_noise_nonce a self other)
  act_lem (write f) n s to from = act-write f n n s to (relaxed (omega arith) from)
  act_lem read n s to from = act-read n n (relaxed (omega arith) to) (relaxed (omega arith) from)
