-- ===== src/Noise/Handshake/Completion.antt =====
-- The handshake between the two sides, with their steps in any order.
use stratumv.Prelude.{ℕ, ◌≡◌, ◌<◌, ◌^◌, refl, sym, ap, ◌∙◌, arith, some, List, [], ◌∷◌, length}
use stratumv.Binary.Failure.{Result, ok}
use stratumv.Noise.Aead.{Aead}
use stratumv.Noise.Cipher.{CipherState}
use stratumv.Noise.Digest.{Sha256, length-hkdf}
use stratumv.Noise.Secp256k1.{Secp256k1}
use stratumv.Noise.Proc.{Proc, done, write, from_outcome, Network, Side, lhs, rhs, run}
use stratumv.Noise.Handshake.{
  HandshakeState, begin, transport_keys, send_part_1, part_2_read, part_2_sent, part_1_read,
  receive_part_2, Ended, perform_handshake_initiator, perform_handshake_responder,
}
use stratumv.Noise.Handshake.Transcript.{Parties, after_part_2, part_2, part_2_same, length-part_2}
use stratumv.Noise.Handshake.Agreement.{
  learned, send_part_1_lem, learned_fields, transport_keys-learned, send_part_2_lem,
  receive_part_2_lem,
}
use stratumv.Noise.Handshake.Schedules
use stratumv.Noise.Handshake.Schedules.{Embeds, after, after-ended, begun, ended, run-at, left_done}

-- The two cipher states of a side have keys of 32 bytes and fresh counters.
pub record AreFresh (keys : CipherState × CipherState) : Type 0 where
  pub first_key : length keys.0.k ≡ 32
  pub first_counter : keys.0.n ≡ 0
  pub second_key : length keys.1.k ≡ 32
  pub second_counter : keys.1.n ≡ 0

transport_keys-AreFresh : (sha : Sha256) (hs : HandshakeState) → AreFresh (transport_keys sha hs)
unfolding transport_keys
transport_keys-AreFresh sha hs = record {
  first_key = (length-hkdf sha hs.ck []).0;
  first_counter = refl;
  second_key = (length-hkdf sha hs.ck []).1;
  second_counter = refl;
}

module _ (sha : Sha256) (aead : Aead) (max_noise_nonce : ℕ) (curve : Secp256k1)
    (p : Parties sha aead max_noise_nonce curve) (initiator responder : HandshakeState) where
  -- The two sides before the first step.
  abbrev pub meeting : Network Ended Ended
  meeting = record {
    left =
        perform_handshake_initiator sha aead max_noise_nonce curve p.initiator_ephemeral initiator;
    to_left = [];
    right =
        perform_handshake_responder sha aead max_noise_nonce curve p.cert p.static_keys
          p.responder_ephemeral responder;
    to_right = [];
  }

  -- What both sides hold in the end.
  pub record IsComplete (net : Network Ended Ended) : Type 0 where
    pub initiator_state : HandshakeState
    pub responder_state : HandshakeState
    pub keys : CipherState × CipherState
    pub ended_so : net ≡ record {
      left = done (initiator_state, ok keys);
      to_left = [];
      right = done (responder_state, ok keys);
      to_right = [];
    }
    pub fresh : AreFresh keys
    pub cert_learned : initiator_state.cert ≡ some p.cert
    pub static_learned : initiator_state.server_static ≡ p.static_keys.public_ellswift

  module _ (positive : 0 < max_noise_nonce) (fits : max_noise_nonce < 2 ^ 64) where
    answer : List ℕ
    answer = part_2 sha aead max_noise_nonce curve p responder

    initiator_end : Ended
    initiator_end = (
      learned sha aead max_noise_nonce curve p positive fits initiator,
      ok (transport_keys sha (learned sha aead max_noise_nonce curve p positive fits initiator)),
    )

    responder_end : Ended
    responder_end = (
      after_part_2 sha aead max_noise_nonce curve p responder,
      ok (transport_keys sha (after_part_2 sha aead max_noise_nonce curve p responder)),
    )

    ask : Result (List ℕ) → Proc Ended
    ask =
        part_2_read sha aead max_noise_nonce curve p.initiator_ephemeral
          (send_part_1 sha aead max_noise_nonce curve p.initiator_ephemeral initiator)

    reply : Result (List ℕ) → Proc Ended
    reply =
        part_1_read sha aead max_noise_nonce curve p.cert p.static_keys p.responder_ephemeral
          (begin sha responder)

    replies : reply (ok p.initiator_ephemeral.public_ellswift) ≡ write answer (done responder_end)
    unfolding reply answer responder_end
    replies =
        ap part_2_sent (send_part_2_lem sha aead max_noise_nonce curve p positive fits responder)

    ends : ask (ok answer) ≡ done initiator_end
    unfolding ask answer initiator_end
    ends = ap from_outcome (
        ap
          (λ bs.
            receive_part_2 sha aead max_noise_nonce curve p.initiator_ephemeral bs
              (send_part_1 sha aead max_noise_nonce curve p.initiator_ephemeral initiator))
          (part_2_same sha aead max_noise_nonce curve p responder initiator)
        ∙ ap
            (receive_part_2 sha aead max_noise_nonce curve p.initiator_ephemeral
              (part_2 sha aead max_noise_nonce curve p initiator))
            (send_part_1_lem sha aead max_noise_nonce curve p positive fits initiator)
        ∙ receive_part_2_lem sha aead max_noise_nonce curve p positive fits initiator)

    run-meeting :
        (sides : List Side)
        → run sides meeting
          ≡ Schedules.at p.initiator_ephemeral.public_ellswift answer 64 234 initiator_end
              responder_end ask reply
              (after sides begun)
    unfolding ask reply perform_handshake_initiator perform_handshake_responder
    run-meeting sides =
        run-at p.initiator_ephemeral.public_ellswift answer 64 234 initiator_end responder_end ask
          reply (omega arith) (omega arith) (curve.length-Encodes p.initiator_fits.encodes)
          answer_size replies ends sides begun
      where
        answer_size : length answer ≡ 234
        answer_size = unfold answer in length-part_2 sha aead max_noise_nonce curve p responder

    both_done : CipherState × CipherState → Network Ended Ended
    both_done keys = record {
      left = done initiator_end;
      to_left = [];
      right = done (after_part_2 sha aead max_noise_nonce curve p responder, ok keys);
      to_right = [];
    }

    complete :
        (net : Network Ended Ended)
        → net
          ≡ Schedules.at p.initiator_ephemeral.public_ellswift answer 64 234 initiator_end
              responder_end ask reply ended
        → IsComplete net
    unfolding initiator_end responder_end both_done
    complete net h = record {
      initiator_state = initiator_end.0;
      responder_state = responder_end.0;
      keys = transport_keys sha (learned sha aead max_noise_nonce curve p positive fits initiator);
      ended_so =
          h
          ∙ ap both_done (
              sym (
                transport_keys-learned sha aead max_noise_nonce curve p positive fits initiator
                  responder));
      fresh = transport_keys-AreFresh sha _;
      cert_learned = (learned_fields sha aead max_noise_nonce curve p positive fits initiator).0;
      static_learned = (learned_fields sha aead max_noise_nonce curve p positive fits initiator).1;
    }

    -- Whatever the order of the steps of the two sides, and however many more are made, once the
    -- initiator, the responder twice and the initiator have made a step, in this order, both sides
    -- have ended with no error and no panic: with the same two fresh cipher states of 32-byte keys,
    -- the first for the initiator's messages and the second for the responder's, and nothing left
    -- to read; the initiator holds the responder's certificate and static key.
    pub handshake_completes :
        (sides : List Side)
        → Embeds (lhs ∷ rhs ∷ rhs ∷ lhs ∷ []) sides
        → IsComplete (run sides meeting)
    handshake_completes sides e = complete _ (
        run-meeting sides
        ∙ ap
            (Schedules.at p.initiator_ephemeral.public_ellswift answer 64 234 initiator_end
              responder_end ask reply)
            (after-ended sides begun e))

    -- In no order of the steps does the initiator end without the responder, or the two with
    -- different cipher states: where the initiator has ended, the handshake is complete.
    pub handshake_agrees :
        (sides : List Side) (end : Ended)
        → (run sides meeting).left ≡ done end
        → IsComplete (run sides meeting)
    handshake_agrees sides end h = complete _ (
        run-meeting sides
        ∙ left_done p.initiator_ephemeral.public_ellswift answer 64 234 initiator_end responder_end
            ask reply (after sides begun) (sym (ap (λ net. net.left) (run-meeting sides)) ∙ h))
