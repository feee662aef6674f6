-- ===== src/Connection/Delivery.antt =====
-- What is written at one end of a connection after the handshake is read at the other, in both
-- directions and in any order of the steps.
use stratumv.Prelude.{
  ℕ, ◌*◌, ◌^◌, ◌<◌, ◌≤◌, ◌≡◌, refl, sym, ap, ◌∙◌, arith, List, [], ◌∷◌, ◌++◌, append-nil,
  append_assoc, length, All,
}
use stratumv.Binary.Failure.{ok}
use stratumv.Binary.Outcome.{Outcome, returns}
use stratumv.Frame.{Frame}
use stratumv.Noise.Aead.{Aead}
use stratumv.Noise.Cipher.{CipherState}
use stratumv.Noise.Digest.{Sha256}
use stratumv.Noise.Secp256k1.{Secp256k1}
use stratumv.Noise.Proc.{Network}
use stratumv.Noise.Handshake.{HandshakeState, Ended}
use stratumv.Noise.Handshake.Transcript.{Parties}
use stratumv.Noise.Handshake.Completion.{AreFresh, IsComplete}
use stratumv.Noise.Transport.Session.InOrder.{nothing, length-InFlight, wire_size}
use stratumv.Connection.{
  Sv2Conn, client_conn, server_conn, End, opened, Step, client, server, step, swapped, then_steps,
  run_steps,
}
use stratumv.Connection.Actions.{writes_of, IsPlain, Link, act_lem}

abbrev pub client_writes : List Step → List Frame
client_writes [] = []
client_writes (client a ∷ steps) = writes_of a ++ client_writes steps
client_writes (server a ∷ steps) = client_writes steps

abbrev pub server_writes : List Step → List Frame
server_writes [] = []
server_writes (client a ∷ steps) = server_writes steps
server_writes (server a ∷ steps) = writes_of a ++ server_writes steps

abbrev pub IsPlainStep : Step → Type 0
IsPlainStep (client a) = IsPlain a
IsPlainStep (server a) = IsPlain a

module _ (aead : Aead) (max_noise_nonce : ℕ) where
  -- Both directions of a connection after some steps.
  record Ran (c_writes s_writes : List Frame) (c s : End) (result : Outcome (End × End))
      : Type 0 where
    pub c' : End
    pub s' : End
    pub happens : result ≡ returns (c', s')
    pub to_server : List Frame
    pub to_client : List Frame
    pub up : Link aead max_noise_nonce 0 c' s' to_server
    pub down : Link aead max_noise_nonce 0 s' c' to_client
    pub client_sends : c'.sent ≡ c.sent ++ c_writes
    pub server_sends : s'.sent ≡ s.sent ++ s_writes

  run_lem :
      (steps : List Step) {c s : End} {p q : List Frame}
      → All IsPlainStep steps
      → Link aead max_noise_nonce (length steps) c s p
      → Link aead max_noise_nonce (length steps) s c q
      → Ran
          (client_writes steps)
          (server_writes steps)
          c
          s
          (run_steps aead max_noise_nonce steps (c, s))
  unfolding run_steps step
  run_lem [] {c = c} {s} {p} {q} all up down = record {
    c' = c;
    s' = s;
    happens = refl;
    to_server = p;
    to_client = q;
    up = up;
    down = down;
    client_sends = sym (append-nil c.sent);
    server_sends = sym (append-nil s.sent);
  }
  run_lem (client a ∷ steps) {c = c} {s} all up down =
      let acted = act_lem aead max_noise_nonce a (length steps) all.0 up down in
      let ran = run_lem steps all.1 acted.link_to acted.link_from in
      record {
        c' = ran.c';
        s' = ran.s';
        happens =
            ap (λ out. then_steps aead max_noise_nonce out (run_steps aead max_noise_nonce steps))
              acted.happens
            ∙ ran.happens;
        to_server = ran.to_server;
        to_client = ran.to_client;
        up = ran.up;
        down = ran.down;
        client_sends =
            ran.client_sends
            ∙ ap (λ fs. fs ++ client_writes steps) acted.sends
            ∙ append_assoc c.sent (writes_of a) (client_writes steps);
        server_sends = ran.server_sends ∙ ap (λ fs. fs ++ server_writes steps) acted.other_sends;
      }
  run_lem (server a ∷ steps) {c = c} {s} all up down =
      let acted = act_lem aead max_noise_nonce a (length steps) all.0 down up in
      let ran = run_lem steps all.1 acted.link_from acted.link_to in
      record {
        c' = ran.c';
        s' = ran.s';
        happens =
            ap
              (λ out.
                then_steps aead max_noise_nonce (swapped aead max_noise_nonce out)
                  (run_steps aead max_noise_nonce steps))
              acted.happens
            ∙ ran.happens;
        to_server = ran.to_server;
        to_client = ran.to_client;
        up = ran.up;
        down = ran.down;
        client_sends = ran.client_sends ∙ ap (λ fs. fs ++ client_writes steps) acted.other_sends;
        server_sends =
            ran.server_sends
            ∙ ap (λ fs. fs ++ server_writes steps) acted.sends
            ∙ append_assoc s.sent (writes_of a) (server_writes steps);
      }

  abbrev client_end : CipherState × CipherState → End
  client_end keys = opened (record { send = keys.0; recv = keys.1 })

  abbrev server_end : CipherState × CipherState → End
  server_end keys = opened (record { send = keys.1; recv = keys.0 })

  begun :
      (steps : List Step) (keys : CipherState × CipherState)
      → AreFresh keys
      → All IsPlainStep steps
      → 2 * length steps ≤ max_noise_nonce
      → max_noise_nonce < 2 ^ 64
      → Ran
          (client_writes steps)
          (server_writes steps)
          (client_end keys)
          (server_end keys)
          (run_steps aead max_noise_nonce steps (client_end keys, server_end keys))
  begun steps keys fresh plain few fits =
      run_lem steps plain
        (record {
          sender_keyed = (first_keyed, fits);
          receiver_keyed = (first_keyed, fits);
          in_order = refl;
          in_flight = nothing;
          room = omega (arith, few, fresh.first_counter);
        })
        (record {
          sender_keyed = (second_keyed, fits);
          receiver_keyed = (second_keyed, fits);
          in_order = refl;
          in_flight = nothing;
          room = omega (arith, few, fresh.second_counter);
        })
    where
      first_keyed : 0 < length keys.0.k
      first_keyed = omega (arith, fresh.first_key)

      second_keyed : 0 < length keys.1.k
      second_keyed = omega (arith, fresh.second_key)

-- End `a` has written the frames `written`. End `b` has read the first of them, in order, and the
-- bytes that have arrived there are those of the others.
pub record IsReadInOrder (a b : End) (written : List Frame) : Type 0 where
  pub all_sent : a.sent ≡ written
  pub under_way : List Frame
  pub in_order : written ≡ b.received ++ under_way
  pub all_arrived : length b.incoming ≡ wire_size under_way

module _ (sha : Sha256) (aead : Aead) (max_noise_nonce : ℕ) (curve : Secp256k1)
    (p : Parties sha aead max_noise_nonce curve) {initiator responder : HandshakeState}
    {net : Network Ended Ended} where
  -- Where a handshake is complete, both sides get an `Sv2Conn`. If the two ends then write frames
  -- with no TLV fields and a payload of one chunk, and read, in any order of at most half as many
  -- steps as there are nonces, no step panics, all writes succeed, and each end has read the first
  -- frames that the other wrote, in order, with the bytes of the others still to be read.
  pub frames_delivered :
      (c : IsComplete sha aead max_noise_nonce curve p initiator responder net) (steps : List Step)
      → All IsPlainStep steps
      → 2 * length steps ≤ max_noise_nonce
      → max_noise_nonce < 2 ^ 64
      → (client_side : Sv2Conn) × (server_side : Sv2Conn) × (client_conn
            (c.initiator_state, ok c.keys)
          ≡ ok client_side)
        × (server_conn (c.responder_state, ok c.keys) ≡ ok server_side)
        × (ends : End × End) × (run_steps aead max_noise_nonce steps
              (opened client_side, opened server_side)
            ≡ returns ends)
        × IsReadInOrder ends.0 ends.1 (client_writes steps)
        × IsReadInOrder ends.1 ends.0 (server_writes steps)
  unfolding client_conn server_conn
  frames_delivered c steps plain few fits =
      let ran = begun aead max_noise_nonce steps c.keys c.fresh plain few fits in
      (
        _,
        _,
        refl,
        refl,
        (ran.c', ran.s'),
        ran.happens,
        record {
          all_sent = ran.client_sends;
          under_way = ran.to_server;
          in_order = sym ran.client_sends ∙ ran.up.in_order;
          all_arrived = length-InFlight aead max_noise_nonce ran.up.in_flight;
        },
        record {
          all_sent = ran.server_sends;
          under_way = ran.to_client;
          in_order = sym ran.server_sends ∙ ran.down.in_order;
          all_arrived = length-InFlight aead max_noise_nonce ran.down.in_flight;
        },
      )
