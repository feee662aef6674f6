-- ===== src/Examples/Meeting.antt =====
-- The logger of examples/logger connects to the server of examples/server.
use stratumv.Prelude.{
  ℕ, ◌^◌, ◌<◌, ◌≤◌, ◌≡◌, refl, sym, ap, ◌∙◌, arith, true, none, some, List, [], ◌∷◌, ◌++◌,
  append-nil, length, ◌==◌, if◌then◌else◌,
}
use stratumv.Binary.Failure.{ok}
use stratumv.Binary.Outcome.{returns}
use stratumv.Frame.{Frame, to_params}
use stratumv.Messages
use stratumv.MessageTypes.{message_setup_connection}
use stratumv.Noise.Aead.{Aead}
use stratumv.Noise.Cipher.{CipherState}
use stratumv.Noise.Cipher.Laws.{advanced}
use stratumv.Noise.Digest.{Sha256}
use stratumv.Noise.Secp256k1.{Secp256k1}
use stratumv.Noise.Proc.{Network}
use stratumv.Noise.Handshake.{HandshakeState, Ended}
use stratumv.Noise.Handshake.Transcript.{Parties}
use stratumv.Noise.Handshake.Completion.{IsComplete}
use stratumv.Noise.Transport.Delivery.{IsSendable, ciphertext}
use stratumv.Connection.{Sv2Conn, client_conn, server_conn}
use stratumv.Examples.{quits}
use stratumv.Examples.Server.{
  Serving, ends_with, send_frame, one_more, read_loop, first_read, connected, serve,
}
use stratumv.Examples.Logger.{
  setup_msg, open_chan_msg, setup_frame, open_chan_frame, open_channel, put, then_put,
}
use stratumv.Examples.Written.{setup_frame-Framed, open_chan_frame-Framed}
use stratumv.Examples.Streams.{HasRoom, HasRoom-next, wire_of, put_lem, read_first, read_loop_lem}

module _ (aead : Aead) (max_noise_nonce : ℕ) where
  -- What the logger writes when it has connected, and what the server makes of it.
  pub record FirstExchange (pool_host : List ℕ) (pool_port : ℕ) (address : List ℕ)
      (client_side : Sv2Conn) (serving : ℕ → List ℕ → Serving) : Type 0 where
    pub setup : Frame
    pub setup_kept :
        to_params Messages.setup_connection.codable setup
        ≡ returns (setup_msg pool_host pool_port, none)
    pub open_chan : Frame
    pub open_chan_kept :
        to_params Messages.open_extended_mining_channel.codable open_chan
        ≡ returns (open_chan_msg address, none)
    pub client_after : Sv2Conn
    pub wire : List ℕ
    pub written :
        open_channel aead max_noise_nonce pool_host pool_port address client_side
        ≡ returns (client_after, (wire, none))
    pub served :
        (fuel : ℕ)
        → 1 < fuel
        → serving fuel wire
          ≡ some (
              returns (record {
                frames = setup ∷ open_chan ∷ [];
                answer = some send_frame;
                exit = quits;
              }))

  -- The server reads a `SetupConnection` and then another frame.
  served_lem :
      (f g : Frame) (fuel : ℕ) (conn : Sv2Conn)
      → HasRoom max_noise_nonce 2 conn.recv
      → IsSendable f
      → IsSendable g
      → f.message_type ≡ message_setup_connection
      → 1 < fuel
      → connected aead max_noise_nonce fuel
          (wire_of aead max_noise_nonce conn.recv (f ∷ g ∷ []))
          (ok conn)
        ≡ some (returns (record { frames = f ∷ g ∷ []; answer = some send_frame; exit = quits }))
  served_lem f g fuel conn room sf sg is_setup h =
      let next : Sv2Conn = record conn { recv = advanced 2 conn.recv } in
      ap (first_read aead max_noise_nonce fuel) (
        read_first aead max_noise_nonce f 1 (wire_of aead max_noise_nonce next.recv (g ∷ [])) conn
          room sf)
      ∙ ap
          (λ b.
            if b
            then one_more f (
                read_loop aead max_noise_nonce fuel (some send_frame)
                  (wire_of aead max_noise_nonce next.recv (g ∷ [])) next)
            else one_more f (ends_with none quits))
          setup_seen
      ∙ ap (one_more f) (
          read_loop_lem aead max_noise_nonce (g ∷ []) fuel (some send_frame) next (sg, tt)
            (HasRoom-next max_noise_nonce 1 conn.recv room) h)
    where
      setup_seen : (f.message_type == message_setup_connection) ≡ true
      setup_seen = ground (arith, is_setup)

  -- The logger's two writes.
  written_lem :
      (pool_host : List ℕ) (pool_port : ℕ) (address : List ℕ) (conn : Sv2Conn) {f g : Frame}
      → HasRoom max_noise_nonce 2 conn.send
      → IsSendable f
      → IsSendable g
      → setup_frame pool_host pool_port ≡ ok f
      → open_chan_frame address ≡ ok g
      → (conn' : Sv2Conn) × (open_channel aead max_noise_nonce pool_host pool_port address conn
          ≡ returns (conn', (wire_of aead max_noise_nonce conn.send (f ∷ g ∷ []), none)))
  unfolding open_channel
  written_lem pool_host pool_port address conn {f} {g} room sf sg ef eg =
      let next : Sv2Conn = record conn { send = advanced 2 conn.send } in
      let sent : List ℕ = ciphertext aead max_noise_nonce conn.send f in
      (
        _,
        ap
              (λ r.
                then_put aead max_noise_nonce (put aead max_noise_nonce r [] conn)
                  (open_chan_frame address))
              ef
            ∙ ap (λ out. then_put aead max_noise_nonce out (open_chan_frame address))
                (put_lem aead max_noise_nonce f [] conn (relaxed conn.send room) sf)
            ∙ ap (λ r. put aead max_noise_nonce r sent next) eg
            ∙ put_lem aead max_noise_nonce g sent next
                (HasRoom-next max_noise_nonce 1 conn.send room) sg
            ∙ ap
                (λ w.
                  returns
                    (record conn { send = advanced 2 (advanced 2 conn.send) }, (sent ++ w, none)))
                (sym (append-nil (ciphertext aead max_noise_nonce next.send g))),
      )
    where
      relaxed : (cs : CipherState) → HasRoom max_noise_nonce 2 cs → HasRoom max_noise_nonce 1 cs
      relaxed cs r = record { keyed = r.keyed; room = omega (arith, r.room); end_fits = r.end_fits }

module _ (sha : Sha256) (aead : Aead) (max_noise_nonce : ℕ) (curve : Secp256k1)
    (p : Parties sha aead max_noise_nonce curve) {initiator responder : HandshakeState}
    {net : Network Ended Ended} where
  -- Where a handshake is complete, the logger and the server get an `Sv2Conn` each. If the host,
  -- the port and the address fit their fields, and there are four nonces, the logger writes its
  -- `SetupConnection` and its `OpenExtendedMiningChannel` with no error; from the bytes written the
  -- server reads exactly the two frames, from which the messages are taken again, and puts its
  -- answer together behind the first; and when the connection ends there, the server's goroutine
  -- returns. Any fuel from two rounds on is enough.
  pub logger_meets_server :
      (c : IsComplete sha aead max_noise_nonce curve p initiator responder net) (pool_host : List ℕ)
      (pool_port : ℕ) (address : List ℕ)
      → length pool_host < 2 ^ 8
      → pool_port < 2 ^ 16
      → length address ≤ 244
      → 4 ≤ max_noise_nonce
      → max_noise_nonce < 2 ^ 64
      → (client_side : Sv2Conn) × (client_conn (c.initiator_state, ok c.keys) ≡ ok client_side)
        × FirstExchange aead max_noise_nonce pool_host pool_port address client_side
            (λ fuel w. serve aead max_noise_nonce fuel (c.responder_state, ok c.keys) w)
  unfolding client_conn server_conn serve
  logger_meets_server c pool_host pool_port address host_fits port_fits address_fits four end_fits =
      let setup = setup_frame-Framed pool_host pool_port host_fits port_fits in
      let open_chan = open_chan_frame-Framed address address_fits in
      let (client_after, written) =
        written_lem aead max_noise_nonce pool_host pool_port address
          (record { send = c.keys.0; recv = c.keys.1 }) room setup.sendable open_chan.sendable
          setup.is_made open_chan.is_made in
      (
        _,
        refl,
        record {
          setup = setup.frame;
          setup_kept = setup.message_kept;
          open_chan = open_chan.frame;
          open_chan_kept = open_chan.message_kept;
          client_after = client_after;
          wire = _;
          written = written;
          served = λ fuel h.
              served_lem aead max_noise_nonce setup.frame open_chan.frame fuel
                (record { send = c.keys.1; recv = c.keys.0 }) room setup.sendable open_chan.sendable
                setup.type_kept h;
        },
      )
    where
      room : HasRoom max_noise_nonce 2 c.keys.0
      room = record {
        keyed = omega (arith, c.fresh.first_key);
        room = omega (arith, c.fresh.first_counter, four);
        end_fits = end_fits;
      }
