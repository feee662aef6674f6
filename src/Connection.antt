-- ===== src/Connection.antt =====
-- `Sv2Conn` of examples/shared/shared.go, and how examples/logger/logger.go and
-- examples/server/server.go make one from a handshake. What is logged is left out, and so are the
-- methods that hand a call on to net.Conn.
pub mod Actions
pub mod Delivery
pub mod Messaging
use stratumv.Prelude.{ℕ, List, [], ◌∷◌, ◌++◌, Option}
use stratumv.Binary.Failure.{Failure, Result, ok, err}
use stratumv.Binary.Outcome.{Outcome, returns, panics}
use stratumv.Frame
use stratumv.Frame.{Frame}
use stratumv.Noise.Aead.{Aead}
use stratumv.Noise.Cipher.{CipherState}
use stratumv.Noise.Transport.{encrypt_frame_to_writer, decrypt_frame_from_reader}
use stratumv.Noise.Handshake.{Ended}

-- `NetConn` is the bytes on the two wires, which the methods take and return.
pub record Sv2Conn : Type 0 where
  pub send : CipherState
  pub recv : CipherState

-- `PerformHandshakeInitiator` returns the state to send with first, `PerformHandshakeResponder` the
-- state to receive with.
unfoldable pub client_conn : Ended → Result Sv2Conn
client_conn (hs, ok (send, recv)) = ok (record { send = send; recv = recv })
client_conn (hs, err e) = err e

unfoldable pub server_conn : Ended → Result Sv2Conn
server_conn (hs, ok (recv, send)) = ok (record { send = send; recv = recv })
server_conn (hs, err e) = err e

module _ (aead : Aead) (max_noise_nonce : ℕ) where
  abbrev pub frame_written :
      Sv2Conn
      → Frame × (CipherState × (List ℕ × Result ℕ))
      → Frame × (Sv2Conn × (List ℕ × Result ℕ))
  frame_written conn (frame, (cs, sent)) = (frame, (record conn { send = cs }, sent))

  -- The frame is encoded for the log first, which leaves the TLV fields in its payload; then the
  -- frame that this leaves is encrypted behind the bytes `w`, which are on the wire already.
  unfoldable pub write_frame : Frame → List ℕ → Sv2Conn → Frame × (Sv2Conn × (List ℕ × Result ℕ))
  unfolding encrypt_frame_to_writer Frame.encode
  write_frame frame w conn =
      frame_written conn
        (encrypt_frame_to_writer aead max_noise_nonce (Frame.encode frame).0 w conn.send)

  -- The frame that was read is encoded for the log too.
  abbrev pub frame_read :
      Sv2Conn
      → Outcome (CipherState × (Result Frame × List ℕ))
      → Outcome (Sv2Conn × (Result Frame × List ℕ))
  frame_read conn (returns (cs, (ok frame, w))) =
      returns (record conn { recv = cs }, (ok (Frame.encode frame).0, w))
  frame_read conn (returns (cs, (err e, w))) = returns (record conn { recv = cs }, (err e, w))
  frame_read conn panics = panics

  unfoldable pub read_frame : List ℕ → Sv2Conn → Outcome (Sv2Conn × (Result Frame × List ℕ))
  unfolding decrypt_frame_from_reader Frame.encode
  read_frame w conn = frame_read conn (decrypt_frame_from_reader aead max_noise_nonce w conn.recv)

-- One end of a connection: its `Sv2Conn`, the bytes that have arrived and are not read yet, and the
-- frames that it has written and read.
pub record End : Type 0 where
  pub conn : Sv2Conn
  pub incoming : List ℕ
  pub sent : List Frame
  pub received : List Frame

abbrev pub opened : Sv2Conn → End
opened conn = record { conn = conn; incoming = []; sent = []; received = [] }

pub data Action : Type 0 where
  write : Frame → Action
  read : Action

-- Which end acts.
pub data Step : Type 0 where
  client server : Action → Step

module _ (aead : Aead) (max_noise_nonce : ℕ) where
  -- What an end writes arrives at the other.
  abbrev pub after_write : Frame → End → End → Frame × (Sv2Conn × (List ℕ × Result ℕ)) → End × End
  after_write f self other (f', (conn, (w, ok n))) =
      (record self { conn = conn; sent = self.sent ++ f ∷ [] }, record other { incoming = w })
  after_write f self other (f', (conn, (w, err e))) =
      (record self { conn = conn }, record other { incoming = w })

  abbrev pub after_read :
      End → End → Outcome (Sv2Conn × (Result Frame × List ℕ)) → Outcome (End × End)
  after_read self other (returns (conn, (ok f, w))) =
      returns (record self { conn = conn; incoming = w; received = self.received ++ f ∷ [] }, other)
  after_read self other (returns (conn, (err e, w))) =
      returns (record self { conn = conn; incoming = w }, other)
  after_read self other panics = panics

  -- A read waits while nothing has arrived.
  abbrev pub read_arrived : End → End → List ℕ → Outcome (End × End)
  read_arrived self other [] = returns (self, other)
  read_arrived self other (b ∷ bs) =
      after_read self other (read_frame aead max_noise_nonce (b ∷ bs) self.conn)

  unfoldable pub act : Action → End → End → Outcome (End × End)
  unfolding write_frame read_frame
  act (write f) self other =
      returns
        (after_write f self other (write_frame aead max_noise_nonce f other.incoming self.conn))
  act read self other = read_arrived self other self.incoming

  abbrev pub swapped : Outcome (End × End) → Outcome (End × End)
  swapped (returns (s, c)) = returns (c, s)
  swapped panics = panics

  unfoldable pub step : Step → End × End → Outcome (End × End)
  unfolding act
  step (client a) (c, s) = act a c s
  step (server a) (c, s) = swapped (act a s c)

  abbrev pub then_steps :
      Outcome (End × End) → (End × End → Outcome (End × End)) → Outcome (End × End)
  then_steps (returns ends) k = k ends
  then_steps panics k = panics

  unfoldable pub run_steps : List Step → End × End → Outcome (End × End)
  unfolding step
  run_steps [] ends = returns ends
  run_steps (s ∷ steps) ends = then_steps (step s ends) (run_steps steps)
