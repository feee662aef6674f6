-- ===== src/Examples/Server.antt =====
-- The goroutine of examples/server/server.go for one connection, from the end of its handshake on,
-- and the certificate that the server shows.
use stratumv.Prelude.{ℕ, zero, suc, Option, none, some, List, [], ◌∷◌, ◌==◌, if◌then◌else◌}
use stratumv.Binary.Failure.{Result, ok, err}
use stratumv.Binary.Outcome.{Outcome, returns, panics}
use stratumv.Frame
use stratumv.Frame.{Frame, from_params}
use stratumv.Core.SetupConnectionSuccess.{SetupConnectionSuccess}
use stratumv.Messages
use stratumv.MessageTypes.{message_setup_connection, message_setup_connection_success}
use stratumv.Noise.Aead.{Aead}
use stratumv.Noise.Digest.{Sha256}
use stratumv.Noise.Secp256k1.{Secp256k1}
use stratumv.Noise.Certificate.{SignatureNoiseMessage, new_signed_certificate}
use stratumv.Noise.Keys.{Keypair}
use stratumv.Noise.Proc.{run_alone}
use stratumv.Noise.Handshake.{HandshakeState, Ended, perform_handshake_responder}
use stratumv.Connection.{Sv2Conn, server_conn, read_frame}
use stratumv.Examples.{Exit, quits, fatal, after_error}

-- `ProtocolVersion`
abbrev pub protocol_version : ℕ
protocol_version = 2

-- `cert`: for the authority's private key and the static public key.
abbrev pub server_cert :
    (sha : Sha256) (curve : Secp256k1) → curve.PrivateKey → List ℕ → Result SignatureNoiseMessage
server_cert sha curve authority static = new_signed_certificate sha curve authority static 0 65535

abbrev pub success : SetupConnectionSuccess
success = record { used_version = protocol_version; flags = 0 }

-- `sendFrame`, whose error is not looked at.
unfoldable pub send_frame : Frame
unfolding from_params
send_frame =
    (from_params Messages.setup_connection_success.codable message_setup_connection_success success
      Frame.empty).0

-- The frames that were read, the answer that was put together (no call writes it), and how the
-- goroutine ended.
pub record Served : Type 0 where
  pub frames : List Frame
  pub answer : Option Frame
  pub exit : Exit

-- `none` is a loop that has run out of fuel.
abbrev pub Serving : Type 0
Serving = Option (Outcome Served)

abbrev pub ends_with : Option Frame → Exit → Serving
ends_with answer exit = some (returns (record { frames = []; answer = answer; exit = exit }))

abbrev pub one_more : Frame → Serving → Serving
one_more f (some (returns served)) = some (returns (record served { frames = f ∷ served.frames }))
one_more f (some panics) = some panics
one_more f none = none

module _ (aead : Aead) (max_noise_nonce : ℕ) where
  abbrev pub after_read :
      Option Frame
      → (List ℕ → Sv2Conn → Serving)
      → Outcome (Sv2Conn × (Result Frame × List ℕ))
      → Serving
  after_read answer k (returns (conn, (ok f, w))) = one_more f (k w conn)
  after_read answer k (returns (conn, (err e, w))) = ends_with answer (after_error e)
  after_read answer k panics = some panics

  -- The loop behind the answer, on fuel. Each round reads a frame.
  unfoldable pub read_loop : ℕ → Option Frame → List ℕ → Sv2Conn → Serving
  unfolding read_frame
  read_loop zero answer w conn = none
  read_loop (suc fuel) answer w conn =
      after_read answer (read_loop fuel answer) (read_frame aead max_noise_nonce w conn)

  -- The first frame that was read.
  abbrev pub first_read : ℕ → Outcome (Sv2Conn × (Result Frame × List ℕ)) → Serving
  first_read fuel (returns (conn, (ok f, w))) =
      if f.message_type == message_setup_connection
      then one_more f (read_loop fuel (some send_frame) w conn)
      else one_more f (ends_with none quits)
  first_read fuel (returns (conn, (err e, w))) = ends_with none (after_error e)
  first_read fuel panics = some panics

  abbrev pub connected : ℕ → List ℕ → Result Sv2Conn → Serving
  connected fuel w (err e) = ends_with none (fatal e)
  connected fuel w (ok conn) = first_read fuel (read_frame aead max_noise_nonce w conn)

  -- `ended` is what the handshake left, and `w` are the bytes that arrive after it.
  unfoldable pub serve : ℕ → Ended → List ℕ → Serving
  unfolding server_conn read_frame read_loop send_frame
  serve fuel ended w = connected fuel w (server_conn ended)

  abbrev pub handshaken : ℕ → Outcome (Ended × List ℕ) → Serving
  handshaken fuel (returns (ended, w)) = serve fuel ended w
  handshaken fuel panics = some panics

module _ (sha : Sha256) (aead : Aead) (max_noise_nonce : ℕ) (curve : Secp256k1) where
  -- The whole goroutine, for all bytes that arrive: what it writes, and how it goes on. `ephemeral` is
  -- what `NewKeypair` returns in the handshake.
  unfoldable pub handle :
      ℕ
      → SignatureNoiseMessage
      → Keypair curve
      → Keypair curve
      → HandshakeState
      → List ℕ
      → List ℕ × Serving
  unfolding run_alone perform_handshake_responder serve
  handle fuel cert static_key ephemeral client_paw stream =
      let (sent, out) =
        run_alone
          (perform_handshake_responder sha aead max_noise_nonce curve cert static_key ephemeral
            client_paw)
          stream in
      (sent, handshaken aead max_noise_nonce fuel out)
