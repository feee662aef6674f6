-- ===== src/Examples/Endings.antt =====
-- The server's goroutine ends on every connection that ends.
use stratumv.Prelude.{
  ap, ℕ, zero, suc, ◌+◌, ◌<◌, ◌≤◌, ◌≡◌, refl, arith, Bool, true, false, Option, none, some, List,
  [], length, if◌then◌else◌,
}
use stratumv.Binary.Failure.{Result, ok, err}
use stratumv.Binary.Outcome.{Outcome, returns, panics}
use stratumv.Frame.{Frame}
use stratumv.Noise.Aead.{Aead}
use stratumv.Noise.Digest.{Sha256}
use stratumv.Noise.Secp256k1.{Secp256k1}
use stratumv.Noise.Keys.{Keypair}
use stratumv.Noise.Certificate.{SignatureNoiseMessage}
use stratumv.Noise.Handshake.{HandshakeState, Ended, perform_handshake_responder}
use stratumv.Noise.Handshake.Truncated.{too_early, truncated_handshake}
use stratumv.Connection.{Sv2Conn, server_conn}
use stratumv.Examples.{Exit, fatal}
use stratumv.Examples.Server.{
  Served, Serving, one_more, ends_with, after_read, read_loop, first_read, connected, serve,
  handshaken, handle,
}
use stratumv.Examples.Taken.{Took, Leaves, read_frame-Took, run_alone-Leaves}

-- The goroutine has ended.
pub record Ends (serving : Serving) : Type 0 where
  pub outcome : Outcome Served
  pub ended : serving ≡ some outcome

one_more-Ends : (f : Frame) (serving : Serving) → Ends serving → Ends (one_more f serving)
one_more-Ends f (some (returns served)) e = record { outcome = _; ended = refl }
one_more-Ends f (some panics) e = record { outcome = _; ended = refl }
one_more-Ends f none e = cc

ends_with-Ends : (answer : Option Frame) (exit : Exit) → Ends (ends_with answer exit)
ends_with-Ends answer exit = record { outcome = _; ended = refl }

module _ (aead : Aead) (max_noise_nonce : ℕ) where
  after_read-Ends :
      (answer : Option Frame) (k : List ℕ → Sv2Conn → Serving) (w : List ℕ)
      (out : Outcome (Sv2Conn × (Result Frame × List ℕ)))
      → Took 22 w out
      → ((w' : List ℕ) (conn : Sv2Conn) → length w' + 22 ≤ length w → Ends (k w' conn))
      → Ends (after_read aead max_noise_nonce answer k out)
  after_read-Ends answer k w (returns (conn, (ok f, w'))) h then_ends =
      one_more-Ends f (k w' conn) (then_ends w' conn h)
  after_read-Ends answer k w (returns (conn, (err e, w'))) h then_ends = ends_with-Ends _ _
  after_read-Ends answer k w panics h then_ends = record { outcome = _; ended = refl }

  read_loop-Ends :
      (fuel : ℕ) (answer : Option Frame) (w : List ℕ) (conn : Sv2Conn)
      → length w < fuel
      → Ends (read_loop aead max_noise_nonce fuel answer w conn)
  unfolding read_loop
  read_loop-Ends zero answer w conn h = ground arith
  read_loop-Ends (suc fuel) answer w conn h =
      after_read-Ends answer _ w _ (read_frame-Took aead max_noise_nonce w conn)
        (λ w' conn' shorter. read_loop-Ends fuel answer w' conn' (omega (arith, h, shorter)))

  if-Ends : (b : Bool) {x y : Serving} → Ends x → Ends y → Ends (if b then x else y)
  if-Ends true x y = x
  if-Ends false x y = y

  first_read-Ends :
      (fuel : ℕ) (w : List ℕ) (out : Outcome (Sv2Conn × (Result Frame × List ℕ)))
      → Took 22 w out
      → length w < fuel
      → Ends (first_read aead max_noise_nonce fuel out)
  first_read-Ends fuel w (returns (conn, (ok f, w'))) took h =
      if-Ends _ (one_more-Ends f _ (read_loop-Ends fuel _ w' conn (omega (arith, took, h))))
        (one_more-Ends f _ (ends_with-Ends _ _))
  first_read-Ends fuel w (returns (conn, (err e, w'))) took h = ends_with-Ends _ _
  first_read-Ends fuel w panics took h = record { outcome = _; ended = refl }

  connected-Ends :
      (fuel : ℕ) (w : List ℕ) (r : Result Sv2Conn)
      → length w < fuel
      → Ends (connected aead max_noise_nonce fuel w r)
  connected-Ends fuel w (err e) h = ends_with-Ends _ _
  connected-Ends fuel w (ok conn) h =
      first_read-Ends fuel w _ (read_frame-Took aead max_noise_nonce w conn) h

  serve-Ends :
      (fuel : ℕ) (ended : Ended) (w : List ℕ)
      → length w < fuel
      → Ends (serve aead max_noise_nonce fuel ended w)
  unfolding serve
  serve-Ends fuel ended w h = connected-Ends fuel w (server_conn ended) h

  handshaken-Ends :
      (fuel : ℕ) (stream : List ℕ) (out : Outcome (Ended × List ℕ))
      → Leaves stream out
      → length stream < fuel
      → Ends (handshaken aead max_noise_nonce fuel out)
  handshaken-Ends fuel stream (returns (ended, w)) left h =
      serve-Ends fuel ended w (omega (arith, left, h))
  handshaken-Ends fuel stream panics left h = record { outcome = _; ended = refl }

module _ (sha : Sha256) (aead : Aead) (max_noise_nonce : ℕ) (curve : Secp256k1)
    (cert : SignatureNoiseMessage) (static_key ephemeral : Keypair curve)
    (client_paw : HandshakeState) (fuel : ℕ) (stream : List ℕ) where
  -- Whatever bytes arrive before a connection ends, more rounds than there are bytes are enough for
  -- the server's goroutine to end: it returns, ends the program or panics.
  pub handle-Ends :
      length stream < fuel
      → Ends
          (handle sha aead max_noise_nonce curve fuel cert static_key ephemeral client_paw stream).1
  unfolding handle
  handle-Ends h =
      handshaken-Ends aead max_noise_nonce fuel stream _
        (run_alone-Leaves
          (perform_handshake_responder sha aead max_noise_nonce curve cert static_key ephemeral
            client_paw)
          stream)
        h

  -- A connection that ends before its first 64 bytes have arrived ends the server's program: nothing is
  -- written, no frame is read, and the error is fatal.
  pub handle_short :
      length stream < 64
      → handle sha aead max_noise_nonce curve fuel cert static_key ephemeral client_paw stream ≡ (
        [],
        some (returns (record { frames = []; answer = none; exit = fatal (too_early stream) })),
      )
  unfolding handle serve server_conn
  handle_short h =
      ap (λ alone. (alone.0, handshaken aead max_noise_nonce fuel alone.1))
        (truncated_handshake sha aead max_noise_nonce curve cert static_key ephemeral client_paw []
          stream (omega arith) h).1
