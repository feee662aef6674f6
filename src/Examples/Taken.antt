-- ===== src/Examples/Taken.antt =====
-- How many bytes a side takes off a connection.
use stratumv.Prelude.{ℕ, ◌+◌, ◌≤◌, arith, Option, List, length, length-drop}
use stratumv.Binary.Failure.{Failure, Result, ok, err}
use stratumv.Binary.Outcome.{Outcome, returns, panics}
use stratumv.Binary.Stream.{receive}
use stratumv.Frame.{Frame}
use stratumv.Noise.Aead.{Aead}
use stratumv.Noise.Cipher.{CipherState}
use stratumv.Noise.Transport.{
  with_payload, payload_read, header_decoded, header_decrypted, header_read, decrypt_frame_from,
  decrypt_frame_from_reader,
}
use stratumv.Noise.Proc.{Proc, done, panic, write, read, Alone, arrived, run_alone}
use stratumv.Connection.{Sv2Conn, frame_read, read_frame}

-- A success has taken `n` bytes at least off the front of `w`.
abbrev pub Took : {S A : Type 0} → ℕ → List ℕ → Outcome (S × (Result A × List ℕ)) → Type 0
Took n w (returns (s, (ok a, w'))) = length w' + n ≤ length w
Took n w (returns (s, (err e, w'))) = Unit
Took n w panics = Unit

abbrev Received : ℕ → List ℕ → Outcome (Result (List ℕ) × List ℕ) → Type 0
Received n w (returns (ok bs, w')) = length w' + n ≤ length w
Received n w (returns (err e, w')) = Unit
Received n w panics = Unit

receive-Received : (n : ℕ) (w : List ℕ) → Received n w (receive n w)
unfolding receive
receive-Received n w = ground (arith, length-drop n w)

-- Bytes are only taken away.
abbrev pub Leaves : {A : Type 0} → List ℕ → Outcome (A × List ℕ) → Type 0
Leaves w (returns (a, w')) = length w' ≤ length w
Leaves w panics = Unit

receive-Leaves : (n : ℕ) (w : List ℕ) → Leaves w (receive n w)
unfolding receive
receive-Leaves n w = ground (arith, length-drop n w)

Leaves-trans :
    {A : Type 0} (v w : List ℕ) (out : Outcome (A × List ℕ))
    → Leaves w out
    → length w ≤ length v
    → Leaves v out
Leaves-trans v w (returns (a, w')) l h = omega (arith, l, h)
Leaves-trans v w panics l h = tt

arrived-Leaves :
    {A : Type 0} (w : List ℕ) (out : Outcome (Result (List ℕ) × List ℕ))
    (k : Result (List ℕ) → List ℕ → Alone A)
    → Leaves w out
    → ((r : Result (List ℕ)) (w' : List ℕ) → Leaves w' (k r w').1)
    → Leaves w (arrived out k).1
arrived-Leaves w (returns (r, w')) k l then_leaves =
    Leaves-trans w w' (k r w').1 (then_leaves r w') l
arrived-Leaves w panics k l then_leaves = tt

pub run_alone-Leaves : {A : Type 0} (p : Proc A) (w : List ℕ) → Leaves w (run_alone p w).1
unfolding run_alone
run_alone-Leaves (done a) w = omega arith
run_alone-Leaves panic w = tt
run_alone-Leaves (write out p) w = run_alone-Leaves p w
run_alone-Leaves (read n k) w =
    arrived-Leaves w _ _ (receive-Leaves n w) (λ r w'. run_alone-Leaves (k r) w')

module _ (aead : Aead) (max_noise_nonce : ℕ) (w : List ℕ) where
  with_payload-Took :
      (frame : Frame) (w' : List ℕ) (r : CipherState × Result (List ℕ))
      → length w' + 22 ≤ length w
      → Took 22 w (with_payload aead max_noise_nonce receive frame w' r)
  with_payload-Took frame w' (cs, err e) h = tt
  with_payload-Took frame w' (cs, ok payload) h = h

  payload_read-Took :
      (frame : Frame) (cs : CipherState) (n : ℕ) (w' : List ℕ)
      (out : Outcome (Result (List ℕ) × List ℕ))
      → Received n w' out
      → length w' + 22 ≤ length w
      → Took 22 w (payload_read aead max_noise_nonce receive frame cs out)
  payload_read-Took frame cs n w' (returns (err e, w'')) r h = tt
  payload_read-Took frame cs n w' (returns (ok payload, w'')) r h =
      with_payload-Took frame w'' _ (omega (arith, r, h))
  payload_read-Took frame cs n w' panics r h = tt

  header_decoded-Took :
      (cs : CipherState) (w' : List ℕ) (out : Outcome (Frame × Option Failure))
      → length w' + 22 ≤ length w
      → Took 22 w (header_decoded aead max_noise_nonce receive cs w' out)
  header_decoded-Took cs w' (returns (frame, e)) h =
      payload_read-Took frame cs _ w' _ (receive-Received _ w') h
  header_decoded-Took cs w' panics h = tt

  header_decrypted-Took :
      (w' : List ℕ) (r : CipherState × Result (List ℕ))
      → length w' + 22 ≤ length w
      → Took 22 w (header_decrypted aead max_noise_nonce receive w' r)
  header_decrypted-Took w' (cs, err e) h = tt
  header_decrypted-Took w' (cs, ok decrypted) h = header_decoded-Took cs w' _ h

  header_read-Took :
      (cs : CipherState) (out : Outcome (Result (List ℕ) × List ℕ))
      → Received 22 w out
      → Took 22 w (header_read aead max_noise_nonce receive cs out)
  header_read-Took cs (returns (err e, w')) r = tt
  header_read-Took cs (returns (ok header, w')) r = header_decrypted-Took w' _ r
  header_read-Took cs panics r = tt

  frame_read-Took :
      (conn : Sv2Conn) (out : Outcome (CipherState × (Result Frame × List ℕ)))
      → Took 22 w out
      → Took 22 w (frame_read aead max_noise_nonce conn out)
  frame_read-Took conn (returns (cs, (ok f, w'))) h = h
  frame_read-Took conn (returns (cs, (err e, w'))) h = tt
  frame_read-Took conn panics h = tt

  pub read_frame-Took : (conn : Sv2Conn) → Took 22 w (read_frame aead max_noise_nonce w conn)
  unfolding read_frame decrypt_frame_from_reader decrypt_frame_from
  read_frame-Took conn =
      frame_read-Took conn _ (header_read-Took conn.recv _ (receive-Received 22 w))
