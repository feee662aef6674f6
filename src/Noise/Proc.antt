-- ===== src/Noise/Proc.antt =====
-- Code that talks over an io.ReadWriter: what it writes, and how it goes on from what it reads.
use stratumv.Prelude.{ℕ, List, [], ◌∷◌, ◌++◌, length, take, drop, ltb, if◌then◌else◌}
use stratumv.Binary.Failure.{Result, ok}
use stratumv.Binary.Outcome.{Outcome, returns, panics}
use stratumv.Binary.Stream.{receive}

-- `read n k` is io.ReadFull of `n` bytes. The result of a write is not looked at.
pub data Proc (A : Type 0) : Type 0 where
  done : A → Proc A
  panic : Proc A
  write : List ℕ → Proc A → Proc A
  read : ℕ → (Result (List ℕ) → Proc A) → Proc A

abbrev pub from_outcome : {A : Type 0} → Outcome A → Proc A
from_outcome (returns a) = done a
from_outcome panics = panic

-- Alone, on a connection that ends: the bytes written, and the outcome with the bytes that are left.
abbrev pub Alone : Type 0 → Type 0
Alone A = List ℕ × Outcome (A × List ℕ)

abbrev pub prepend : {A : Type 0} → List ℕ → Alone A → Alone A
prepend w (sent, out) = (w ++ sent, out)

module _ {A : Type 0} where
  abbrev pub arrived :
      Outcome (Result (List ℕ) × List ℕ) → (Result (List ℕ) → List ℕ → Alone A) → Alone A
  arrived (returns (r, stream)) k = k r stream
  arrived panics k = ([], panics)

  unfoldable pub run_alone : Proc A → List ℕ → Alone A
  unfolding receive
  run_alone (done a) stream = ([], returns (a, stream))
  run_alone panic stream = ([], panics)
  run_alone (write w p) stream = prepend w (run_alone p stream)
  run_alone (read n k) stream = arrived (receive n stream) (λ r rest. run_alone (k r) rest)

-- Two parties, and the bytes on the way to each.
pub record Network (A B : Type 0) : Type 0 where
  pub left : Proc A
  pub to_left : List ℕ
  pub right : Proc B
  pub to_right : List ℕ

-- One step of a party: the party, its input and its output after that. A read waits until all its
-- bytes are there.
abbrev pub advance : {A : Type 0} → Proc A → List ℕ → List ℕ → Proc A × List ℕ × List ℕ
advance (done a) input output = (done a, input, output)
advance panic input output = (panic, input, output)
advance (write w p) input output = (p, input, output ++ w)
advance (read n k) input output =
    if ltb (length input) n
    then (read n k, input, output)
    else (k (ok (take n input)), drop n input, output)

pub data Side : Type 0 where
  lhs rhs : Side

module _ {A B : Type 0} where
  abbrev pub step : Side → Network A B → Network A B
  step lhs net =
      let (p, input, output) = advance net.left net.to_left net.to_right in
      record { left = p; to_left = input; right = net.right; to_right = output }
  step rhs net =
      let (p, input, output) = advance net.right net.to_right net.to_left in
      record { left = net.left; to_left = output; right = p; to_right = input }

  -- The parties take steps in the order of a schedule.
  unfoldable pub run : List Side → Network A B → Network A B
  run [] net = net
  run (side ∷ sides) net = run sides (step side net)
