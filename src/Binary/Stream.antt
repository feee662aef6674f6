-- ===== src/Binary/Stream.antt =====
-- Where io.ReadFull reads from: a connection, of which the bytes that arrive before it ends are
-- known.
use stratumv.Prelude.{
  ℕ, ◌≡◌, refl, arith, List, [], ◌∷◌, ◌++◌, length, take, drop, length-append, take-append,
  drop-append, ltb, ◌==◌, if◌then◌else◌,
}
use stratumv.Binary.Failure.{Result, ok, err, end_of_file, unexpected_eof}
use stratumv.Binary.Outcome.{Outcome, returns}

-- `io.ReadFull` on a source: the bytes, or an error, and the source after that.
abbrev pub Source : Type 0 → Type 0
Source S = ℕ → S → Outcome (Result (List ℕ) × S)

-- On a connection, the bytes that arrive before it ends.
unfoldable pub receive : Source (List ℕ)
receive n stream =
    if n == 0
    then returns (ok [], stream)
    else if length stream == 0
    then returns (err end_of_file, [])
    else if ltb (length stream) n
    then returns (err unexpected_eof, [])
    else returns (ok (take n stream), drop n stream)

-- A connection delivers what has been written to it.
pub receive_front : (a b : List ℕ) → receive (length a) (a ++ b) ≡ returns (ok a, b)
unfolding receive
receive_front [] b = refl
receive_front (x ∷ a) b = ground (arith, length-append a b, take-append a b, drop-append a b)
