-- ===== src/Binary/Outcome.antt =====
-- Calls that may panic.
use stratumv.Prelude.{ℕ, ◌≡◌, ap, List}

-- Go's run-time panics (an index or a slice out of range, a failed type assertion) end the call.
pub data Outcome {ℓ} (A : Type ℓ) : Type ℓ where
  returns : A → Outcome A
  panics : Outcome A

-- A `[]byte`: the nil slice, which equals `nil`, or a view of some bytes, possibly of none.
pub data Slice : Type 0 where
  nil : Slice
  view : List ℕ → Slice

abbrev pub contents : Slice → List ℕ
contents nil = List.[]
contents (view bs) = bs

-- What a call that returned gave back.
abbrev returned_or : {A : Type 0} → A → Outcome A → A
returned_or a (returns b) = b
returned_or a panics = a

pub returned : {A : Type 0} {a b : A} → returns a ≡ returns b → a ≡ b
returned {a = a} e = ap (returned_or a) e
