-- ===== src/U256.antt =====
-- `U256` of types.go: 32 bytes, the most significant first. The loops run over any number of bytes.
pub mod Value
pub mod Arithmetic
pub mod Target
pub mod Hex
use stratumv.Prelude.{
  ℕ, ◌+◌, ◌-◌, ◌/◌, ◌%◌, Bool, true, false, ◌&&◌, ◌||◌, not, Option, none, some, List, [], ◌∷◌,
  take, replicate, length, ltb, ◌==◌, if◌then◌else◌,
}
use stratumv.Prelude.Int.{ℤ, pos, negsuc}

abbrev pub zero_u256 : List ℕ
zero_u256 = replicate 32 0

-- `bytes.Equal`
abbrev pub equal_bytes : List ℕ → List ℕ → Bool
equal_bytes [] [] = true
equal_bytes (x ∷ xs) (y ∷ ys) = x == y && equal_bytes xs ys
equal_bytes _ _ = false

unfoldable pub is_equal : List ℕ → List ℕ → Bool
is_equal u hash = equal_bytes u hash

-- One round of `Add` at a byte of each number: the new byte and the new carry. `sum` is a uint16,
-- `sum & 0x00ff` is `sum % 256` and `(sum & 0xff00) >> 8` is `sum / 256`.
abbrev pub add_byte : ℕ → ℕ → ℕ → ℕ × ℕ
add_byte x y carry = let sum = (x + y + carry) % 65536 in (sum % 256, sum / 256)

-- The loop of `Add` runs from the last byte, index 31, to the first: the bytes it has written and
-- the carry that it has reached.
abbrev prepend : (ℕ → ℕ × ℕ) → List ℕ × ℕ → List ℕ × ℕ
prepend step (bs, carry) = let (b, carry') = step carry in (b ∷ bs, carry')

pub add_loop : List ℕ → List ℕ → List ℕ × ℕ
add_loop (x ∷ xs) (y ∷ ys) = prepend (add_byte x y) (add_loop xs ys)
add_loop [] _ = ([], 0)
add_loop (x ∷ xs) [] = ([], 0)

unfoldable pub add : List ℕ → List ℕ → List ℕ
unfolding add_loop
add u addend = (add_loop u addend).0

-- One round of `Sub`. `sample` is a uint16, so that a negative difference wraps above 255.
abbrev borrowed : ℕ → ℕ → ℕ
borrowed sample borrow = if ltb 0 borrow then (sample + 65536 - 1) % 65536 else sample

abbrev pub sub_byte : ℕ → ℕ → ℕ → ℕ × ℕ
sub_byte x y borrow =
    let sample = borrowed ((x + 65536 - y) % 65536) borrow in
    (sample % 256, if ltb 255 sample then 255 else 0)

pub sub_loop : List ℕ → List ℕ → List ℕ × ℕ
sub_loop (x ∷ xs) (y ∷ ys) = prepend (sub_byte x y) (sub_loop xs ys)
sub_loop [] _ = ([], 0)
sub_loop (x ∷ xs) [] = ([], 0)

unfoldable pub sub : List ℕ → List ℕ → List ℕ
unfolding sub_loop
sub u subtrahend = (sub_loop u subtrahend).0

-- The loop of `Compare`: it stops at the first index where either byte is not zero.
pub compare_loop : List ℕ → List ℕ → ℤ
compare_loop (t ∷ ts) (h ∷ hs) =
    let rest = compare_loop ts hs in
    if not (h == 0) || not (t == 0)
    then (if ltb h t then pos 1 else if h == t then pos 0 else negsuc 0)
    else rest
compare_loop [] _ = negsuc 0
compare_loop (t ∷ ts) [] = negsuc 0

-- A nil hash stands for zero.
abbrev or_zero : Option (List ℕ) → List ℕ
or_zero none = zero_u256
or_zero (some hash) = hash

unfoldable pub compare : List ℕ → Option (List ℕ) → ℤ
unfolding compare_loop
compare target hash =
    let h = or_zero hash in if equal_bytes target h then pos 0 else compare_loop target h

abbrev pub is_not_negative : ℤ → Bool
is_not_negative (pos n) = true
is_not_negative (negsuc n) = false

unfoldable pub is_met_by : List ℕ → Option (List ℕ) → Bool
unfolding compare
is_met_by target u256 = is_not_negative (compare target u256)

unfoldable pub is_met_by_hash : List ℕ → List ℕ → Bool
unfolding compare
is_met_by_hash target hash = is_not_negative (compare target (some hash))
