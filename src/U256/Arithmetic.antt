-- ===== src/U256/Arithmetic.antt =====
-- `Add` and `Sub` are addition and subtraction modulo 2 ^ 256.
use mathlib.Core.Path.{subst}
use stratumv.Prelude.{
  ◌∙◌, ◌⊎◌, inl, ℕ, suc, ◌+◌, ◌-◌, ◌*◌, ◌%◌, ◌^◌, ◌<◌, ◌≤◌, ◌≡◌, refl, ap, arith, List, [], ◌∷◌,
  length, All, ltb, if◌then◌else◌,
}
use stratumv.Binary.LittleEndian.{IsByte}
use stratumv.U256.{add_byte, add_loop, add, sub_byte, sub_loop, sub}
use stratumv.U256.Value.{be_value, be_value-lt}
use native.Mathlib.Nat.{pow-suc}

add_byte_lem :
    (x y c : ℕ)
    → IsByte x
    → IsByte y
    → c ≤ 1
    → ((add_byte x y c).0 + 256 * (add_byte x y c).1 ≡ x + y + c)
      × IsByte (add_byte x y c).0
      × ((add_byte x y c).1 ≤ 1)
add_byte_lem x y c hx hy hc = omega arith

-- One more digit in front of a sum, in place value `p`.
add_digit :
    (b carry x y c p low u a : ℕ)
    → b + 256 * carry ≡ x + y + c
    → low + c * p ≡ u + a
    → b * p + low + carry * (p * 256) ≡ x * p + u + (y * p + a)
add_digit b carry x y c p low u a e f = omega (arith, ap (λ (t : ℕ). t * p) e)

-- The bytes written and the carry make up the sum.
pub record IsSum (u a : List ℕ) (r : List ℕ × ℕ) : Type 0 where
  pub total : be_value r.0 + r.1 * 256 ^ length u ≡ be_value u + be_value a
  pub bytes : All IsByte r.0
  pub size : length r.0 ≡ length u
  pub small : r.1 ≤ 1

add_loop-IsSum :
    (u a : List ℕ) → All IsByte u → All IsByte a → length a ≡ length u → IsSum u a (add_loop u a)
unfolding add_loop
add_loop-IsSum [] [] hu ha hl = record {
  total = omega arith;
  bytes = tt;
  size = refl;
  small = omega arith;
}
add_loop-IsSum [] (y ∷ ys) hu ha hl = absurd (omega arith)
add_loop-IsSum (x ∷ xs) [] hu ha hl = absurd (omega arith)
add_loop-IsSum (x ∷ xs) (y ∷ ys) hu ha hl =
    let shorter : length ys ≡ length xs = omega arith in
    let ih = add_loop-IsSum xs ys hu.1 ha.1 shorter in
    let step = add_byte_lem x y (add_loop xs ys).1 hu.0 ha.0 ih.small in
    record {
      total =
          rw (ih.size, shorter, pow-suc 256 (length xs))
            (add_digit _ _ x y (add_loop xs ys).1 (256 ^ length xs) _ _ _ step.0 ih.total);
      bytes = (step.1, ih.bytes);
      size = ap suc ih.size;
      small = step.2;
    }

-- The sum is right modulo 2 ^ 256, and is made of 32 bytes.
pub add-value :
    (u a : List ℕ)
    → All IsByte u
    → All IsByte a
    → length u ≡ 32
    → length a ≡ 32
    → (be_value (add u a) ≡ (be_value u + be_value a) % 2 ^ 256)
      × All IsByte (add u a)
      × (length (add u a) ≡ 32)
unfolding add
add-value u a hu ha lu la =
    let sum = add_loop-IsSum u a hu ha (omega arith) in
    let total : be_value (add_loop u a).0 + (add_loop u a).1 * 256 ^ 32 ≡ be_value u + be_value a =
      rw lu at sum.total in
    let bound : be_value (add_loop u a).0 < 256 ^ 32 =
      subst (λ n. be_value (add_loop u a).0 < 256 ^ n) (sum.size ∙ lu) (be_value-lt _ sum.bytes) in
    (omega arith, sum.bytes, sum.size ∙ lu)

sub_byte_lem :
    (x y c : ℕ)
    → IsByte x
    → IsByte y
    → (c ≡ 0) ⊎ (c ≡ 255)
    → ((sub_byte x y c).0 + y + (if ltb 0 c then 1 else 0)
        ≡ x + 256 * (if ltb 0 (sub_byte x y c).1 then 1 else 0))
      × IsByte (sub_byte x y c).0
      × (((sub_byte x y c).1 ≡ 0) ⊎ ((sub_byte x y c).1 ≡ 255))
sub_byte_lem x y c hx hy hc = ground arith

abbrev bit : ℕ → ℕ
bit borrow = if ltb 0 borrow then 1 else 0

-- One more digit in front of a difference, in place value `p`.
sub_digit :
    (b borrow x y c p low u s : ℕ)
    → b + y + c ≡ x + 256 * borrow
    → low + s ≡ u + c * p
    → b * p + low + (y * p + s) ≡ x * p + u + borrow * (p * 256)
sub_digit b borrow x y c p low u s e f = omega (arith, ap (λ (t : ℕ). t * p) e)

-- The bytes written and the borrow make up the difference.
record IsDifference (u s : List ℕ) (r : List ℕ × ℕ) : Type 0 where
  total : be_value r.0 + be_value s ≡ be_value u + bit r.1 * 256 ^ length u
  bytes : All IsByte r.0
  size : length r.0 ≡ length u
  borrow : (r.1 ≡ 0) ⊎ (r.1 ≡ 255)

sub_loop-IsDifference :
    (u s : List ℕ)
    → All IsByte u
    → All IsByte s
    → length s ≡ length u
    → IsDifference u s (sub_loop u s)
unfolding sub_loop
sub_loop-IsDifference [] [] hu hs hl = record {
  total = omega arith;
  bytes = tt;
  size = refl;
  borrow = inl refl;
}
sub_loop-IsDifference [] (y ∷ ys) hu hs hl = absurd (omega arith)
sub_loop-IsDifference (x ∷ xs) [] hu hs hl = absurd (omega arith)
sub_loop-IsDifference (x ∷ xs) (y ∷ ys) hu hs hl =
    let shorter : length ys ≡ length xs = omega arith in
    let ih = sub_loop-IsDifference xs ys hu.1 hs.1 shorter in
    let step = sub_byte_lem x y (sub_loop xs ys).1 hu.0 hs.0 ih.borrow in
    record {
      total =
          rw (ih.size, shorter, pow-suc 256 (length xs))
            (sub_digit _ _ x y (bit (sub_loop xs ys).1) (256 ^ length xs) _ _ _ step.0 ih.total);
      bytes = (step.1, ih.bytes);
      size = ap suc ih.size;
      borrow = step.2;
    }

-- The difference is right modulo 2 ^ 256, and is made of 32 bytes.
pub sub-value :
    (u s : List ℕ)
    → All IsByte u
    → All IsByte s
    → length u ≡ 32
    → length s ≡ 32
    → (be_value (sub u s) ≡ (be_value u + 2 ^ 256 - be_value s) % 2 ^ 256)
      × All IsByte (sub u s)
      × (length (sub u s) ≡ 32)
unfolding sub
sub-value u s hu hs lu ls =
    let d = sub_loop-IsDifference u s hu hs (omega arith) in
    let total : be_value (sub_loop u s).0 + be_value s
        ≡ be_value u + bit (sub_loop u s).1 * 256 ^ 32 =
      rw lu at d.total in
    let low : be_value (sub_loop u s).0 < 256 ^ 32 =
      subst (λ n. be_value (sub_loop u s).0 < 256 ^ n) (d.size ∙ lu) (be_value-lt _ d.bytes) in
    let minuend : be_value u < 256 ^ 32 = subst (λ n. be_value u < 256 ^ n) lu (be_value-lt u hu) in
    let subtrahend : be_value s < 256 ^ 32 =
      subst (λ n. be_value s < 256 ^ n) ls (be_value-lt s hs) in
    (
      wrapped (bit (sub_loop u s).1) (bit-le (sub_loop u s).1) total low minuend subtrahend,
      d.bytes,
      d.size ∙ lu,
    )
  where
    bit-le : (b : ℕ) → bit b ≤ 1
    bit-le b = ground arith

    wrapped :
        {r t v : ℕ} (b : ℕ)
        → b ≤ 1
        → r + t ≡ v + b * 256 ^ 32
        → r < 256 ^ 32
        → v < 256 ^ 32
        → t < 256 ^ 32
        → r ≡ (v + 2 ^ 256 - t) % 2 ^ 256
    wrapped b hb e hr hv ht = omega arith
