-- ===== src/U256/Target.antt =====
-- What the comparison of a hash with a target says about the numbers that they stand for.
use stratumv.Prelude.{
  ℕ, zero, suc, ◌+◌, ◌*◌, ◌^◌, ◌<◌, ◌≤◌, ◌≡◌, ◌≢◌, ◌∙◌, Bool-cases, ◌⊎◌, inl, inr, refl, arith,
  true, false, some, List, [], ◌∷◌, ◌++◌, length, replicate, All,
}
use stratumv.Prelude.Int.{ℤ, pos, negsuc}
use stratumv.Binary.LittleEndian.{IsByte}
use stratumv.U256.{equal_bytes, compare_loop, compare, is_met_by, is_not_negative}
use stratumv.U256.Value.{be_value, be_value-lt}

-- A smaller leading digit makes the smaller number.
lt_by_digit : (h t p u v : ℕ) → h < t → u < p → h * p + u < t * p + v
lt_by_digit h t p u v hlt hu = grind arith

-- What each result of the loop says.
abbrev Says : ℤ → List ℕ → List ℕ → Type 0
Says (pos zero) ts hs = Unit
Says (pos (suc n)) ts hs = be_value hs < be_value ts
Says (negsuc n) ts hs = (be_value ts < be_value hs) ⊎ (equal_bytes ts hs ≡ true)

module _ (t h : ℕ) (ts hs : List ℕ) where
  less : h < t → compare_loop (t ∷ ts) (h ∷ hs) ≡ pos 1
  unfolding compare_loop
  less lt = ground arith

  greater : t < h → compare_loop (t ∷ ts) (h ∷ hs) ≡ negsuc 0
  unfolding compare_loop
  greater lt = ground arith

  same : h ≡ t → t ≢ 0 → compare_loop (t ∷ ts) (h ∷ hs) ≡ pos 0
  unfolding compare_loop
  same e nz = ground arith

  both_zero : h ≡ 0 → t ≡ 0 → compare_loop (t ∷ ts) (h ∷ hs) ≡ compare_loop ts hs
  unfolding compare_loop
  both_zero eh et = ground arith

  Says-zeros :
      (v : ℤ) → length hs ≡ length ts → h ≡ 0 → t ≡ 0 → Says v ts hs → Says v (t ∷ ts) (h ∷ hs)
  Says-zeros (pos zero) l eh et s = tt
  Says-zeros (pos (suc n)) l eh et s = rw (eh, et) (omega arith)
  Says-zeros (negsuc n) l eh et (inl s) = inl (rw (eh, et) (omega arith))
  Says-zeros (negsuc n) l eh et (inr s) = inr (rw (eh, et) s)

digit_cases : (t h : ℕ) → ((h < t) ⊎ (t < h)) ⊎ (((h ≡ t) × (t ≢ 0)) ⊎ ((h ≡ 0) × (t ≡ 0)))
digit_cases t h = grind arith

compare_loop-Says :
    (ts hs : List ℕ)
    → All IsByte ts
    → All IsByte hs
    → length hs ≡ length ts
    → Says (compare_loop ts hs) ts hs
compare_loop-Says [] [] bt bh l = unfold compare_loop in inr refl
compare_loop-Says [] (h ∷ hs) bt bh l = absurd (omega arith)
compare_loop-Says (t ∷ ts) [] bt bh l = absurd (omega arith)
compare_loop-Says (t ∷ ts) (h ∷ hs) bt bh l =
    let shorter : length hs ≡ length ts = omega arith in
    let ih = compare_loop-Says ts hs bt.1 bh.1 shorter in
    elim (digit_cases t h) [
      | inl (inl lt) ↦
          rw (less t h ts hs lt, shorter)
            (lt_by_digit h t (256 ^ length ts) _ _ lt (rw shorter at (be_value-lt hs bh.1)))
      | inl (inr gt) ↦
          rw (greater t h ts hs gt, shorter)
            (inl (lt_by_digit t h (256 ^ length ts) _ _ gt (be_value-lt ts bt.1)))
      | inr (inl (e, nz)) ↦ rw (same t h ts hs e nz) tt
      | inr (inr (eh, et)) ↦
          rw (both_zero t h ts hs eh et) (Says-zeros t h ts hs _ shorter eh et ih)
    ]

-- What a result says, once the byte strings are known to differ.
verdict_less : (v : ℤ) (t h : List ℕ) → Says v t h → v ≡ pos 1 → be_value h < be_value t
verdict_less (pos zero) t h s e = ground arith
verdict_less (pos (suc n)) t h s e = s
verdict_less (negsuc n) t h s e = cc

verdict_greater :
    (v : ℤ) (t h : List ℕ)
    → Says v t h
    → v ≡ negsuc 0
    → equal_bytes t h ≡ false
    → be_value t < be_value h
verdict_greater (pos n) t h s e ne = cc
verdict_greater (negsuc n) t h (inl s) e ne = s
verdict_greater (negsuc n) t h (inr s) e ne = cc

verdict_met :
    (v : ℤ) (t h : List ℕ)
    → Says v t h
    → be_value h ≤ be_value t
    → equal_bytes t h ≡ false
    → is_not_negative v ≡ true
verdict_met (pos n) t h s le ne = refl
verdict_met (negsuc n) t h (inl s) le ne = absurd (omega arith)
verdict_met (negsuc n) t h (inr s) le ne = cc

module _ (target hash : List ℕ) (bt : All IsByte target) (bh : All IsByte hash)
    (l : length hash ≡ length target) where
  -- A result of 1 means that the hash is less than the target, and a result of -1 that it is more.
  pub compare_sign :
      (compare target (some hash) ≡ pos 1 → be_value hash < be_value target)
      × (compare target (some hash) ≡ negsuc 0 → be_value target < be_value hash)
  unfolding compare
  compare_sign = elim (Bool-cases (equal_bytes target hash)) [
    | inl e ↦ rw e (λ p. ground arith, λ p. cc)
    | inr ne ↦ rw ne (
      verdict_less _ target hash (compare_loop-Says target hash bt bh l),
      λ p. verdict_greater _ target hash (compare_loop-Says target hash bt bh l) p ne,
    )
  ]

  -- A hash that is at most the target meets it: no valid share is turned away.
  pub is_met_by_complete : be_value hash ≤ be_value target → is_met_by target (some hash) ≡ true
  unfolding is_met_by
  is_met_by_complete le = elim (Bool-cases (equal_bytes target hash)) [
    | inl e ↦ rw e refl
    | inr ne ↦ rw ne (verdict_met _ target hash (compare_loop-Says target hash bt bh l) le ne)
  ]

compare_loop-zeros :
    (k t : ℕ) (ts hs : List ℕ)
    → t ≢ 0
    → compare_loop (replicate k 0 ++ t ∷ ts) (replicate k 0 ++ t ∷ hs) ≡ pos 0
compare_loop-zeros zero t ts hs nz = same t t ts hs refl nz
compare_loop-zeros (suc k) t ts hs nz =
    both_zero 0 0 (replicate k 0 ++ t ∷ ts) (replicate k 0 ++ t ∷ hs) refl refl
    ∙ compare_loop-zeros k t ts hs nz

-- Whatever follows it, a first non-zero byte that the hash shares with the target is enough for the
-- hash to meet the target.
pub is_met_by_leading :
    (k t : ℕ) (ts hs : List ℕ)
    → t ≢ 0
    → is_met_by (replicate k 0 ++ t ∷ ts) (some (replicate k 0 ++ t ∷ hs)) ≡ true
unfolding is_met_by
is_met_by_leading k t ts hs nz = ground (arith, compare_loop-zeros k t ts hs nz)
