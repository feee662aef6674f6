-- ===== src/U256/Value.antt =====
-- The number that a big-endian list of bytes stands for.
use stratumv.Prelude.{ℕ, ◌+◌, ◌*◌, ◌^◌, ◌<◌, arith, List, [], ◌∷◌, length, All}
use stratumv.Binary.LittleEndian.{IsByte}
use native.Mathlib.Nat.{pow-suc}

abbrev pub be_value : List ℕ → ℕ
be_value [] = 0
be_value (b ∷ bs) = b * 256 ^ length bs + be_value bs

pub be_value-lt : (bs : List ℕ) → All IsByte bs → be_value bs < 256 ^ length bs
be_value-lt [] h = omega arith
be_value-lt (b ∷ bs) h = grind (arith, be_value-lt bs h.1, pow-suc 256 (length bs), h.0)
