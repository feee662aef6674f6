-- ===== src/Tests/Hashes.antt =====
-- types.go's `U256` at concrete inputs.
use stratumv.Prelude.{
  ℕ, ◌+◌, ◌-◌, ◌%◌, ◌^◌, ◌≡◌, refl, arith, List, [], ◌∷◌, ◌++◌, All, length, replicate, some, true,
  none, drop,
}
use stratumv.Binary.LittleEndian.{IsByte}
use mathlib.Core.List.{reverse}
use stratumv.U256.{add, sub, is_met_by}
use stratumv.U256.Hex.{
  clone, clone_bytes, from_hex_char, to_hex_char, set_string, string, string_non_reversed,
}
use stratumv.U256.Hex.RoundTrip.{set_string-string}
use stratumv.U256.Value.{be_value}
use stratumv.U256.Arithmetic.{add-value, sub-value}
use stratumv.U256.Target.{is_met_by_complete, is_met_by_leading}

abbrev all_ones : List ℕ
all_ones = replicate 32 255

abbrev two_ones : List ℕ
two_ones = replicate 30 0 ++ 255 ∷ 255 ∷ []

-- A target of the tests of types.go, and a hash below it.
abbrev target : List ℕ
target = 0 ∷ 255 ∷ replicate 30 0

abbrev low_hash : List ℕ
low_hash = replicate 30 0 ++ 255 ∷ 0 ∷ []

-- The last addition of `TestU256Add` wraps.
add_wraps : add all_ones two_ones ≡ replicate 30 0 ++ 255 ∷ 254 ∷ []
unfolding add
add_wraps = refl

add-value_example :
    (be_value (add all_ones two_ones) ≡ (be_value all_ones + be_value two_ones) % 2 ^ 256)
    × All IsByte (add all_ones two_ones)
    × (length (add all_ones two_ones) ≡ 32)
add-value_example = add-value all_ones two_ones (omega arith) (omega arith) refl refl

sub-value_example :
    (be_value (sub two_ones all_ones) ≡ (be_value two_ones + 2 ^ 256 - be_value all_ones) % 2 ^ 256)
    × All IsByte (sub two_ones all_ones)
    × (length (sub two_ones all_ones) ≡ 32)
sub-value_example = sub-value two_ones all_ones (omega arith) (omega arith) refl refl

is_met_by_complete_example : is_met_by target (some low_hash) ≡ true
is_met_by_complete_example =
    is_met_by_complete target low_hash (omega arith) (omega arith) refl (omega arith)

-- The hash is greater than the target, and meets it all the same.
is_met_by_leading_example :
    is_met_by
      (replicate 1 0 ++ 255 ∷ replicate 30 0)
      (some (replicate 1 0 ++ 255 ∷ replicate 30 255))
    ≡ true
is_met_by_leading_example =
    is_met_by_leading 1 255 (replicate 30 0) (replicate 30 255) (omega arith)

-- A few digits of both cases in front of zeros.
mixed_case :
    set_string all_ones (b'a' ∷ b'B' ∷ b'0' ∷ b'9' ∷ replicate 60 b'0')
    ≡ (0xab ∷ 9 ∷ replicate 30 0, none)
unfolding set_string from_hex_char
mixed_case = refl

string_ends_with : drop 60 (string target) ≡ b'f' ∷ b'f' ∷ b'0' ∷ b'0' ∷ []
unfolding string to_hex_char
string_ends_with = refl

set_string-string_example :
    (set_string all_ones (string_non_reversed target) ≡ (target, none))
    × (set_string all_ones (string target) ≡ (reverse target, none))
set_string-string_example = set_string-string target all_ones refl (omega arith) refl

copies : (clone target ≡ target) × (clone_bytes target ≡ target)
unfolding clone clone_bytes
copies = (refl, refl)
