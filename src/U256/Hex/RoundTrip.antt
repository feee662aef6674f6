-- ===== src/U256/Hex/RoundTrip.antt =====
-- What `String` and `StringNonReversed` print, `SetString` reads.
use mathlib.Core.List.{reverse, reverse-cons}
use stratumv.Prelude.{
  ℕ, zero, suc, ◌*◌, ◌/◌, ◌%◌, ◌<◌, ◌≡◌, refl, sym, ap, ◌∙◌, arith, true, none, some, List, [], ◌∷◌,
  ◌++◌, append-nil, length, take, drop, take_all, drop_all, length-append, All, All-append, ◌==◌,
}
use stratumv.Binary.LittleEndian.{IsByte}
use stratumv.U256.Hex.{
  to_hex_char, encode_to_string, from_hex_char, decode_string, copy, set_string,
  string_non_reversed, flip, string,
}

from_hex_char-to_hex_char : (v : ℕ) → v < 16 → from_hex_char (to_hex_char v) ≡ some v
unfolding from_hex_char to_hex_char
from_hex_char-to_hex_char v h = ground arith

decode_string-encode_to_string :
    (bs : List ℕ) → All IsByte bs → decode_string (encode_to_string bs) ≡ some bs
unfolding decode_string encode_to_string
decode_string-encode_to_string [] h = refl
decode_string-encode_to_string (b ∷ bs) h =
    rw
      (
        from_hex_char-to_hex_char (b / 16) (omega (arith, h.0)),
        from_hex_char-to_hex_char (b % 16) (omega arith),
        decode_string-encode_to_string bs h.1,
      )
      (ap (λ x. some (x ∷ bs)) (omega arith))

length-encode_to_string : (bs : List ℕ) → length (encode_to_string bs) ≡ 2 * length bs
unfolding encode_to_string
length-encode_to_string [] = refl
length-encode_to_string (b ∷ bs) = omega (arith, length-encode_to_string bs)

-- What is as long as the receiver is copied whole.
copy_whole : (u bs : List ℕ) → length u ≡ length bs → copy u bs ≡ bs
copy_whole u bs h =
    ap (λ n. take n bs ++ drop (length bs) u) h
    ∙ ap (λ x. x ++ drop (length bs) u) (take_all bs)
    ∙ ap (λ n. bs ++ drop n u) (sym h)
    ∙ ap (λ x. bs ++ x) (drop_all u)
    ∙ append-nil bs

set_string-encode_to_string :
    (v bs : List ℕ)
    → length v ≡ 32
    → length bs ≡ 32
    → All IsByte bs
    → set_string v (encode_to_string bs) ≡ (bs, none)
unfolding set_string
set_string-encode_to_string v bs hv h all =
    rw (whole, decode_string-encode_to_string bs all, copy_whole v bs (hv ∙ sym h)) refl
  where
    whole : (length (encode_to_string bs) == 64) ≡ true
    whole = ground (arith, length-encode_to_string bs, h)

-- Lists of a known length, by their elements.
abbrev Tuple : ℕ → Type 0
Tuple zero = Unit
Tuple (suc n) = ℕ × Tuple n

abbrev listed : (n : ℕ) → Tuple n → List ℕ
listed zero t = []
listed (suc n) t = t.0 ∷ listed n t.1

elements : (n : ℕ) (u : List ℕ) → length u ≡ n → (t : Tuple n) × (u ≡ listed n t)
elements zero [] h = (tt, refl)
elements zero (x ∷ u) h = absurd (omega arith)
elements (suc n) [] h = absurd (omega arith)
elements (suc n) (x ∷ u) h = let (t, e) = elements n u (omega arith) in ((x, t), ap (λ r. x ∷ r) e)

flip-listed : (t : Tuple 32) → flip 16 0 (listed 32 t) ≡ reverse (listed 32 t)
unfolding flip
flip-listed t = refl

-- The loop of swaps turns the 32 bytes round.
pub flip_lem : (u : List ℕ) → length u ≡ 32 → flip 16 0 u ≡ reverse u
flip_lem u h = let (t, e) = elements 32 u h in rw e (flip-listed t)

length-reverse : (u : List ℕ) → length (reverse u) ≡ length u
length-reverse [] = refl
length-reverse (x ∷ u) =
    rw (reverse-cons x u) (omega (arith, length-append (reverse u) (x ∷ []), length-reverse u))

All-reverse : (P : ℕ → Type 0) (u : List ℕ) → All P u → All P (reverse u)
All-reverse P [] h = h
All-reverse P (x ∷ u) h =
    rw (reverse-cons x u) (All-append P (reverse u) (x ∷ []) (All-reverse P u h.1) (h.0, tt))

-- SetString reads back what StringNonReversed prints for 32 bytes; from what String prints it reads
-- the bytes in reverse order. Both with no error, into any receiver.
pub set_string-string :
    (u v : List ℕ)
    → length u ≡ 32
    → All IsByte u
    → length v ≡ 32
    → (set_string v (string_non_reversed u) ≡ (u, none))
      × (set_string v (string u) ≡ (reverse u, none))
unfolding string_non_reversed string
set_string-string u v h all hv = (
  set_string-encode_to_string v u hv h all,
  rw (flip_lem u h) (
      set_string-encode_to_string v (reverse u) hv (length-reverse u ∙ h)
        (All-reverse IsByte u all)),
)
