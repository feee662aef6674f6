-- ===== src/U256/Hex.antt =====
-- `SetString`, `String`, `StringNonReversed`, `Clone` and `CloneBytes` of types.go, and the
-- functions of encoding/hex that they call. A string is the list of its bytes.
pub mod RoundTrip
use stratumv.Prelude.{
  ℕ, zero, suc, ◌+◌, ◌-◌, ◌*◌, ◌/◌, ◌%◌, ◌&&◌, Bool, Option, none, some, List, [], ◌∷◌, ◌++◌,
  length, take, drop, replicate, ltb, leb, ◌==◌, if◌then◌else◌,
}
use stratumv.Binary.Failure.{Failure, set_string_len, bad_hex}
use stratumv.Binary.Reader.{zero_u256, set_bytes}

-- The digits of `hex.EncodeToString`, "0123456789abcdef".
unfoldable pub to_hex_char : ℕ → ℕ
to_hex_char v = if ltb v 10 then b'0' + v else b'a' + (v - 10)

unfoldable pub encode_to_string : List ℕ → List ℕ
encode_to_string [] = []
encode_to_string (b ∷ bs) = to_hex_char (b / 16) ∷ to_hex_char (b % 16) ∷ encode_to_string bs

-- `hex.DecodeString` reads digits of both cases.
unfoldable pub from_hex_char : ℕ → Option ℕ
from_hex_char c =
    if leb b'0' c && leb c b'9'
    then some (c - b'0')
    else if leb b'a' c && leb c b'f'
    then some (c - b'a' + 10)
    else if leb b'A' c && leb c b'F'
    then some (c - b'A' + 10)
    else none

abbrev pub put_byte : Option ℕ → Option ℕ → Option (List ℕ) → Option (List ℕ)
put_byte (some a) (some b) (some bs) = some ((a * 16 + b) ∷ bs)
put_byte _ _ _ = none

unfoldable pub decode_string : List ℕ → Option (List ℕ)
decode_string [] = some []
decode_string (c ∷ []) = none
decode_string (c ∷ d ∷ s) = put_byte (from_hex_char c) (from_hex_char d) (decode_string s)

-- `copy(dst, src)`
abbrev pub copy : List ℕ → List ℕ → List ℕ
copy dst src = take (length dst) src ++ drop (length src) dst

abbrev pub copy_decoded : List ℕ → Option (List ℕ) → List ℕ × Option Failure
copy_decoded u none = (u, some bad_hex)
copy_decoded u (some b) = (copy u b, none)

unfoldable pub set_string : List ℕ → List ℕ → List ℕ × Option Failure
unfolding decode_string
set_string u s =
    if length s == 64 then copy_decoded u (decode_string s) else (u, some set_string_len)

unfoldable pub string_non_reversed : List ℕ → List ℕ
unfolding encode_to_string
string_non_reversed u = encode_to_string u

-- The byte at an index, and another byte put there. All indices are inside the array.
abbrev pub byte_at : ℕ → List ℕ → ℕ
byte_at i [] = 0
byte_at zero (b ∷ bs) = b
byte_at (suc i) (b ∷ bs) = byte_at i bs

abbrev pub set_byte : ℕ → ℕ → List ℕ → List ℕ
set_byte i x [] = []
set_byte zero x (b ∷ bs) = x ∷ bs
set_byte (suc i) x (b ∷ bs) = b ∷ set_byte i x bs

-- `u[i], u[31-i] = u[31-i], u[i]`
abbrev pub swap : ℕ → List ℕ → List ℕ
swap i u = set_byte (31 - i) (byte_at i u) (set_byte i (byte_at (31 - i) u) u)

-- The rounds of the loop of `String` from index `i` on.
unfoldable pub flip : ℕ → ℕ → List ℕ → List ℕ
flip zero i u = u
flip (suc n) i u = flip n (suc i) (swap i u)

unfoldable pub string : List ℕ → List ℕ
unfolding encode_to_string flip
string u = encode_to_string (flip 16 0 u)

unfoldable pub clone : List ℕ → List ℕ
unfolding set_bytes
clone u = (set_bytes zero_u256 u).0

unfoldable pub clone_bytes : List ℕ → List ℕ
clone_bytes u = copy (replicate 32 0) u
