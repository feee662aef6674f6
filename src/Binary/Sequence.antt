-- ===== src/Binary/Sequence.antt =====
-- `Sequence` of types.go and its seven implementations, and the methods of binary.go that write and
-- read one behind its length.
pub mod RoundTrip
use stratumv.Prelude.{
  ℕ, zero, suc, ◌%◌, Bool, Option, none, some, List, [], ◌∷◌, length, ltb, if◌then◌else◌,
}
use stratumv.Binary.Failure.{Failure, add_seq1_len, add_seq255_len, add_seq64k_len, read_seq1_len}
use stratumv.Binary.Outcome.{Outcome, returns, panics}
use stratumv.Binary.Builder
use stratumv.Binary.Builder.{
  Builder, ◌▷◌, fail, bytes, add_bool, add_u8, add_u16, add_u24, add_u32, add_u64, add_bytes,
}
use stratumv.Binary.Reader.{
  Reader, Read, ◌>>=◌, ◌>>◌, pure, set_err, unless_failed, read_bool, read_u8, read_u16, read_u24,
  read_u32, read_u64, read_u256,
}

-- The interface's dynamic type is the constructor.
pub data Sequence : Type 0 where
  bools : List Bool → Sequence
  u8s u16s u24s u32s u64s : List ℕ → Sequence
  u256s : List (List ℕ) → Sequence

unfoldable pub len : Sequence → ℕ
len (bools a) = length a
len (u8s a) = length a
len (u16s a) = length a
len (u24s a) = length a
len (u32s a) = length a
len (u64s a) = length a
len (u256s a) = length a

-- `for _, v := range a { out.AddX(v) }`
unfoldable pub add_each {ℓ} : {A : Type ℓ} → (A → Builder → Builder) → List A → Builder → Builder
add_each add [] out = out
add_each add (v ∷ vs) out = add_each add vs (out ▷ add v)

unfoldable pub encode : Sequence → List ℕ × Option Failure
unfolding bytes
encode (bools a) = bytes (Builder.new ▷ add_each add_bool a)
encode (u8s a) = bytes (Builder.new ▷ add_each add_u8 a)
encode (u16s a) = bytes (Builder.new ▷ add_each add_u16 a)
encode (u24s a) = bytes (Builder.new ▷ add_each add_u24 a)
encode (u32s a) = bytes (Builder.new ▷ add_each add_u32 a)
encode (u64s a) = bytes (Builder.new ▷ add_each add_u64 a)
encode (u256s a) = bytes (Builder.new ▷ add_each add_bytes a)

-- `for range l { a = append(a, br.ReadX()) }`
unfoldable pub read_each {ℓ} : {A : Type ℓ} → Read A → ℕ → Read (List A)
read_each read zero = pure []
read_each read (suc l) = do v ← read; vs ← read_each read l; pure (v ∷ vs)

-- `return a, br.Error()`
abbrev pub with_error : Sequence → Read (Sequence × Option Failure)
with_error a r = returns ((a, r.err), r)

-- `a.Decode(l, br)`: the receiver gives the type, and its elements are not read.
unfoldable pub decode : Sequence → ℕ → Read (Sequence × Option Failure)
decode (bools a) l = do vs ← read_each read_bool l; with_error (bools vs)
decode (u8s a) l = do vs ← read_each read_u8 l; with_error (u8s vs)
decode (u16s a) l = do vs ← read_each read_u16 l; with_error (u16s vs)
decode (u24s a) l = do vs ← read_each read_u24 l; with_error (u24s vs)
decode (u32s a) l = do vs ← read_each read_u32 l; with_error (u32s vs)
decode (u64s a) l = do vs ← read_each read_u64 l; with_error (u64s vs)
decode (u256s a) l = do vs ← read_each read_u256 l; with_error (u256s vs)

-- The end of `AddSeq*`: the length, and the encoded elements unless those failed.
abbrev pub add_encoded : (Builder → Builder) → List ℕ × Option Failure → Builder → Builder
add_encoded add_len (enc, some e) b = fail e b
add_encoded add_len (enc, none) b = b ▷ add_len ▷ add_bytes enc

unfoldable pub add_seq1 : Sequence → Builder → Builder
add_seq1 things b = Builder.unless_failed b λ b.
    if ltb 1 (len things)
    then fail add_seq1_len b
    else add_encoded (add_u8 (len things % 256)) (encode things) b

unfoldable pub add_option_t : Sequence → Builder → Builder
unfolding add_seq1
add_option_t things b = b ▷ add_seq1 things

unfoldable pub add_seq255 : Sequence → Builder → Builder
add_seq255 things b = Builder.unless_failed b λ b.
    if ltb 255 (len things)
    then fail add_seq255_len b
    else add_encoded (add_u8 (len things % 256)) (encode things) b

unfoldable pub add_seq64k : Sequence → Builder → Builder
add_seq64k things b = Builder.unless_failed b λ b.
    if ltb 65535 (len things)
    then fail add_seq64k_len b
    else add_encoded (add_u16 (len things % 65536)) (encode things) b

-- The end of `ReadSeq*`; `none` is the nil interface.
abbrev pub keep_error : Sequence × Option Failure → Read (Option Sequence)
keep_error (n, some e) = do set_err (some e); pure none
keep_error (n, none) = pure (some n)

unfoldable pub read_seq1 : Sequence → Read (Option Sequence)
read_seq1 dest = unless_failed none do
  l ← read_u8
  if ltb 1 l
      then (do set_err (some read_seq1_len); pure none)
      else do n ← decode dest l; keep_error n

unfoldable pub read_option_t : Sequence → Read (Option Sequence)
unfolding read_seq1
read_option_t dest = read_seq1 dest

unfoldable pub read_seq255 : Sequence → Read (Option Sequence)
read_seq255 dest = unless_failed none do l ← read_u8; n ← decode dest l; keep_error n

unfoldable pub read_seq64k : Sequence → Read (Option Sequence)
read_seq64k dest = unless_failed none do l ← read_u16; n ← decode dest l; keep_error n

-- The type assertions `x.(U32Sequence)` and `x.(U256Sequence)`; on another type or nil they panic.
abbrev pub assert_u32s : Option Sequence → Read (List ℕ)
assert_u32s (some (u32s a)) r = returns (a, r)
assert_u32s _ r = panics

abbrev pub assert_u256s : Option Sequence → Read (List (List ℕ))
assert_u256s (some (u256s a)) r = returns (a, r)
assert_u256s _ r = panics
