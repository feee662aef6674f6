-- ===== src/Binary/Reader.antt =====
-- `BinaryReader` of binary.go. A read past the end records an error and hands out an empty slice;
-- code that then indexes that slice panics.
pub mod ReadsBack
pub mod Laws
use stratumv.Prelude.{
  ℕ, zero, suc, ◌+◌, ◌-◌, Bool, true, false, ◌||◌, Option, none, some, List, [], ◌∷◌, ◌++◌, length,
  take, drop, replicate, ltb, ◌==◌, if◌then◌else◌,
}
use stratumv.Prelude.Int.{ℤ, pos, negsuc, ◌+ℤ◌, ◌-ℤ◌}
use stratumv.Binary.Failure.{
  Failure, past_end, invalid_bool, read_bin32_len, seek_bounds, end_of_file, set_bytes_len,
}
use stratumv.Binary.LittleEndian.{le_value}
use stratumv.Binary.Outcome.{Outcome, returns, panics, Slice, nil, view, contents}

-- Go's field `data` is `input`.
pub record Reader : Type 0 where
  pub input : Slice
  pub pos : ℕ
  pub err : Option Failure

abbrev pub new : Slice → Reader
new bin = record { input = bin; pos = 0; err = none }

-- A method of the reader: it changes the reader and returns a value, or panics.
abbrev pub Read {ℓ} : Type ℓ → Type ℓ
Read A = Reader → Outcome (A × Reader)

abbrev pub resume {ℓ κ} :
    {A : Type ℓ} {B : Type κ} → (A → Read B) → Outcome (A × Reader) → Outcome (B × Reader)
resume f (returns (a, r)) = f a r
resume f panics = panics

infixl 5 ◌>>=◌ ◌>>◌
abbrev pub ◌>>=◌ {ℓ κ} : {A : Type ℓ} {B : Type κ} → Read A → (A → Read B) → Read B
◌>>=◌ m f r = resume f (m r)

abbrev pub ◌>>◌ {ℓ κ} : {A : Type ℓ} {B : Type κ} → Read A → Read B → Read B
m >> k = m >>= λ _. k

abbrev pub pure {ℓ} : {A : Type ℓ} → A → Read A
pure a r = returns (a, r)

-- `br.err = e`
abbrev pub set_err : Option Failure → Read (Unit {0})
set_err e r = returns (tt, record r { err = e })

-- `if br.err != nil { return d }`, the first lines of the methods.
abbrev pub unless_failed {ℓ} : {A : Type ℓ} → A → Read A → Read A
unless_failed d m r = elim r.err [ some e ↦ returns (d, r) | none ↦ m r ]

-- `if b == nil { return d }`, and then the bytes of `b` are used.
abbrev pub unless_nil {ℓ} : {A : Type ℓ} → A → Slice → (List ℕ → Outcome A) → Read A
unless_nil d nil f r = returns (d, r)
unless_nil d (view bs) f r = elim (f bs) [ returns a ↦ returns (a, r) | panics ↦ panics ]

-- A `[]byte` of a message: nothing that a message does tells nil from empty.
abbrev pub contents_of : Read Slice → Read (List ℕ)
contents_of m = do b ← m; pure (contents b)

unfoldable pub remaining : Reader → ℕ
remaining r = length (contents r.input) - r.pos

-- `br.data[lo : lo+l]`, within bounds.
abbrev pub cut : Slice → ℕ → ℕ → Slice
cut nil lo l = nil
cut (view bs) lo l = view (take l (drop lo bs))

unfoldable pub read : ℕ → Read Slice
read l r = elim r.err [
  | some e ↦ returns (nil, r)
  | none ↦
      let size = length (contents r.input) in
      if ltb size (r.pos + l)
      then returns (cut r.input size 0, record r { err = some past_end; pos = size })
      else returns (cut r.input r.pos l, record r { pos = r.pos + l })
]

-- `b[0]`
abbrev pub first : List ℕ → Outcome ℕ
first [] = panics
first (x ∷ xs) = returns x

-- `ble.Uint16(b)` and its like, for a number of `w` bytes.
abbrev pub uint : ℕ → List ℕ → Outcome ℕ
uint w b = if ltb (length b) w then panics else returns (le_value (take w b))

-- `[n]byte(b)`: the conversion of a slice to an array.
abbrev pub to_array : ℕ → Slice → Read (List ℕ)
to_array n b r = if ltb (length (contents b)) n then panics else returns (take n (contents b), r)

abbrev pub bool_of : ℕ → Read Bool
bool_of b =
    if b == 1
    then pure true
    else if b == 0
    then pure false
    else (do set_err (some invalid_bool); pure false)

abbrev pub bool_of_slice : Slice → Read Bool
bool_of_slice nil r = returns (false, r)
bool_of_slice (view []) r = panics
bool_of_slice (view (x ∷ xs)) r = bool_of x r

unfoldable pub read_bool : Read Bool
unfolding read
read_bool = unless_failed false (do b ← read 1; bool_of_slice b)

unfoldable pub read_u8 : Read ℕ
unfolding read
read_u8 = unless_failed 0 (do b ← read 1; unless_nil 0 b first)

unfoldable pub read_u16 : Read ℕ
unfolding read
read_u16 = unless_failed 0 (do b ← read 2; unless_nil 0 b (uint 2))

unfoldable pub read_u24 : Read ℕ
unfolding read
read_u24 = unless_failed 0 (do b ← read 3; unless_nil 0 b (λ b. uint 4 (b ++ 0 ∷ [])))

unfoldable pub read_u32 : Read ℕ
unfolding read
read_u32 = unless_failed 0 (do b ← read 4; unless_nil 0 b (uint 4))

unfoldable pub read_u64 : Read ℕ
unfolding read
read_u64 = unless_failed 0 (do b ← read 8; unless_nil 0 b (uint 8))

-- A float32 is its IEEE bit pattern, which `math.Float32frombits` takes.
unfoldable pub read_f32 : Read ℕ
unfolding read
read_f32 = unless_failed 0 (do b ← read 4; unless_nil 0 b (uint 4))

abbrev pub zero_u256 : List ℕ
zero_u256 = replicate 32 0

-- `U256.SetBytes`: the new value of `u`, and the error.
unfoldable pub set_bytes : List ℕ → List ℕ → List ℕ × Option Failure
set_bytes u b = if length b == 32 then (b, none) else (u, some set_bytes_len)

-- `br.err = h.SetBytes(b)` also overwrites the error of the read itself.
abbrev pub u256_of_slice : Slice → Read (List ℕ)
u256_of_slice nil = pure zero_u256
u256_of_slice (view b) = do let set = set_bytes zero_u256 b; set_err set.1; pure set.0

unfoldable pub read_u256 : Read (List ℕ)
unfolding read set_bytes
read_u256 = unless_failed zero_u256 (do b ← read 32; u256_of_slice b)

unfoldable pub read_str255 : Read (List ℕ)
unfolding read read_u8
read_str255 = unless_failed [] (do l ← read_u8; b ← read l; pure (contents b))

unfoldable pub read_bin32 : Read Slice
unfolding read read_u8
read_bin32 =
    unless_failed nil
      do l ← read_u8; if ltb 32 l then (do set_err (some read_bin32_len); pure nil) else read l

unfoldable pub read_bin255 : Read Slice
unfolding read read_u8
read_bin255 = unless_failed nil (do l ← read_u8; read l)

unfoldable pub read_bin64k : Read Slice
unfolding read read_u16
read_bin64k = unless_failed nil (do l ← read_u16; read l)

unfoldable pub read_bin16m : Read Slice
unfolding read read_u24
read_bin16m = unless_failed nil (do l ← read_u24; read l)

unfoldable pub read_bytes : ℕ → Read Slice
unfolding read
read_bytes l = unless_failed nil (read l)

unfoldable pub read_pubkey : Read (List ℕ)
unfolding read
read_pubkey = unless_failed (replicate 32 0) (do b ← read 32; to_array 32 b)

unfoldable pub read_ellswift_pubkey : Read (List ℕ)
unfolding read
read_ellswift_pubkey = unless_failed (replicate 64 0) (do b ← read 64; to_array 64 b)

unfoldable pub read_signature : Read (List ℕ)
unfolding read
read_signature = unless_failed (replicate 64 0) (do b ← read 64; to_array 64 b)

-- `Read(dest)` of io.Reader: the new bytes of `dest`, the count and the error.
unfoldable pub read_into : List ℕ → Read (List ℕ × ℕ × Option Failure)
unfolding read
read_into dest r = elim r.err [
  | some e ↦ returns ((dest, 0, some e), r)
  | none ↦
      if length dest == 0
      then returns ((dest, 0, some end_of_file), r)
      else (do
        b ← read (length dest)
        λ r'. let n = length (contents b) in returns ((contents b ++ drop n dest, n, r'.err), r'))
          r
]

pub data Whence : Type 0 where
  start current end other : Whence

abbrev pub target : Whence → ℤ → Reader → ℤ
target start offset r = offset
target current offset r = offset +ℤ pos r.pos
target end offset r = pos (length (contents r.input)) -ℤ offset
target other offset r = offset

abbrev pub settle : ℤ → Read (ℕ × Option Failure)
settle (negsuc n) r = returns ((0, some seek_bounds), record r { err = some seek_bounds })
settle (pos n) r =
    if ltb (length (contents r.input)) n
    then returns ((0, some seek_bounds), record r { err = some seek_bounds })
    else returns ((n, none), record r { pos = n })

-- `Seek(offset, whence)` of io.Seeker: the new position and the error.
unfoldable pub seek : ℤ → Whence → Read (ℕ × Option Failure)
seek offset whence r = elim r.err [
  | some e ↦ returns ((0, some e), r)
  | none ↦ settle (target whence offset r) r
]
