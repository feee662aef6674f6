-- ===== src/Binary/Builder.antt =====
-- `BinaryBuilder` of binary.go. A builder is its bytes and its first error; the spare capacity of
-- the slice behind it, which `Grow` enlarges, is not part of what any other method writes.
use Prim.Native.Nat.{bit_xor}
use stratumv.Prelude.{
  ℕ, ◌-◌, ◌%◌, Bool, true, Option, none, some, List, [], ◌∷◌, ◌++◌, length, take, ltb, ◌==◌,
  if◌then◌else◌,
}
use stratumv.Binary.Failure.{
  Failure, add_str_len, add_bin32_len, add_bin255_len, add_bin64k_len, add_bin16m_len,
}
use stratumv.Binary.LittleEndian.{le_bytes}
pub mod Laws

-- Go's field `data` is `output`.
pub record Builder : Type 0 where
  pub output : List ℕ
  pub err : Option Failure

abbrev pub new : Builder
new = record { output = []; err = none }

-- Go's method chain `b.AddU8(x).AddU16(y)` is `b ▷ add_u8 x ▷ add_u16 y`.
infixl 6 ◌▷◌
abbrev pub ◌▷◌ {ℓ κ} : {A : Type ℓ} {B : Type κ} → A → (A → B) → B
b ▷ op = op b

-- `if bb.err != nil { return bb }`, the first lines of the methods.
abbrev pub unless_failed : Builder → (Builder → Builder) → Builder
unless_failed b body = elim b.err [ some e ↦ b | none ↦ body b ]

-- `bb.data = append(bb.data, bin...)`
abbrev pub append : List ℕ → Builder → Builder
append bin b = record b { output = b.output ++ bin }

abbrev pub fail : Failure → Builder → Builder
fail e b = record b { err = some e }

-- The bytes up to the first error, and that error.
unfoldable pub bytes : Builder → List ℕ × Option Failure
bytes b = elim b.err [ some e ↦ (b.output, some e) | none ↦ (b.output, none) ]

unfoldable pub len : Builder → ℕ
len b = length b.output

unfoldable pub add_bool : Bool → Builder → Builder
add_bool boo b = unless_failed b λ b. if boo then append (1 ∷ []) b else append (0 ∷ []) b

unfoldable pub add_u8 : ℕ → Builder → Builder
add_u8 u b = unless_failed b (append (u ∷ []))

unfoldable pub add_u16 : ℕ → Builder → Builder
add_u16 u b = unless_failed b (append (le_bytes 2 u))

-- Four bytes are made, and the top one is dropped.
unfoldable pub add_u24 : ℕ → Builder → Builder
add_u24 u b = unless_failed b (append (take 3 (le_bytes 4 u)))

unfoldable pub add_u32 : ℕ → Builder → Builder
add_u32 u b = unless_failed b (append (le_bytes 4 u))

unfoldable pub add_u64 : ℕ → Builder → Builder
add_u64 u b = unless_failed b (append (le_bytes 8 u))

-- A float32 is its IEEE bit pattern, which `math.Float32bits` returns.
unfoldable pub add_f32 : ℕ → Builder → Builder
add_f32 f b = unless_failed b (append (le_bytes 4 f))

unfoldable pub add_bytes : List ℕ → Builder → Builder
add_bytes bin b = unless_failed b λ b. if length bin == 0 then b else append bin b

unfoldable pub add_u256 : List ℕ → Builder → Builder
unfolding add_bytes
add_u256 u b = unless_failed b (add_bytes u)

-- A Go string is a sequence of bytes.
unfoldable pub add_str255 : List ℕ → Builder → Builder
unfolding add_u8 add_bytes
add_str255 s b = unless_failed b λ b.
    let l = length s in if ltb 255 l then fail add_str_len b else b ▷ add_u8 (l % 256) ▷ add_bytes s

unfoldable pub add_bin32 : List ℕ → Builder → Builder
unfolding add_u8 add_bytes
add_bin32 s b = unless_failed b λ b.
    let l = length s in
    if ltb 32 l then fail add_bin32_len b else b ▷ add_u8 (l % 256) ▷ add_bytes s

unfoldable pub add_bin255 : List ℕ → Builder → Builder
unfolding add_u8 add_bytes
add_bin255 s b = unless_failed b λ b.
    let l = length s in
    if ltb 255 l then fail add_bin255_len b else b ▷ add_u8 (l % 256) ▷ add_bytes s

abbrev pub limit64k : ℕ
limit64k = 65535

-- `2 ^ 24 - 1` of Go: `^` is the exclusive or, and `^` and `-` associate to the left.
abbrev pub limit16m : ℕ
limit16m = bit_xor 2 24 - 1

unfoldable pub add_bin64k : List ℕ → Builder → Builder
unfolding add_u16 add_bytes
add_bin64k s b = unless_failed b λ b.
    let l = length s in
    if ltb limit64k l then fail add_bin64k_len b else b ▷ add_u16 (l % 65536) ▷ add_bytes s

-- `U24(l)` is a conversion to uint32.
unfoldable pub add_bin16m : List ℕ → Builder → Builder
unfolding add_u24 add_bytes
add_bin16m s b = unless_failed b λ b.
    let l = length s in
    if ltb limit16m l then fail add_bin16m_len b else b ▷ add_u24 (l % 4294967296) ▷ add_bytes s

unfoldable pub add_mac : List ℕ → Builder → Builder
unfolding add_bytes
add_mac mac b = b ▷ add_bytes mac

unfoldable pub add_pubkey : List ℕ → Builder → Builder
unfolding add_bytes
add_pubkey pubkey b = b ▷ add_bytes pubkey

unfoldable pub add_ellswift_pubkey : List ℕ → Builder → Builder
unfolding add_bytes
add_ellswift_pubkey pubkey b = b ▷ add_bytes pubkey

unfoldable pub add_signature : List ℕ → Builder → Builder
add_signature sig b = unless_failed b (append sig)

unfoldable pub add_short_tx_id : List ℕ → Builder → Builder
add_short_tx_id txid b = unless_failed b (append txid)
