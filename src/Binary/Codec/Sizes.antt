-- ===== src/Binary/Codec/Sizes.antt =====
-- How many bytes the builder's methods write.
use stratumv.Prelude.{
  ℕ, ◌+◌, ◌^◌, ◌<◌, ◌≤◌, ◌≡◌, refl, ap, arith, none, List, ◌++◌, length, length-append,
}
use stratumv.Binary.LittleEndian.{length-le_bytes}
use stratumv.Binary.Builder
use stratumv.Binary.Builder.{
  Builder, bytes, add_u8, add_u16, add_u32, add_f32, add_u256, add_bytes, add_str255, add_bin32,
}
use stratumv.Binary.Builder.Laws.{
  Writes, Writes-then, holding, add_u8-Writes, add_u16-Writes, add_u32-Writes, add_f32-Writes,
  add_u256-Writes, add_bytes-Writes,
}
use stratumv.Binary.Codec.Fields.{fitting_str255-Writes, fitting_bin32-Writes}

-- `op` writes `n` bytes.
pub record Sized (op : Builder → Builder) (n : ℕ) : Type 0 where
  pub wire : List ℕ
  pub writes : Writes op (holding wire)
  pub size : length wire ≡ n

pub Sized-then :
    {p q : Builder → Builder} {m n : ℕ} → Sized p m → Sized q n → Sized (λ b. q (p b)) (m + n)
Sized-then s t = record {
  wire = s.wire ++ t.wire;
  writes = Writes-then s.writes t.writes;
  size = omega (arith, length-append s.wire t.wire, s.size, t.size);
}

pub u8-Sized : (u : ℕ) → Sized (add_u8 u) 1
u8-Sized u = record { wire = _; writes = add_u8-Writes u; size = refl }

pub u16-Sized : (u : ℕ) → Sized (add_u16 u) 2
u16-Sized u = record { wire = _; writes = add_u16-Writes u; size = length-le_bytes 2 u }

pub u32-Sized : (u : ℕ) → Sized (add_u32 u) 4
u32-Sized u = record { wire = _; writes = add_u32-Writes u; size = length-le_bytes 4 u }

pub f32-Sized : (f : ℕ) → Sized (add_f32 f) 4
f32-Sized f = record { wire = _; writes = add_f32-Writes f; size = length-le_bytes 4 f }

pub u256-Sized : (u : List ℕ) → length u ≡ 32 → Sized (add_u256 u) 32
u256-Sized u h = record { wire = _; writes = add_u256-Writes u; size = h }

pub bytes-Sized : (bs : List ℕ) → Sized (add_bytes bs) (length bs)
bytes-Sized bs = record { wire = _; writes = add_bytes-Writes bs; size = refl }

pub str255-Sized : (s : List ℕ) → length s < 2 ^ 8 → Sized (add_str255 s) (1 + length s)
str255-Sized s h = record { wire = _; writes = fitting_str255-Writes s h; size = omega arith }

pub bin32-Sized : (s : List ℕ) → length s ≤ 32 → Sized (add_bin32 s) (1 + length s)
bin32-Sized s h = record { wire = _; writes = fitting_bin32-Writes s h; size = omega arith }

-- What a chain of calls writes.
pub bytes-size :
    {op : Builder → Builder} {n : ℕ}
    → Sized op n
    → (wire : List ℕ) × (bytes (op Builder.new) ≡ (wire, none)) × (length wire ≡ n)
unfolding bytes
bytes-size s = (s.wire, ap bytes (s.writes.at Builder.new), s.size)
