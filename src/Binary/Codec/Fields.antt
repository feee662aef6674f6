-- ===== src/Binary/Codec/Fields.antt =====
-- The fields of the messages: each method of the builder with the reader's method of the same name.
use stratumv.Prelude.{
  ◌++◌, ℕ, ◌^◌, ◌<◌, ◌≤◌, ◌≡◌, refl, arith, Bool, false, List, length, ltb, All, [],
}
use stratumv.Binary.LittleEndian.{le_bytes}
use stratumv.Binary.Builder.{
  add_bool, add_u8, add_u16, add_u24, add_u32, add_u64, add_f32, add_u256, add_str255, add_bin32,
  add_bin255, add_bin64k, add_signature,
}
use stratumv.Binary.Builder.Laws.{
  Writes, holding, add_bool-Writes, add_u8-Writes, add_u16-Writes, add_u24-Writes, add_u32-Writes,
  add_u64-Writes, add_f32-Writes, add_u256-Writes, add_str255-Writes, add_bin32-Writes,
  add_bin255-Writes, add_bin64k-Writes, add_signature-Writes,
}
use stratumv.Binary.Reader.{
  ◌>>=◌, contents_of, read_bool, read_u8, read_u16, read_u24, read_u32, read_u64, read_f32,
  read_u256, read_str255, read_bin32, read_bin255, read_bin64k, read_signature,
}
use stratumv.Binary.Reader.ReadsBack.{
  read_bool-Reads, read_u8-Reads, read_u16-Reads, read_u24-Reads, read_u32-Reads, read_u64-Reads,
  read_f32-Reads, read_u256-Reads, read_str255-Reads, read_bin32-Reads, read_bin255-Reads,
  read_bin64k-Reads, read_signature-Reads, contents-Reads, Reads-bind,
}
use stratumv.Binary.Sequence.{
  u32s, u256s, len, add_option_t, add_seq255, add_seq64k, read_each, read_option_t, read_seq255,
  assert_u32s, assert_u256s,
}
use stratumv.Binary.Sequence.RoundTrip.{option_t-Carries, seq255-Carries, u32s-Writes, u32s-Reads}
use stratumv.Binary.Codec.{Carries, Carries-map}

pub bool-Carries : (v : Bool) → Carries (add_bool v) read_bool v
bool-Carries v = record { wire = _; writes = add_bool-Writes v; reads = read_bool-Reads v }

pub u8-Carries : (v : ℕ) → v < 2 ^ 8 → Carries (add_u8 v) read_u8 v
u8-Carries v h = record { wire = _; writes = add_u8-Writes v; reads = read_u8-Reads v h }

pub u16-Carries : (v : ℕ) → v < 2 ^ 16 → Carries (add_u16 v) read_u16 v
u16-Carries v h = record { wire = _; writes = add_u16-Writes v; reads = read_u16-Reads v h }

pub u24-Carries : (v : ℕ) → v < 2 ^ 24 → Carries (add_u24 v) read_u24 v
u24-Carries v h = record { wire = _; writes = add_u24-Writes v; reads = read_u24-Reads v h }

pub u32-Carries : (v : ℕ) → v < 2 ^ 32 → Carries (add_u32 v) read_u32 v
u32-Carries v h = record { wire = _; writes = add_u32-Writes v; reads = read_u32-Reads v h }

pub u64-Carries : (v : ℕ) → v < 2 ^ 64 → Carries (add_u64 v) read_u64 v
u64-Carries v h = record { wire = _; writes = add_u64-Writes v; reads = read_u64-Reads v h }

pub f32-Carries : (v : ℕ) → v < 2 ^ 32 → Carries (add_f32 v) read_f32 v
f32-Carries v h = record { wire = _; writes = add_f32-Writes v; reads = read_f32-Reads v h }

pub u256-Carries : (v : List ℕ) → length v ≡ 32 → Carries (add_u256 v) read_u256 v
u256-Carries v h = record { wire = _; writes = add_u256-Writes v; reads = read_u256-Reads v h }

pub signature-Carries : (v : List ℕ) → length v ≡ 64 → Carries (add_signature v) read_signature v
signature-Carries v h = record {
  wire = _;
  writes = add_signature-Writes v;
  reads = read_signature-Reads v h;
}

-- A string that fits is not cut.
pub fitting_str255-Writes :
    (s : List ℕ) → length s < 2 ^ 8 → Writes (add_str255 s) (holding (le_bytes 1 (length s) ++ s))
fitting_str255-Writes s h = rw within at (add_str255-Writes s)
  where
    within : ltb 255 (length s) ≡ false
    within = ground arith

pub str255-Carries : (s : List ℕ) → length s < 2 ^ 8 → Carries (add_str255 s) read_str255 s
str255-Carries s h = record {
  wire = _;
  writes = fitting_str255-Writes s h;
  reads = read_str255-Reads s h;
}

pub fitting_bin32-Writes :
    (s : List ℕ) → length s ≤ 32 → Writes (add_bin32 s) (holding (le_bytes 1 (length s) ++ s))
fitting_bin32-Writes s h = rw within at (add_bin32-Writes s)
  where
    within : ltb 32 (length s) ≡ false
    within = ground arith

pub bin32-Carries : (s : List ℕ) → length s ≤ 32 → Carries (add_bin32 s) (contents_of read_bin32) s
bin32-Carries s h = record {
  wire = _;
  writes = fitting_bin32-Writes s h;
  reads = contents-Reads (read_bin32-Reads s h);
}

pub bin255-Carries :
    (s : List ℕ) → length s < 2 ^ 8 → Carries (add_bin255 s) (contents_of read_bin255) s
bin255-Carries s h = record {
  wire = _;
  writes = rw within at (add_bin255-Writes s);
  reads = contents-Reads (read_bin255-Reads s h);
}
  where
    within : ltb 255 (length s) ≡ false
    within = ground arith

pub bin64k-Carries :
    (s : List ℕ) → length s < 2 ^ 16 → Carries (add_bin64k s) (contents_of read_bin64k) s
bin64k-Carries s h = record {
  wire = _;
  writes = rw within at (add_bin64k-Writes s);
  reads = contents-Reads (read_bin64k-Reads s h);
}
  where
    within : ltb 65535 (length s) ≡ false
    within = ground arith

-- An optional u32, a list of hashes and a list of u32, as the messages read them.
pub option_u32-Carries :
    (v : List ℕ)
    → All (λ x. x < 2 ^ 32) v
    → length v ≤ 1
    → Carries (add_option_t (u32s v)) (do x ← read_option_t (u32s []); assert_u32s x) v
unfolding len
option_u32-Carries v h l = Carries-map assert_u32s (option_t-Carries (u32s v) h l) (λ r. refl)

pub hashes-Carries :
    (v : List (List ℕ))
    → All (λ x. length x ≡ 32) v
    → length v ≤ 255
    → Carries (add_seq255 (u256s v)) (do x ← read_seq255 (u256s []); assert_u256s x) v
unfolding len
hashes-Carries v h l = Carries-map assert_u256s (seq255-Carries (u256s v) h l) (λ r. refl)

-- `SetGroupChannel` reads the length and the elements itself.
pub u32_list-Carries :
    (v : List ℕ)
    → All (λ x. x < 2 ^ 32) v
    → length v ≤ 65535
    → Carries (add_seq64k (u32s v)) (do l ← read_u16; read_each read_u32 l) v
u32_list-Carries v h l = record {
  wire = _;
  writes = u32s-Writes v l;
  reads = Reads-bind _ (read_u16-Reads (length v) (omega arith)) (u32s-Reads v h);
}
