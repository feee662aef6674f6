-- ===== src/Binary/Reader/Laws.antt =====
-- Reads in general: what they keep, and when they panic.
use stratumv.Prelude.{
  ℕ, ◌≤◌, ◌≡◌, ◌∙◌, refl, arith, Bool, true, false, Option, none, some, List, length, if◌then◌else◌,
}
use stratumv.Prelude.Int.{ℤ}
use stratumv.Binary.Failure.{Failure}
use stratumv.Binary.Outcome.{Outcome, returns, panics, Slice, nil, view, contents}
use stratumv.Binary.Reader.{
  Reader, Read, read, read_bool, read_u8, read_u16, read_u24, read_u32, read_u64, read_f32,
  read_u256, read_str255, read_bin32, read_bin255, read_bin64k, read_bin16m, read_bytes,
  read_pubkey, read_ellswift_pubkey, read_signature, read_into, seek, Whence, resume, pure,
  unless_failed, unless_nil, set_err, ◌>>=◌, to_array, u256_of_slice, bool_of_slice,
}

-- The position lies in the data.
abbrev pub IsValid : Reader → Type 0
IsValid r = r.pos ≤ length (contents r.input)

-- If `m` returns, the position is still in the data, and the data are the same.
abbrev pub Good : Reader → Reader → Type 0
Good r r' = IsValid r' × (r'.input ≡ r.input)

abbrev pub GoodOutcome {ℓ} : {A : Type ℓ} → Reader → Outcome (A × Reader) → Type 0
GoodOutcome r (returns (v, r')) = Good r r'
GoodOutcome r panics = Unit

pub record Keeps {ℓ} {A : Type ℓ} (m : Read A) : Type 0 where
  pub at : (r : Reader) → IsValid r → GoodOutcome r (m r)

module _ {ℓ} {A : Type ℓ} where
  pub Keeps-pure : (a : A) → Keeps (pure a)
  Keeps-pure a = record { at = λ r h. (h, refl) }

  pub Keeps-unless_failed : (d : A) (m : Read A) → Keeps m → Keeps (unless_failed d m)
  Keeps-unless_failed d m k = record { at = λ r h. go r h (r.err) (k.at r h) }
    where
      go :
          (r : Reader)
          → IsValid r
          → (e : Option Failure) → GoodOutcome r (m r)
          → GoodOutcome r (elim e [ some x ↦ returns (d, r) | none ↦ m r ])
      go r h none g = g
      go r h (some x) g = (h, refl)

  pub Keeps-unless_nil : (d : A) (b : Slice) (f : List ℕ → Outcome A) → Keeps (unless_nil d b f)
  Keeps-unless_nil d nil f = record { at = λ r h. (h, refl) }
  Keeps-unless_nil d (view bs) f = record { at = λ r h. go r h (f bs) }
    where
      go :
          (r : Reader)
          → IsValid r
          → (o : Outcome A)
          → GoodOutcome r (elim o [ returns a ↦ returns (a, r) | panics ↦ panics ])
      go r h (returns a) = (h, refl)
      go r h panics = tt

pub Keeps-set_err : (e : Option Failure) → Keeps (set_err e)
Keeps-set_err e = record { at = λ r h. (h, refl) }

module _ {ℓ κ} {A : Type ℓ} {B : Type κ} where
  pub Keeps-bind :
      (m : Read A) (k : A → Read B) → Keeps m → ((a : A) → Keeps (k a)) → Keeps (m >>= k)
  Keeps-bind m k km kk = record { at = λ r h. go r (m r) (km.at r h) }
    where
      onward :
          (r r' : Reader)
          → Good r r'
          → (o : Outcome (B × Reader)) → GoodOutcome r' o
          → GoodOutcome r o
      onward r r' g (returns (b, r'')) g' = (g'.0, g'.1 ∙ g.1)
      onward r r' g panics g' = tt

      go : (r : Reader) (o : Outcome (A × Reader)) → GoodOutcome r o → GoodOutcome r (resume k o)
      go r (returns (a, r')) g = onward r r' g (k a r') ((kk a).at r' g.0)
      go r panics g = tt

pub Keeps-read : (l : ℕ) → Keeps (read l)
unfolding read
Keeps-read l = record { at = λ r h. ground arith }

pub Keeps-to_array : (n : ℕ) (b : Slice) → Keeps (to_array n b)
Keeps-to_array n b = record { at = λ r h. ground arith }

pub Keeps-u256_of_slice : (b : Slice) → Keeps (u256_of_slice b)
Keeps-u256_of_slice nil = record { at = λ r h. (h, refl) }
Keeps-u256_of_slice (view bs) = record { at = λ r h. (h, refl) }

pub Keeps-bool_of_slice : (b : Slice) → Keeps (bool_of_slice b)
Keeps-bool_of_slice b = record { at = λ r h. ground arith }

pub Keeps-if {ℓ} :
    {A : Type ℓ} (b : Bool) (m n : Read A) → Keeps m → Keeps n → Keeps (λ r. (if b then m else n) r)
Keeps-if true m n km kn = km
Keeps-if false m n km kn = kn

pub ruleset keeps_rules = (
  Keeps-pure, Keeps-unless_failed, Keeps-unless_nil, Keeps-set_err, Keeps-bind, Keeps-read,
  Keeps-to_array, Keeps-u256_of_slice, Keeps-bool_of_slice, Keeps-if,
)

pub Keeps-read_bool : Keeps read_bool
unfolding read_bool
Keeps-read_bool = search keeps_rules

pub Keeps-read_u8 : Keeps read_u8
unfolding read_u8
Keeps-read_u8 = search keeps_rules

pub Keeps-read_u256 : Keeps read_u256
unfolding read_u256
Keeps-read_u256 = search keeps_rules

pub Keeps-read_u16 : Keeps read_u16
unfolding read_u16
Keeps-read_u16 = search keeps_rules

pub Keeps-read_u24 : Keeps read_u24
unfolding read_u24
Keeps-read_u24 = search keeps_rules

pub Keeps-read_u32 : Keeps read_u32
unfolding read_u32
Keeps-read_u32 = search keeps_rules

pub Keeps-read_u64 : Keeps read_u64
unfolding read_u64
Keeps-read_u64 = search keeps_rules

pub Keeps-read_f32 : Keeps read_f32
unfolding read_f32
Keeps-read_f32 = search keeps_rules

pub Keeps-read_pubkey : Keeps read_pubkey
unfolding read_pubkey
Keeps-read_pubkey = search keeps_rules

pub Keeps-read_ellswift_pubkey : Keeps read_ellswift_pubkey
unfolding read_ellswift_pubkey
Keeps-read_ellswift_pubkey = search keeps_rules

pub Keeps-read_signature : Keeps read_signature
unfolding read_signature
Keeps-read_signature = search keeps_rules

pub Keeps-read_bytes : (l : ℕ) → Keeps (read_bytes l)
unfolding read_bytes
Keeps-read_bytes l = search keeps_rules

pub Keeps-read_str255 : Keeps read_str255
unfolding read_str255
Keeps-read_str255 = search (keeps_rules, Keeps-read_u8)

pub Keeps-read_bin32 : Keeps read_bin32
unfolding read_bin32
Keeps-read_bin32 = search (keeps_rules, Keeps-read_u8)

pub Keeps-read_bin255 : Keeps read_bin255
unfolding read_bin255
Keeps-read_bin255 = search (keeps_rules, Keeps-read_u8)

pub Keeps-read_bin64k : Keeps read_bin64k
unfolding read_bin64k
Keeps-read_bin64k = search (keeps_rules, Keeps-read_u16)

pub Keeps-read_bin16m : Keeps read_bin16m
unfolding read_bin16m
Keeps-read_bin16m = search (keeps_rules, Keeps-read_u24)

pub Keeps-read_into : (dest : List ℕ) → Keeps (read_into dest)
unfolding read_into read
Keeps-read_into dest = record { at = λ r h. ground arith }

pub Keeps-seek : (offset : ℤ) (whence : Whence) → Keeps (seek offset whence)
unfolding seek
Keeps-seek offset whence = record { at = λ r h. ground arith }
