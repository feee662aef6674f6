-- ===== src/Tests/Handshake/Toys.antt =====
-- Concrete functions in place of the packages that the handshake calls. They meet the laws that are
-- asked for, and protect nothing.
use mathlib.Core.Path.{subst}
use stratumv.Prelude.{
  ℕ, ◌+◌, ◌≡◌, refl, ap, ◌∙◌, arith, true, Option, some, none, List, [], ◌∷◌, ◌++◌, length, take,
  replicate, length-take, length-append, zero, suc, ◌==◌, if◌then◌else◌, false,
}
use stratumv.U256.{equal_bytes}
use stratumv.Noise.Digest.{Sha256}
use stratumv.Noise.Secp256k1.{Secp256k1}
use stratumv.Noise.Ellswift.{Random}
use stratumv.Noise.Keys.{Base58}

abbrev pub first_bytes : List ℕ → List ℕ
first_bytes bs = take 32 (bs ++ replicate 32 0)

pub length-first_bytes : (bs : List ℕ) → length (first_bytes bs) ≡ 32
length-first_bytes bs =
    omega (arith, length-take 32 (bs ++ replicate 32 0), length-append bs (replicate 32 0))

abbrev pub truncating : Sha256
truncating = record { sum_256 = first_bytes; length-sum_256 = length-first_bytes }

abbrev pub head_of : List ℕ → ℕ
head_of [] = 0
head_of (x ∷ xs) = x

abbrev pub IsRepeated : ℕ → List ℕ → Type 0
IsRepeated k e = e ≡ replicate 64 k

pub agree :
    (k l : ℕ) (e f : List ℕ)
    → IsRepeated k e
    → IsRepeated l f
    → (secret : List ℕ) × (some (replicate 32 (k + head_of f)) ≡ some secret)
      × (some (replicate 32 (l + head_of e)) ≡ some secret)
agree k l e f he hf = (
  replicate 32 (k + l),
  ap (λ x. some (replicate 32 (k + head_of x))) hf,
  ap (λ x. some (replicate 32 (l + head_of x))) he ∙ ap (λ x. some (replicate 32 x)) (omega arith),
)

equal_bytes_self : (bs : List ℕ) → equal_bytes bs bs ≡ true
equal_bytes_self [] = refl
equal_bytes_self (b ∷ bs) = ground (arith, equal_bytes_self bs)

abbrev pub Signs : ℕ → List ℕ → Type 0
Signs k sig =
    (length sig ≡ 64)
    × (s : List ℕ) × (p : List ℕ) × (some sig ≡ some s)
    × (some (replicate 32 k) ≡ some p)
    × (equal_bytes (take 32 s) p ≡ true)

abbrev or_nil : Option (List ℕ) → List ℕ
or_nil none = []
or_nil (some bs) = bs

pub signs : (k : ℕ) (sig : List ℕ) → some (replicate 64 k) ≡ some sig → Signs k sig
signs k sig h =
    subst (Signs k) (ap or_nil h)
      (refl, replicate 64 k, replicate 32 k, refl, refl, equal_bytes_self (replicate 32 k))

pub size : (k : ℕ) (e : List ℕ) → IsRepeated k e → length e ≡ 64
size k e h = ap length h

pub halves : (k : ℕ) (e : List ℕ) → IsRepeated k e → some (take 32 e) ≡ some (replicate 32 k)
halves k e h = ap (λ x. some (take 32 x)) h

-- A field element is a number too, and its own inverse exists only for itself.
abbrev pub self_inverse : ℕ → ℕ → ℕ → Option ℕ
self_inverse u x case_num = if u == x then some x else none

self_inverse_lem : (u x t case_num : ℕ) → self_inverse u x case_num ≡ some t → (u ≡ x) × (t ≡ x)
self_inverse_lem u x t case_num h = ground arith

pub self_inverse-IsRepeated :
    (k u t case_num : ℕ)
    → self_inverse u k case_num ≡ some t
    → IsRepeated k (replicate 32 u ++ replicate 32 t)
self_inverse-IsRepeated k u t case_num h =
    let (e, f) = self_inverse_lem u k t case_num h in
    ap (λ x. replicate 32 x ++ replicate 32 t) e ∙ ap (λ x. replicate 32 k ++ replicate 32 x) f

-- Random bytes: each read takes one number off a list, and repeats it.
abbrev pub repeating : ℕ → List ℕ → Option (List ℕ) × List ℕ
repeating n [] = (none, [])
repeating n (b ∷ bs) = (some (replicate n b), bs)

length-replicate : (n b : ℕ) → length (replicate n b) ≡ n
length-replicate zero b = refl
length-replicate (suc n) b = omega (arith, length-replicate n b)

pub length-repeating : (n : ℕ) (s bs : List ℕ) → (repeating n s).0 ≡ some bs → length bs ≡ n
length-repeating n [] bs h = cc
length-repeating n (b ∷ s) bs h = subst (λ x. length x ≡ n) (ap or_nil h) (length-replicate n b)

abbrev pub listed_random : Random
listed_random = record {
  Source = List ℕ;
  read = repeating;
  length-read = λ n s bs h. length-repeating n s bs h;
}

-- A private key is a number, and stands for itself everywhere.
abbrev pub open_curve : Secp256k1
open_curve = record {
  PrivateKey = ℕ;
  serialize = λ k. replicate 32 k;
  public_x = λ k. replicate 32 k;
  priv_key_from_bytes = head_of;
  JacobianPoint = ℕ;
  FieldVal = ℕ;
  scalar_base_mult = λ k. k;
  to_affine = λ p. p;
  x = λ p. p;
  set_bytes = λ bs. (head_of bs, false);
  normalize = λ f. f;
  field_bytes = λ f. replicate 32 f;
  IsNormal = λ f. Unit {0};
  x_swift_ec_inv = self_inverse;
  priv_key_from_bytes-serialize = λ k. refl;
  set_bytes-IsNormal = λ bs h. tt;
  normalize-IsNormal = λ f. tt;
  x_swift_ec_inv-Encodes = λ k u t case_num hc hu h. self_inverse-IsRepeated k u t case_num h;
  Encodes = IsRepeated;
  v2_ecdh = λ k f e initiator. some (replicate 32 (k + head_of f));
  x_swift_ec = λ u t. some u;
  Signature = List ℕ;
  PublicKey = List ℕ;
  sign = λ k hash. some (replicate 64 k);
  parse_signature = λ bs. some bs;
  parse_public_key = λ bs. some bs;
  verify = λ s hash p. equal_bytes (take 32 s) p;
  length-serialize = λ k. refl;
  length-public_x = λ k. refl;
  length-Encodes = λ {k} {e} h. size k e h;
  agreement = λ {k} {l} {e} {f} he hf. agree k l e f he hf;
  x_swift_ec-Encodes = λ {k} {e} h. halves k e h;
  verify-sign = λ k hash sig h. signs k sig h;
}

-- The version before the bytes.
abbrev pub unversioned : List ℕ → Option (List ℕ × ℕ)
unversioned [] = none
unversioned (version ∷ bs) = some (bs, version)

abbrev pub plain_base58 : Base58
plain_base58 = record {
  check_encode = λ bs version. version ∷ bs;
  check_decode = unversioned;
  check_decode-encode = λ bs version h. refl;
}
