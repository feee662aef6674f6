-- ===== src/Noise/Secp256k1.antt =====
-- The calls of btcec, ellswift and schnorr.
use stratumv.Prelude.{ℕ, ◌≡◌, ◌<◌, ◌++◌, Bool, true, false, Option, some, List, length, take, drop}

-- Keys, key agreement and signatures, with what their documentation says of them. `Encodes k e`:
-- the 64 bytes `e` are an ElligatorSwift encoding of the public key of `k`.
pub record Secp256k1 : Type 1 where
  -- `btcec.PrivateKey`, its bytes, and the X-coordinate of its public key.
  pub PrivateKey : Type 0
  pub serialize : PrivateKey → List ℕ
  pub public_x : PrivateKey → List ℕ
  -- `btcec.PrivKeyFromBytes`, and the X-coordinate of the public key as a field element: the point
  -- is computed in Jacobian coordinates.
  pub priv_key_from_bytes : List ℕ → PrivateKey
  pub JacobianPoint : Type 0
  pub FieldVal : Type 0
  pub scalar_base_mult : PrivateKey → JacobianPoint
  pub to_affine : JacobianPoint → JacobianPoint
  pub x : JacobianPoint → FieldVal
  -- `FieldVal.SetBytes`, with whether the number is not below the prime, `Normalize` and `Bytes`.
  pub set_bytes : List ℕ → FieldVal × Bool
  pub normalize : FieldVal → FieldVal
  pub field_bytes : FieldVal → List ℕ
  pub IsNormal : FieldVal → Type 0
  -- `ellswift.XSwiftECInv`, nil being `none`.
  pub x_swift_ec_inv : FieldVal → FieldVal → ℕ → Option FieldVal
  pub Encodes : PrivateKey → List ℕ → Type 0
  -- `ellswift.V2Ecdh`: the other's key, the own key, and whether this side is the initiator.
  pub v2_ecdh : PrivateKey → List ℕ → List ℕ → Bool → Option (List ℕ)
  -- `ellswift.XSwiftEC` of two field elements, and the bytes of the result.
  pub x_swift_ec : List ℕ → List ℕ → Option (List ℕ)
  -- `schnorr`: keys and signatures are parsed from bytes.
  pub Signature : Type 0
  pub PublicKey : Type 0
  pub sign : PrivateKey → List ℕ → Option (List ℕ)
  pub parse_signature : List ℕ → Option Signature
  pub parse_public_key : List ℕ → Option PublicKey
  pub verify : Signature → List ℕ → PublicKey → Bool
  pub length-serialize : (k : PrivateKey) → length (serialize k) ≡ 32
  pub priv_key_from_bytes-serialize : (k : PrivateKey) → priv_key_from_bytes (serialize k) ≡ k
  pub set_bytes-IsNormal : (bs : List ℕ) → (set_bytes bs).1 ≡ false → IsNormal (set_bytes bs).0
  pub normalize-IsNormal : (f : FieldVal) → IsNormal (normalize f)
  -- A field element that the inverse finds makes, with the first, an encoding.
  pub x_swift_ec_inv-Encodes :
      (k : PrivateKey) (u t : FieldVal) (case_num : ℕ)
      → case_num < 8
      → IsNormal u
      → x_swift_ec_inv u (x (to_affine (scalar_base_mult k))) case_num ≡ some t
      → Encodes k (field_bytes u ++ field_bytes t)
  pub length-public_x : (k : PrivateKey) → length (public_x k) ≡ 32
  pub length-Encodes : {k : PrivateKey} {e : List ℕ} → Encodes k e → length e ≡ 64
  -- Both sides compute the same secret from the other's encoded key.
  pub agreement :
      {k l : PrivateKey} {e f : List ℕ}
      → Encodes k e
      → Encodes l f
      → (secret : List ℕ) × (v2_ecdh k f e true ≡ some secret) × (v2_ecdh l e f false ≡ some secret)
  -- The encoding is decoded to the X-coordinate.
  pub x_swift_ec-Encodes :
      {k : PrivateKey} {e : List ℕ}
      → Encodes k e
      → x_swift_ec (take 32 e) (drop 32 e) ≡ some (public_x k)
  -- A signature is valid under the signer's public key.
  pub verify-sign :
      (k : PrivateKey) (hash sig : List ℕ)
      → sign k hash ≡ some sig
      → (length sig ≡ 64)
        × (s : Signature) × (p : PublicKey) × (parse_signature sig ≡ some s)
        × (parse_public_key (public_x k) ≡ some p)
        × (verify s hash p ≡ true)
