-- ===== src/Noise/Digest.antt =====
-- The hash functions of noise.go: `HmacHash`, `HKDF`, `TaggedHash` and `handshakeInit`.
use Prim.Native.Nat.{bit_xor}
use mathlib.Core.List.{map}
use stratumv.Prelude.{
  ascii, ℕ, ◌-◌, ◌≡◌, List, [], ◌∷◌, ◌++◌, length, replicate, ltb, if◌then◌else◌,
}

-- github.com/minio/sha256-simd: the digest of some bytes has 32 bytes. A conversion of a digest to
-- [32]byte is therefore the digest.
pub record Sha256 : Type 0 where
  pub sum_256 : List ℕ → List ℕ
  pub length-sum_256 : (bs : List ℕ) → length (sum_256 bs) ≡ 32

-- A `hash.Hash` is the bytes that have been written to it. `Sum(b)` appends the digest to `b` and
-- leaves the hash as it is.
abbrev pub Hash : Type 0
Hash = List ℕ

abbrev pub reset : Hash
reset = []

infixl 6 ◌write◌
abbrev pub ◌write◌ : Hash → List ℕ → Hash
hash write bs = hash ++ bs

-- `ProtocolName`
abbrev pub protocol_name : List ℕ
protocol_name = ascii "Noise_NX_Secp256k1+EllSwift_ChaChaPoly_SHA256"

module _ (sha : Sha256) where
  abbrev pub sum : Hash → List ℕ → List ℕ
  sum hash b = b ++ sha.sum_256 hash

  -- crypto/hmac with blocks of 64 bytes: a longer key is hashed, and a key is filled up with zeros.
  abbrev block : List ℕ → List ℕ
  block key =
      let short = if ltb 64 (length key) then sha.sum_256 key else key in
      short ++ replicate (64 - length short) 0

  abbrev hmac : List ℕ → List ℕ → List ℕ
  hmac key bs =
      let inner = sha.sum_256 (map (bit_xor 0x36) (block key) ++ bs) in
      sha.sum_256 (map (bit_xor 0x5c) (block key) ++ inner)

  unfoldable pub hmac_hash : List ℕ → List ℕ → List ℕ
  hmac_hash key bs = hmac key bs

  unfoldable pub hkdf : List ℕ → List ℕ → List ℕ × List ℕ
  unfolding hmac_hash
  hkdf chaining_key input_key_material =
      let temp = hmac_hash chaining_key input_key_material in
      let out1 = hmac_hash temp (1 ∷ []) in
      let out2 = hmac_hash temp (out1 ++ 2 ∷ []) in (out1, out2)

  -- The tag is what `hash.Sum` appends the digest of no bytes to.
  unfoldable pub tagged_hash : List ℕ → List ℕ → List ℕ → List ℕ
  tagged_hash a b c =
      let tag = sum reset (ascii "bip324_ellswift_xonly_ecdh") in
      sum (reset write tag write tag write a write b write c) []

  -- The initial chaining key, and the initial handshake hash.
  unfoldable pub handshake_init : List ℕ × List ℕ
  handshake_init =
      let digest = sum (reset write protocol_name) [] in
      let hash_output = sum (reset write digest) [] in (digest, hash_output)

  pub length-hkdf :
      (ck ikm : List ℕ) → (length (hkdf ck ikm).0 ≡ 32) × (length (hkdf ck ikm).1 ≡ 32)
  unfolding hkdf
  length-hkdf ck ikm = (sha.length-sum_256 _, sha.length-sum_256 _)
