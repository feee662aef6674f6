-- ===== src/Noise/Keys.antt =====
-- `Keypair` and the authority keys of noise.go.
pub mod Storage
use stratumv.Prelude.{
  take, ltb, ℕ, ◌≡◌, ◌+◌, ◌<◌, ◌^◌, refl, ap, ◌∙◌, arith, Bool, not, ◌||◌, Option, none, some, List,
  [], ◌∷◌, ◌++◌, length, replicate, ◌==◌, if◌then◌else◌,
}
use stratumv.Binary.Failure.{Failure, Result, ok, err, bad_base58, bad_key_version}
use stratumv.Binary.Outcome.{Outcome, returns, panics, Slice}
use stratumv.Binary.Builder
use stratumv.Binary.Builder.{◌▷◌, bytes, add_u8, add_bytes}
use stratumv.Binary.Reader.{Read, ◌>>=◌, pure, read_bytes, read_u8, to_array}
use stratumv.Binary.Codec.{run}
use stratumv.Noise.Secp256k1.{Secp256k1}
use stratumv.Noise.Ellswift.{Draw, ellswift_recreate_from_bytes}

-- github.com/btcsuite/btcd/address/v2/base58, with a version of one byte.
pub record Base58 : Type 0 where
  pub check_encode : List ℕ → ℕ → List ℕ
  pub check_decode : List ℕ → Option (List ℕ × ℕ)
  pub check_decode-encode :
      (bs : List ℕ) (version : ℕ)
      → version < 256
      → check_decode (check_encode bs version) ≡ some (bs, version)

abbrev zero_ellswift : List ℕ
zero_ellswift = replicate 64 0

-- The stored private key, random bytes and case number.
-- `[32]byte(br.ReadBytes(32))`
abbrev pub read_array : ℕ → Read (List ℕ)
read_array n = do b ← read_bytes n; to_array n b

abbrev pub stored : Read (List ℕ × List ℕ × ℕ)
stored = do
  priv_key ← read_array 32
  aux_rand ← read_array 32
  case_num ← read_u8
  pure (priv_key, aux_rand, case_num)

module _ (curve : Secp256k1) where
  -- `Public` is the public key of `Private`, and is not kept here. A nil private key is `none`.
  pub record Keypair : Type 0 where
    pub private : Option curve.PrivateKey
    pub public_x : List ℕ
    pub public_ellswift : List ℕ
    pub aux_rand : List ℕ
    pub case_num : ℕ

  -- The keypair of what `EllswiftCreate` returned.
  unfoldable pub new_keypair : Draw curve → Keypair
  new_keypair d = record {
    private = some d.private;
    public_x = curve.public_x d.private;
    public_ellswift = d.ellswift;
    aux_rand = d.aux_rand;
    case_num = d.case_num;
  }

  unfoldable pub serialize_ellswift : Keypair → List ℕ
  serialize_ellswift kp = kp.public_ellswift

  unfoldable pub serialize_ellswift_bytes : Keypair → List ℕ
  serialize_ellswift_bytes kp = kp.public_ellswift

  unfoldable pub public_key_bytes : Keypair → List ℕ
  public_key_bytes kp = kp.public_x

  -- The conversion of a slice to an array panics if the slice is too short.
  unfoldable pub public_key : Keypair → Outcome (List ℕ)
  unfolding public_key_bytes
  public_key kp =
      if ltb (length (public_key_bytes kp)) 32
      then panics
      else returns (take 32 (public_key_bytes kp))

  abbrev pub recreated : List ℕ → ℕ → Result (curve.PrivateKey × List ℕ) → Result Keypair
  recreated aux_rand case_num (err e) = err e
  recreated aux_rand case_num (ok (k, e)) = ok (record {
    private = some k;
    public_x = curve.public_x k;
    public_ellswift = e;
    aux_rand = aux_rand;
    case_num = case_num;
  })

  unfoldable pub new_keypair_from : List ℕ → List ℕ → ℕ → Result Keypair
  unfolding ellswift_recreate_from_bytes
  new_keypair_from priv_key aux_rand case_num =
      recreated aux_rand case_num (ellswift_recreate_from_bytes curve priv_key aux_rand case_num)

  -- `Serialize` of a nil private key panics.
  unfoldable pub encode : Keypair → Outcome (List ℕ × Option Failure)
  unfolding bytes
  encode kp = elim kp.private [
    | none ↦ panics
    | some k ↦ returns (
        bytes (
          Builder.new ▷ add_bytes (curve.serialize k) ▷ add_bytes kp.aux_rand ▷ add_u8 kp.case_num))
  ]

  -- What `EllswiftRecreateFromBytes` returned is assigned to the fields, the nil key of an error
  -- too.
  abbrev pub assign_recreated :
      List ℕ → ℕ → Keypair → Result (curve.PrivateKey × List ℕ) → Keypair × Option Failure
  assign_recreated aux_rand case_num kp (err e) = (
    record kp {
      private = none;
      public_ellswift = zero_ellswift;
      aux_rand = aux_rand;
      case_num = case_num;
    },
    some e,
  )
  assign_recreated aux_rand case_num kp (ok (k, e)) = (
    record {
      private = some k;
      public_x = curve.public_x k;
      public_ellswift = e;
      aux_rand = aux_rand;
      case_num = case_num;
    },
    none,
  )

  -- The three fields as they are stored; the receiver has the last two also after an error.
  abbrev pub decoded :
      Keypair
      → Outcome ((List ℕ × List ℕ × ℕ) × Option Failure)
      → Outcome (Keypair × Option Failure)
  decoded kp panics = panics
  decoded kp (returns ((priv_key, aux_rand, case_num), some e)) =
      returns (record kp { aux_rand = aux_rand; case_num = case_num }, some e)
  decoded kp (returns ((priv_key, aux_rand, case_num), none)) = returns (
      assign_recreated aux_rand case_num kp
        (ellswift_recreate_from_bytes curve priv_key aux_rand case_num))

  unfoldable pub decode : Slice → Keypair → Outcome (Keypair × Option Failure)
  unfolding run ellswift_recreate_from_bytes
  decode b kp = decoded kp (run stored b)

-- `SerializeAuthorityKey`: the version [1, 0] is a version byte 1 and a first byte 0.
module _ (base58 : Base58) where
  unfoldable pub serialize_authority_key : List ℕ → List ℕ
  serialize_authority_key pubkey = base58.check_encode (0 ∷ pubkey) 1

  abbrev unprefixed : Option (List ℕ × ℕ) → Outcome (Result (List ℕ))
  unprefixed none = returns (err bad_base58)
  unprefixed (some ([], version)) =
      if not (version == 1) then returns (err bad_key_version) else panics
  unprefixed (some (first ∷ rest, version)) =
      if not (version == 1) || not (first == 0)
      then returns (err bad_key_version)
      else returns (ok rest)

  unfoldable pub deserialize_authority_key : List ℕ → Outcome (Result (List ℕ))
  deserialize_authority_key authority_key = unprefixed (base58.check_decode authority_key)
