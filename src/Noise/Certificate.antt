-- ===== src/Noise/Certificate.antt =====
-- `SIGNATURE_NOISE_MESSAGE` of noise.go, and how it is signed and verified.
pub mod Verified
use stratumv.Prelude.{
  ℕ, ◌≡◌, ◌%◌, ◌<◌, ◌^◌, refl, Bool, true, false, not, Option, none, some, List, [], ◌∷◌, ◌++◌,
  length, replicate, ltb, ◌==◌, if◌then◌else◌,
}
use stratumv.Binary.Failure.{
  Failure, Result, ok, err, cert_len, cert_version, cert_not_yet_valid, cert_expired, bad_signature,
  bad_public_key, bad_point, not_signed,
}
use stratumv.Binary.Outcome.{Outcome, returns, panics, Slice, view, contents}
use stratumv.Binary.Builder
use stratumv.Binary.Builder.{◌▷◌, bytes, add_u16, add_u32, add_signature}
use stratumv.Binary.Reader.{◌>>=◌, pure, read_u16, read_u32, read_signature}
use stratumv.Binary.Codec.{run, RoundTrips, round_trip, Carries-then, Carries-end}
use stratumv.Binary.Codec.Fields.{u16-Carries, u32-Carries, signature-Carries}
use stratumv.Noise.Digest.{Sha256}
use stratumv.Noise.Secp256k1.{Secp256k1}

pub record SignatureNoiseMessage : Type 0 where
  pub version : ℕ
  pub valid_from : ℕ
  pub not_valid_after : ℕ
  pub signature : List ℕ

pub record IsValid (m : SignatureNoiseMessage) : Type 0 where
  pub version_fits : m.version < 2 ^ 16
  pub valid_from_fits : m.valid_from < 2 ^ 32
  pub not_valid_after_fits : m.not_valid_after < 2 ^ 32
  pub signature_fits : length m.signature ≡ 64

unfoldable pub encode : SignatureNoiseMessage → List ℕ × Option Failure
unfolding bytes
encode m = bytes (
    Builder.new
    ▷ add_u16 m.version
    ▷ add_u32 m.valid_from
    ▷ add_u32 m.not_valid_after
    ▷ add_signature m.signature)

unfoldable pub encode_no_sig : SignatureNoiseMessage → List ℕ × Option Failure
unfolding bytes
encode_no_sig m =
    bytes (Builder.new ▷ add_u16 m.version ▷ add_u32 m.valid_from ▷ add_u32 m.not_valid_after)

abbrev pub decode_fields : Slice → Outcome (SignatureNoiseMessage × Option Failure)
decode_fields = run do
  version ← read_u16
  valid_from ← read_u32
  not_valid_after ← read_u32
  signature ← read_signature
  pure (record {
    version = version;
    valid_from = valid_from;
    not_valid_after = not_valid_after;
    signature = signature;
  })

-- The value that `Decode` leaves in the receiver `m`, and its error.
unfoldable pub decode :
    Slice → SignatureNoiseMessage → Outcome (SignatureNoiseMessage × Option Failure)
unfolding run
decode b m = if not (length (contents b) == 74) then returns (m, some cert_len) else decode_fields b

-- `Signature{}`
abbrev pub zero_signature : List ℕ
zero_signature = replicate 64 0

-- `CertificateFormatVersion`
abbrev pub certificate_format_version : ℕ
certificate_format_version = 0

module _ (sha : Sha256) (curve : Secp256k1) where
  abbrev pub parsed_key : List ℕ → curve.Signature → Option curve.PublicKey → Bool × Option Failure
  parsed_key hash sig none = (false, some bad_public_key)
  parsed_key hash sig (some key) = (curve.verify sig hash key, none)

  abbrev pub parsed : List ℕ → List ℕ → Option curve.Signature → Bool × Option Failure
  parsed hash authority none = (false, some bad_signature)
  parsed hash authority (some sig) = parsed_key hash sig (curve.parse_public_key authority)

  abbrev pub encoded_no_sig :
      SignatureNoiseMessage → List ℕ → List ℕ → List ℕ × Option Failure → Bool × Option Failure
  encoded_no_sig cert authority static (buf, some e) = (false, some e)
  encoded_no_sig cert authority static (buf, none) =
      parsed (sha.sum_256 (buf ++ static)) authority (curve.parse_signature cert.signature)

  -- `now` is the time in seconds since 1970, which the code converts to a uint32.
  unfoldable pub verify_server_certificate :
      ℕ → SignatureNoiseMessage → List ℕ → List ℕ → Bool × Option Failure
  unfolding encode_no_sig
  verify_server_certificate now cert authority_pubkey static_pubkey =
      if not (cert.version == certificate_format_version)
      then (false, some cert_version)
      else if ltb (now % 4294967296) cert.valid_from
      then (false, some cert_not_yet_valid)
      else if ltb cert.not_valid_after (now % 4294967296)
      then (false, some cert_expired)
      else encoded_no_sig cert authority_pubkey static_pubkey (encode_no_sig cert)

  abbrev pub signed : SignatureNoiseMessage → Option (List ℕ) → Result SignatureNoiseMessage
  signed m none = err not_signed
  signed m (some sig) = ok (record m { signature = sig })

  abbrev encoded_unsigned :
      curve.PrivateKey
      → SignatureNoiseMessage
      → List ℕ
      → List ℕ × Option Failure
      → Result SignatureNoiseMessage
  encoded_unsigned key m static (buf, some e) = err e
  encoded_unsigned key m static (buf, none) =
      signed m (curve.sign key (sha.sum_256 (buf ++ static)))

  unfoldable pub new_signed_certificate :
      curve.PrivateKey → List ℕ → ℕ → ℕ → Result SignatureNoiseMessage
  unfolding encode_no_sig
  new_signed_certificate authority_privkey static_pubkey valid_from not_valid_after =
      let m : SignatureNoiseMessage = record {
        version = certificate_format_version;
        valid_from = valid_from;
        not_valid_after = not_valid_after;
        signature = zero_signature;
      } in
      encoded_unsigned authority_privkey m static_pubkey (encode_no_sig m)
