-- ===== src/Noise/Certificate/Verified.antt =====
-- Which certificates are verified.
use mathlib.Core.Path.{subst}
use stratumv.Prelude.{
  ℕ, ◌≡◌, ◌%◌, ◌≤◌, ◌^◌, ◌↔◌, refl, sym, ap, ◌∙◌, arith, Bool, true, false, not, ltb, ◌==◌,
  if◌then◌else◌, Option, none, some, List, [], ◌++◌, append-nil, length,
}
use stratumv.Binary.Failure.{Failure, ok}
use stratumv.Binary.Outcome.{returns, view}
use stratumv.Binary.LittleEndian.{le_bytes}
use stratumv.Binary.Builder
use stratumv.Binary.Builder.{bytes}
use stratumv.Binary.Builder.Laws.{Writes-then, add_u16-Writes, add_u32-Writes, add_signature-Writes}
use stratumv.Binary.Codec.{RoundTrips, round_trip, Carries-then, Carries-end}
use stratumv.Binary.Codec.Fields.{u16-Carries, u32-Carries, signature-Carries}
use stratumv.Noise.Digest.{Sha256}
use stratumv.Noise.Secp256k1.{Secp256k1}
use stratumv.Noise.Certificate.{
  SignatureNoiseMessage, IsValid, encode, encode_no_sig, decode, decode_fields, parsed_key, parsed,
  signed, zero_signature, verify_server_certificate, new_signed_certificate,
}

-- The bytes that are signed, before the static public key.
abbrev pub unsigned_wire : SignatureNoiseMessage → List ℕ
unsigned_wire m = le_bytes 2 m.version ++ (le_bytes 4 m.valid_from ++ le_bytes 4 m.not_valid_after)

encode_no_sig_lem : (m : SignatureNoiseMessage) → encode_no_sig m ≡ (unsigned_wire m, none)
unfolding encode_no_sig
encode_no_sig_lem m =
    ap bytes (
      (Writes-then (add_u16-Writes m.version)
          (Writes-then (add_u32-Writes m.valid_from) (add_u32-Writes m.not_valid_after))).at
        Builder.new)
    ∙ unfold bytes in refl

fields-RoundTrips : (m : SignatureNoiseMessage) → IsValid m → RoundTrips (encode m) decode_fields m
unfolding encode
fields-RoundTrips m v = round_trip (
    Carries-then _ (u16-Carries m.version v.version_fits) (
      Carries-then _ (u32-Carries m.valid_from v.valid_from_fits) (
        Carries-then _ (u32-Carries m.not_valid_after v.not_valid_after_fits)
          (Carries-then _ (signature-Carries m.signature v.signature_fits) (Carries-end m)))))

encode_lem : (m : SignatureNoiseMessage) → encode m ≡ (unsigned_wire m ++ m.signature, none)
unfolding encode
encode_lem m =
    ap bytes (
      (Writes-then (add_u16-Writes m.version) (
          Writes-then (add_u32-Writes m.valid_from)
            (Writes-then (add_u32-Writes m.not_valid_after) (add_signature-Writes m.signature)))).at
        Builder.new)
    ∙ unfold bytes in refl

-- A certificate whose values fit is encoded in 74 bytes with no error, and `Decode` into any
-- receiver reads it back with no error.
pub decode-encode_cert :
    (m g : SignatureNoiseMessage)
    → IsValid m
    → ((encode m).1 ≡ none)
      × (length (encode m).0 ≡ 74)
      × (decode (view (encode m).0) g ≡ returns (m, none))
unfolding decode
decode-encode_cert m g v = (plain.0, size, rw (size) (rw (append-nil (encode m).0) at (plain.1 [])))
  where
    plain : RoundTrips (encode m) decode_fields m
    plain = fields-RoundTrips m v

    size : length (encode m).0 ≡ 74
    size = rw (encode_lem m) (omega (arith, v.signature_fits))

-- A check that has passed.
passed :
    (b : Bool) (e : Failure) {x : Bool × Option Failure}
    → (if b then (false, some e) else x) ≡ (true, none)
    → (b ≡ false) × (x ≡ (true, none))
passed true e h = cc
passed false e h = (refl, h)

module _ (sha : Sha256) (curve : Secp256k1) where
  parsed_key-true :
      (hash : List ℕ) (sig : curve.Signature) (o : Option curve.PublicKey)
      → parsed_key sha curve hash sig o ≡ (true, none)
      → (key : curve.PublicKey) × (o ≡ some key) × (curve.verify sig hash key ≡ true)
  parsed_key-true hash sig none h = cc
  parsed_key-true hash sig (some key) h = (key, refl, ap (λ r. r.0) h)

  -- What makes a certificate for the static key `static` good at the time `now`.
  pub record IsGood (now : ℕ) (cert : SignatureNoiseMessage) (authority static : List ℕ)
      : Type 0 where
    pub current_version : cert.version ≡ 0
    pub begun : cert.valid_from ≤ now % 2 ^ 32
    pub not_over : now % 2 ^ 32 ≤ cert.not_valid_after
    pub sig : curve.Signature
    pub sig_parsed : curve.parse_signature cert.signature ≡ some sig
    pub key : curve.PublicKey
    pub key_parsed : curve.parse_public_key authority ≡ some key
    pub verified : curve.verify sig (sha.sum_256 (unsigned_wire cert ++ static)) key ≡ true

  module _ (now : ℕ) (cert : SignatureNoiseMessage) (authority static : List ℕ) where
    IsGood-verified :
        IsGood now cert authority static
        → verify_server_certificate sha curve now cert authority static ≡ (true, none)
    unfolding verify_server_certificate
    IsGood-verified g =
        ground (arith, encode_no_sig_lem cert, g.sig_parsed, g.key_parsed, g.verified)

    parsed-IsGood :
        (o : Option curve.Signature)
        → curve.parse_signature cert.signature ≡ o
        → parsed sha curve (sha.sum_256 (unsigned_wire cert ++ static)) authority o ≡ (true, none)
        → cert.version ≡ 0
        → cert.valid_from ≤ now % 2 ^ 32
        → now % 2 ^ 32 ≤ cert.not_valid_after
        → IsGood now cert authority static
    parsed-IsGood none e h v f u = cc
    parsed-IsGood (some sig) e h v f u =
        let (key, key_parsed, verified) = parsed_key-true _ sig _ h in
        record {
          current_version = v;
          begun = f;
          not_over = u;
          sig = sig;
          sig_parsed = e;
          key = key;
          key_parsed = key_parsed;
          verified = verified;
        }

    verified-IsGood :
        verify_server_certificate sha curve now cert authority static ≡ (true, none)
        → IsGood now cert authority static
    unfolding verify_server_certificate
    verified-IsGood h =
        let (current, dated) = passed (not (cert.version == 0)) _ h in
        let (begun, started) = passed (ltb (now % 4294967296) cert.valid_from) _ dated in
        let (lasting, checked) = passed (ltb cert.not_valid_after (now % 4294967296)) _ started in
        parsed-IsGood _ refl (rw (encode_no_sig_lem cert) at checked) (ground arith) (ground arith)
          (ground arith)

    -- `VerifyServerCertificate` answers true with no error exactly for the certificates that are
    -- good: of version 0, begun and not over at the time of the call, and signed for the static key
    -- by the authority's key, where both the signature and the key can be parsed.
    pub verified_iff :
        (verify_server_certificate sha curve now cert authority static ≡ (true, none))
        ↔ IsGood now cert authority static
    verified_iff = (verified-IsGood, IsGood-verified)

  abbrev unsigned : ℕ → ℕ → SignatureNoiseMessage
  unsigned valid_from not_valid_after = record {
    version = 0;
    valid_from = valid_from;
    not_valid_after = not_valid_after;
    signature = zero_signature;
  }

  signed-eq-ok :
      (m : SignatureNoiseMessage) (o : Option (List ℕ)) {cert : SignatureNoiseMessage}
      → signed sha curve m o ≡ ok cert
      → (sig : List ℕ) × (o ≡ some sig) × (record m { signature = sig } ≡ cert)
  signed-eq-ok m none h = cc
  signed-eq-ok m (some sig) h = (sig, refl, cc)

  -- The version and the dates of a certificate that was signed.
  pub new_signed_certificate-dates :
      (authority : curve.PrivateKey) (static : List ℕ) (valid_from not_valid_after : ℕ)
      {cert : SignatureNoiseMessage}
      → new_signed_certificate sha curve authority static valid_from not_valid_after ≡ ok cert
      → (cert.version ≡ 0)
        × (cert.valid_from ≡ valid_from)
        × (cert.not_valid_after ≡ not_valid_after)
  unfolding new_signed_certificate
  new_signed_certificate-dates authority static valid_from not_valid_after h =
      let m = unsigned valid_from not_valid_after in
      let (sig, made, same) = signed-eq-ok m _ (rw (encode_no_sig_lem m) at h) in
      (
        sym (ap (λ c. c.version) same),
        sym (ap (λ c. c.valid_from) same),
        sym (ap (λ c. c.not_valid_after) same),
      )

  -- A certificate that `NewSignedCertificate` makes with an authority's private key is verified
  -- with the authority's public key and the same static key, from its first second to its last.
  pub verify-new_signed_certificate :
      (authority : curve.PrivateKey) (static : List ℕ) (valid_from not_valid_after now : ℕ)
      {cert : SignatureNoiseMessage}
      → new_signed_certificate sha curve authority static valid_from not_valid_after ≡ ok cert
      → valid_from ≤ now % 2 ^ 32
      → now % 2 ^ 32 ≤ not_valid_after
      → verify_server_certificate sha curve now cert (curve.public_x authority) static
        ≡ (true, none)
  unfolding new_signed_certificate
  verify-new_signed_certificate authority static valid_from not_valid_after now {cert} h f u =
      let m = unsigned valid_from not_valid_after in
      let (sig, made, same) = signed-eq-ok m _ (rw (encode_no_sig_lem m) at h) in
      let (_, s, p, s_parsed, p_parsed, good) = curve.verify-sign authority _ sig made in
      subst
        (λ c.
          verify_server_certificate sha curve now c (curve.public_x authority) static
          ≡ (true, none))
        same
        (IsGood-verified now (record m { signature = sig }) (curve.public_x authority) static
          (record {
            current_version = refl;
            begun = f;
            not_over = u;
            sig = s;
            sig_parsed = s_parsed;
            key = p;
            key_parsed = p_parsed;
            verified = good;
          }))
