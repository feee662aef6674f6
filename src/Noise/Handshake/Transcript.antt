-- ===== src/Noise/Handshake/Transcript.antt =====
-- The parties of a handshake, and the states and bytes that follow from their keys.
use stratumv.Prelude.{
  ℕ, ◌+◌, ◌≡◌, refl, sym, ap, ◌∙◌, arith, some, List, [], ◌++◌, append_assoc, length, take, drop,
  length-append,
}
use stratumv.Noise.Aead.{Aead}
use stratumv.Noise.Digest.{Sha256}
use stratumv.Noise.Secp256k1.{Secp256k1}
use stratumv.Noise.Keys.{Keypair}
use stratumv.Noise.Certificate
use stratumv.Noise.Certificate.{SignatureNoiseMessage}
use stratumv.Noise.Certificate.Verified.{decode-encode_cert}
use stratumv.Noise.Handshake.Steps.{take_front, drop_front, sealed, after_sealed}
use stratumv.Noise.Handshake.{HandshakeState, mix_hash, mix_key, begin}

module _ (sha : Sha256) (aead : Aead) (max_noise_nonce : ℕ) (curve : Secp256k1) where
  -- A keypair with its private key, and an encoding of its public key.
  pub record IsKeypair (kp : Keypair curve) : Type 0 where
    pub key : curve.PrivateKey
    pub has_key : kp.private ≡ some key
    pub encodes : curve.Encodes key kp.public_ellswift

  -- The keys of both sides, and the certificate that the responder sends.
  pub record Parties : Type 0 where
    pub initiator_ephemeral : Keypair curve
    pub responder_ephemeral : Keypair curve
    pub static_keys : Keypair curve
    pub cert : SignatureNoiseMessage
    pub initiator_fits : IsKeypair initiator_ephemeral
    pub responder_fits : IsKeypair responder_ephemeral
    pub static_fits : IsKeypair static_keys
    pub cert_fits : Certificate.IsValid cert

  module _ (p : Parties) where
    unfoldable pub secret_ee : List ℕ
    secret_ee = (curve.agreement p.initiator_fits.encodes p.responder_fits.encodes).0

    unfoldable pub secret_es : List ℕ
    secret_es = (curve.agreement p.initiator_fits.encodes p.static_fits.encodes).0

    unfoldable pub cert_bytes : List ℕ
    cert_bytes = (Certificate.encode p.cert).0

    -- The states that both sides go through, from the state `hs` in which a side begins.
    unfoldable pub after_part_1 : HandshakeState → HandshakeState
    after_part_1 hs =
        mix_hash sha [] (mix_hash sha p.initiator_ephemeral.public_ellswift (begin sha hs))

    unfoldable pub after_ee : HandshakeState → HandshakeState
    unfolding after_part_1
    after_ee hs =
        mix_key sha secret_ee (mix_hash sha p.responder_ephemeral.public_ellswift (after_part_1 hs))

    unfoldable pub encrypted_static : HandshakeState → List ℕ
    unfolding after_ee sealed
    encrypted_static hs =
        sealed sha aead max_noise_nonce (after_ee hs) p.static_keys.public_ellswift

    unfoldable pub after_es : HandshakeState → HandshakeState
    unfolding after_ee after_sealed
    after_es hs =
        mix_key sha secret_es
          (after_sealed sha aead max_noise_nonce (after_ee hs) p.static_keys.public_ellswift)

    unfoldable pub encrypted_cert : HandshakeState → List ℕ
    unfolding after_es sealed
    encrypted_cert hs = sealed sha aead max_noise_nonce (after_es hs) cert_bytes

    unfoldable pub after_part_2 : HandshakeState → HandshakeState
    unfolding after_es after_sealed
    after_part_2 hs = after_sealed sha aead max_noise_nonce (after_es hs) cert_bytes

    unfoldable pub part_2 : HandshakeState → List ℕ
    unfolding encrypted_static encrypted_cert
    part_2 hs = p.responder_ephemeral.public_ellswift ++ (encrypted_static hs ++ encrypted_cert hs)

    pub part_2_same : (hs hs' : HandshakeState) → part_2 hs ≡ part_2 hs'
    unfolding part_2 mix_hash mix_key begin
    part_2_same hs hs' = refl

    length-sealed :
        (hs : HandshakeState) (plaintext : List ℕ)
        → length (sealed sha aead max_noise_nonce hs plaintext) ≡ length plaintext + 16
    unfolding sealed
    length-sealed hs plaintext = aead.length-seal _ _ _ _

    length-encrypted_static : (hs : HandshakeState) → length (encrypted_static hs) ≡ 80
    unfolding encrypted_static
    length-encrypted_static hs = omega (
      arith,
      length-sealed (after_ee hs) p.static_keys.public_ellswift,
      curve.length-Encodes p.static_fits.encodes,
    )

    ephemeral_size : length p.responder_ephemeral.public_ellswift ≡ 64
    ephemeral_size = curve.length-Encodes p.responder_fits.encodes

    pub length-part_2 : (hs : HandshakeState) → length (part_2 hs) ≡ 234
    unfolding part_2 encrypted_cert cert_bytes
    length-part_2 hs = omega (
      arith,
      ephemeral_size,
      length-encrypted_static hs,
      length-sealed (after_es hs) cert_bytes,
      (decode-encode_cert p.cert p.cert p.cert_fits).1,
      length-append p.responder_ephemeral.public_ellswift
          (encrypted_static hs ++ encrypted_cert hs),
      length-append (encrypted_static hs) (encrypted_cert hs),
    )

    pub first_part :
        (hs : HandshakeState) → take 64 (part_2 hs) ≡ p.responder_ephemeral.public_ellswift
    unfolding part_2
    first_part hs = take_front _ _ ephemeral_size

    pub middle_part : (hs : HandshakeState) → take 80 (drop 64 (part_2 hs)) ≡ encrypted_static hs
    unfolding part_2
    middle_part hs =
        ap (take 80) (drop_front _ _ ephemeral_size) ∙ take_front _ _ (length-encrypted_static hs)

    pub last_part : (hs : HandshakeState) → drop 144 (part_2 hs) ≡ encrypted_cert hs
    unfolding part_2
    last_part hs =
        ap (drop 144) (
          sym (
            append_assoc p.responder_ephemeral.public_ellswift (encrypted_static hs)
              (encrypted_cert hs)))
        ∙ drop_front _ _ two_sizes
      where
        two_sizes : length (p.responder_ephemeral.public_ellswift ++ encrypted_static hs) ≡ 144
        two_sizes = omega (
          arith,
          ephemeral_size,
          length-encrypted_static hs,
          length-append p.responder_ephemeral.public_ellswift (encrypted_static hs),
        )
