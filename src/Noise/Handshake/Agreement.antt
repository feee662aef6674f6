-- ===== src/Noise/Handshake/Agreement.antt =====
-- What the two sides of a handshake compute from the same messages.
use mathlib.Core.Path.{subst}
use stratumv.Prelude.{
  ℕ, ◌<◌, ◌≡◌, ◌^◌, refl, ap, arith, Bool, true, false, some, List, length, take, take_all,
}
use stratumv.Binary.Failure.{ok}
use stratumv.Binary.Outcome.{returns}
use stratumv.Noise.Aead.{Aead}
use stratumv.Noise.Cipher.Laws.{IsReady}
use stratumv.Noise.Digest.{Sha256, length-hkdf}
use stratumv.Noise.Secp256k1.{Secp256k1}
use stratumv.Noise.Keys.{Keypair}
use stratumv.Noise.Certificate.Verified.{decode-encode_cert}
use stratumv.Noise.Handshake.Steps.{
  after_sealed, encrypt_keyed, decrypt_keyed, total_lem, fallible_lem, then_on,
}
use stratumv.Noise.Handshake.{
  HandshakeState, mix_hash, mix_key, begin, transport_keys, decrypt_and_hash, encode_cert,
  encoded_cert, decode_cert, decoded_cert, empty_cert, array, ecdh, send_part_1, receive_part_2,
  send_part_2,
}
use stratumv.Noise.Handshake.Transcript.{
  Parties, secret_ee, secret_es, cert_bytes, after_part_1, after_ee, encrypted_static, after_es,
  encrypted_cert, after_part_2, part_2, first_part, middle_part, last_part,
}

module _ (sha : Sha256) (aead : Aead) (max_noise_nonce : ℕ) (curve : Secp256k1)
    (p : Parties sha aead max_noise_nonce curve) where
  ecdh_lem :
      (k : Keypair curve) (private : curve.PrivateKey) (remote secret : List ℕ) (initiator : Bool)
      (hs : HandshakeState)
      → k.private ≡ some private
      → curve.v2_ecdh private remote k.public_ellswift initiator ≡ some secret
      → ecdh curve k remote initiator hs ≡ returns (hs, ok secret)
  unfolding ecdh
  ecdh_lem k private remote secret initiator hs h g = rw h (rw g refl)

  module _ (positive : 0 < max_noise_nonce) (fits : max_noise_nonce < 2 ^ 64) where
    keyed-IsReady :
        (ikm : List ℕ) (hs : HandshakeState) → IsReady max_noise_nonce (mix_key sha ikm hs).cs
    unfolding mix_key
    keyed-IsReady ikm hs = record {
      keyed = omega (arith, (length-hkdf sha hs.ck ikm).1);
      below = positive;
      end_fits = fits;
    }

    responder_ee :
        (hs : HandshakeState)
        → ecdh curve p.responder_ephemeral p.initiator_ephemeral.public_ellswift false hs
          ≡ returns (hs, ok (secret_ee sha aead max_noise_nonce curve p))
    unfolding secret_ee
    responder_ee hs =
        ecdh_lem p.responder_ephemeral p.responder_fits.key _ _ false hs p.responder_fits.has_key
          (curve.agreement p.initiator_fits.encodes p.responder_fits.encodes).2

    initiator_ee :
        (hs : HandshakeState)
        → ecdh curve p.initiator_ephemeral p.responder_ephemeral.public_ellswift true hs
          ≡ returns (hs, ok (secret_ee sha aead max_noise_nonce curve p))
    unfolding secret_ee
    initiator_ee hs =
        ecdh_lem p.initiator_ephemeral p.initiator_fits.key _ _ true hs p.initiator_fits.has_key
          (curve.agreement p.initiator_fits.encodes p.responder_fits.encodes).1

    responder_es :
        (hs : HandshakeState)
        → ecdh curve p.static_keys p.initiator_ephemeral.public_ellswift false hs
          ≡ returns (hs, ok (secret_es sha aead max_noise_nonce curve p))
    unfolding secret_es
    responder_es hs =
        ecdh_lem p.static_keys p.static_fits.key _ _ false hs p.static_fits.has_key
          (curve.agreement p.initiator_fits.encodes p.static_fits.encodes).2

    initiator_es :
        (hs : HandshakeState)
        → ecdh curve p.initiator_ephemeral p.static_keys.public_ellswift true hs
          ≡ returns (hs, ok (secret_es sha aead max_noise_nonce curve p))
    unfolding secret_es
    initiator_es hs =
        ecdh_lem p.initiator_ephemeral p.initiator_fits.key _ _ true hs p.initiator_fits.has_key
          (curve.agreement p.initiator_fits.encodes p.static_fits.encodes).1

    encode_cert_lem :
        (hs : HandshakeState)
        → encode_cert p.cert hs ≡ returns (hs, ok (cert_bytes sha aead max_noise_nonce curve p))
    unfolding cert_bytes
    encode_cert_lem hs =
        ap (λ e. encoded_cert hs ((cert_bytes sha aead max_noise_nonce curve p), e))
          (decode-encode_cert p.cert p.cert p.cert_fits).0

    after_ee-IsReady :
        (hs : HandshakeState)
        → IsReady max_noise_nonce (after_ee sha aead max_noise_nonce curve p hs).cs
    unfolding after_ee
    after_ee-IsReady hs = keyed-IsReady _ _

    after_es-IsReady :
        (hs : HandshakeState)
        → IsReady max_noise_nonce (after_es sha aead max_noise_nonce curve p hs).cs
    unfolding after_es
    after_es-IsReady hs = keyed-IsReady _ _

    pub send_part_2_lem :
        (hs : HandshakeState)
        → send_part_2 sha aead max_noise_nonce curve p.cert p.static_keys p.responder_ephemeral
            p.initiator_ephemeral.public_ellswift
            (begin sha hs)
          ≡ returns (
            after_part_2 sha aead max_noise_nonce curve p hs,
            ok (
              part_2 sha aead max_noise_nonce curve p hs,
              (transport_keys sha (after_part_2 sha aead max_noise_nonce curve p hs)).0,
              (transport_keys sha (after_part_2 sha aead max_noise_nonce curve p hs)).1,
            ),
          )
    unfolding send_part_2 part_2 after_part_2 begin
    send_part_2_lem hs = then_on _ (fallible_lem _ _ refl) (
        then_on _ (responder_ee _) (
          then_on _
            (total_lem _ _ (
              encrypt_keyed sha aead max_noise_nonce (after_ee sha aead max_noise_nonce curve p hs)
                (after_ee-IsReady hs) p.static_keys.public_ellswift))
            (then_on _ (responder_es _) (
              then_on _ (encode_cert_lem _) (
                then_on _
                  (total_lem _ _ (
                    encrypt_keyed sha aead max_noise_nonce
                      (after_es sha aead max_noise_nonce curve p hs) (after_es-IsReady hs)
                      (cert_bytes sha aead max_noise_nonce curve p)))
                  (then_on _ (total_lem _ _ refl) refl))))))

    array_lem :
        (bs : List ℕ) (hs : HandshakeState) → length bs ≡ 64 → array 64 bs hs ≡ returns (hs, ok bs)
    array_lem bs hs h = ground (arith, subst (λ n. take n bs ≡ bs) h (take_all bs))

    decode_cert_lem :
        (hs : HandshakeState)
        → decode_cert (cert_bytes sha aead max_noise_nonce curve p) hs ≡ returns (hs, ok p.cert)
    unfolding cert_bytes
    decode_cert_lem hs = ap (decoded_cert hs) (decode-encode_cert p.cert empty_cert p.cert_fits).2

    with_static : HandshakeState → HandshakeState
    unfolding after_ee after_sealed
    with_static hs =
        mix_key sha (secret_es sha aead max_noise_nonce curve p)
          (record (after_sealed sha aead max_noise_nonce
            (after_ee sha aead max_noise_nonce curve p hs) p.static_keys.public_ellswift) {
              server_static = p.static_keys.public_ellswift;
            })

    with_static-IsReady : (hs : HandshakeState) → IsReady max_noise_nonce (with_static hs).cs
    unfolding with_static
    with_static-IsReady hs = keyed-IsReady _ _

    decrypt_cert :
        (hs : HandshakeState)
        → decrypt_and_hash sha aead max_noise_nonce
            (encrypted_cert sha aead max_noise_nonce curve p hs)
            (with_static hs)
          ≡ (
            after_sealed sha aead max_noise_nonce
                (with_static hs)
                (cert_bytes sha aead max_noise_nonce curve p),
            ok (cert_bytes sha aead max_noise_nonce curve p),
          )
    unfolding encrypted_cert with_static mix_key
    decrypt_cert hs =
        decrypt_keyed sha aead max_noise_nonce (with_static hs) (with_static-IsReady hs)
          (cert_bytes sha aead max_noise_nonce curve p)

    -- The initiator has learned the static key and the certificate.
    pub learned : HandshakeState → HandshakeState
    unfolding after_part_2
    learned hs = record (after_part_2 sha aead max_noise_nonce curve p hs) {
      cert = some p.cert;
      server_static = p.static_keys.public_ellswift;
    }

    -- What is learned leaves the hashes alone.
    last_state_lem :
        (hs : HandshakeState)
        → record (after_sealed sha aead max_noise_nonce
            (with_static hs)
            (cert_bytes sha aead max_noise_nonce curve p)) { cert = some p.cert }
          ≡ learned hs
    unfolding learned with_static after_part_2 after_es mix_hash mix_key
    last_state_lem hs = refl

    pub receive_part_2_lem :
        (hs : HandshakeState)
        → receive_part_2 sha aead max_noise_nonce curve p.initiator_ephemeral
            (part_2 sha aead max_noise_nonce curve p hs)
            (after_part_1 sha aead max_noise_nonce curve p hs)
          ≡ returns (learned hs, ok (transport_keys sha (learned hs)))
    unfolding receive_part_2 learned after_part_1 encrypted_static encrypted_cert with_static
    receive_part_2_lem hs =
        rw
          (
            first_part sha aead max_noise_nonce curve p hs,
            middle_part sha aead max_noise_nonce curve p hs,
            last_part sha aead max_noise_nonce curve p hs,
          )
          (then_on _ (initiator_ee _) (
            then_on _
              (fallible_lem _ _ (
                decrypt_keyed sha aead max_noise_nonce
                  (after_ee sha aead max_noise_nonce curve p hs) (after_ee-IsReady hs)
                  p.static_keys.public_ellswift))
              (then_on _ (array_lem _ _ (curve.length-Encodes p.static_fits.encodes)) (
                then_on _ (initiator_es _) (
                  then_on _ (fallible_lem _ _ (decrypt_cert hs)) (
                    then_on _ (decode_cert_lem _) (
                      total_lem _ _
                        (ap (λ hs. (hs, transport_keys sha hs)) (last_state_lem hs)))))))))

    pub send_part_1_lem :
        (hs : HandshakeState)
        → send_part_1 sha aead max_noise_nonce curve p.initiator_ephemeral hs
          ≡ after_part_1 sha aead max_noise_nonce curve p hs
    unfolding send_part_1 after_part_1
    send_part_1_lem hs = refl

    pub learned_fields :
        (hs : HandshakeState)
        → ((learned hs).cert ≡ some p.cert)
          × ((learned hs).server_static ≡ p.static_keys.public_ellswift)
    unfolding learned
    learned_fields hs = (refl, refl)

    -- The keys come from the messages alone.
    pub transport_keys-learned :
        (hs hs' : HandshakeState)
        → transport_keys sha (learned hs)
          ≡ transport_keys sha (after_part_2 sha aead max_noise_nonce curve p hs')
    unfolding transport_keys learned after_part_2 mix_hash mix_key begin
    transport_keys-learned hs hs' = refl
