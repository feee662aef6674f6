-- ===== src/Examples/Trust.antt =====
-- The logger of examples/logger checks the certificate of the server of examples/server.
use stratumv.Prelude.{
  ℕ, ◌%◌, ◌^◌, ◌<◌, ◌≡◌, refl, sym, ap, ◌∙◌, arith, Bool, true, false, none, some, List, length,
  take, take_all, ltb, leb, ◌==◌, if◌then◌else◌,
}
use stratumv.Binary.Failure.{ok, cert_expired}
use stratumv.Binary.Outcome.{returns, panics}
use stratumv.Noise.Aead.{Aead}
use stratumv.Noise.Digest.{Sha256}
use stratumv.Noise.Secp256k1.{Secp256k1}
use stratumv.Noise.Certificate.{verify_server_certificate}
use stratumv.Noise.Certificate.Verified.{
  new_signed_certificate-dates, verify-new_signed_certificate,
}
use stratumv.Noise.Keys.{Base58, serialize_authority_key, deserialize_authority_key}
use stratumv.Noise.Keys.Storage.{deserialize-serialize_authority_key}
use stratumv.Noise.Proc.{Network}
use stratumv.Noise.Handshake.{HandshakeState, Ended, verify_server}
use stratumv.Noise.Handshake.Transcript.{Parties}
use stratumv.Noise.Handshake.Completion.{IsComplete}
use stratumv.Examples.{fatal}
use stratumv.Examples.Server.{server_cert}
use stratumv.Examples.Logger.{verdict, with_key, check_cert}

module _ (sha : Sha256) (aead : Aead) (max_noise_nonce : ℕ) (curve : Secp256k1)
    (base58 : Base58) where
  check_cert_lem :
      (now : ℕ) (key : List ℕ) (hs : HandshakeState)
      → 0 < length (serialize_authority_key base58 key)
      → length key ≡ 32
      → check_cert sha aead max_noise_nonce curve base58 now (serialize_authority_key base58 key) hs
        ≡ verdict sha aead max_noise_nonce curve base58
            (verify_server sha aead max_noise_nonce curve now key hs)
  unfolding check_cert
  check_cert_lem now key hs nonempty size =
      ap
        (λ b.
          if b
          then returns none
          else with_key sha aead max_noise_nonce curve base58 now hs
              (deserialize_authority_key base58 (serialize_authority_key base58 key)))
        (given nonempty)
      ∙ ap (with_key sha aead max_noise_nonce curve base58 now hs)
          (deserialize-serialize_authority_key base58 key)
      ∙ ap
          (λ b.
            if b
            then panics
            else verdict sha aead max_noise_nonce curve base58
                (verify_server sha aead max_noise_nonce curve now (take 32 key) hs))
          long_enough
      ∙ ap
          (λ k.
            verdict sha aead max_noise_nonce curve base58
              (verify_server sha aead max_noise_nonce curve now k hs))
          (ap (λ n. take n key) (sym size) ∙ take_all key)
    where
      given : {n : ℕ} → 0 < n → (n == 0) ≡ false
      given h = ground arith

      long_enough : ltb (length key) 32 ≡ false
      long_enough = ground (arith, size)

  module _ (p : Parties sha aead max_noise_nonce curve) where
    expired :
        (authority : curve.PrivateKey) (now : ℕ)
        → server_cert sha curve authority (curve.public_x p.static_fits.key) ≡ ok p.cert
        → 65535 < now % 2 ^ 32
        → verify_server_certificate sha curve now p.cert
            (curve.public_x authority)
            (curve.public_x p.static_fits.key)
          ≡ (false, some cert_expired)
    unfolding verify_server_certificate
    expired authority now signed late =
        let (current, begins, ends) =
          new_signed_certificate-dates sha curve authority (curve.public_x p.static_fits.key) 0
            65535 signed in
        ground (arith, current, begins, ends, late)

    judged :
        (authority : curve.PrivateKey) (now : ℕ) (in_time : Bool)
        → leb (now % 2 ^ 32) 65535 ≡ in_time
        → server_cert sha curve authority (curve.public_x p.static_fits.key) ≡ ok p.cert
        → verify_server_certificate sha curve now p.cert
            (curve.public_x authority)
            (curve.public_x p.static_fits.key)
          ≡ (if in_time then (true, none) else (false, some cert_expired))
    judged authority now true h signed =
        verify-new_signed_certificate sha curve authority (curve.public_x p.static_fits.key) 0 65535
          now signed (omega arith) (ground (arith, h))
    judged authority now false h signed = expired authority now signed (ground (arith, h))

    verified :
        {initiator responder : HandshakeState} {net : Network Ended Ended}
        (authority : curve.PrivateKey) (now : ℕ)
        (c : IsComplete sha aead max_noise_nonce curve p initiator responder net)
        → server_cert sha curve authority (curve.public_x p.static_fits.key) ≡ ok p.cert
        → verify_server sha aead max_noise_nonce curve now
            (curve.public_x authority)
            c.initiator_state
          ≡ returns (if leb (now % 2 ^ 32) 65535 then (true, none) else (false, some cert_expired))
    unfolding verify_server
    verified authority now c signed =
        rw (c.cert_learned, c.static_learned, curve.x_swift_ec-Encodes p.static_fits.encodes)
          (ap returns (judged authority now _ refl signed))

    verdict_judged :
        (in_time : Bool)
        → verdict sha aead max_noise_nonce curve base58
            (returns (if in_time then (true, none) else (false, some cert_expired)))
          ≡ returns (if in_time then none else some (fatal cert_expired))
    verdict_judged true = refl
    verdict_judged false = refl

    -- Where a handshake is complete and the server's certificate is the one that the server makes
    -- for its static key, the logger's check with the serialized key of the server's authority,
    -- which is not "", passes where the clock, a uint32 that counts seconds from 1970, stands at 0 to
    -- 65535; at every other time it ends the logger, since the certificate has expired.
    pub logger_checks_server :
        {initiator responder : HandshakeState} {net : Network Ended Ended}
        (authority : curve.PrivateKey) (now : ℕ)
        (c : IsComplete sha aead max_noise_nonce curve p initiator responder net)
        → server_cert sha curve authority (curve.public_x p.static_fits.key) ≡ ok p.cert
        → 0 < length (serialize_authority_key base58 (curve.public_x authority))
        → check_cert sha aead max_noise_nonce curve base58 now
            (serialize_authority_key base58 (curve.public_x authority))
            c.initiator_state
          ≡ returns (if leb (now % 2 ^ 32) 65535 then none else some (fatal cert_expired))
    logger_checks_server authority now c signed nonempty =
        check_cert_lem now (curve.public_x authority) c.initiator_state nonempty
          (curve.length-public_x authority)
        ∙ ap (verdict sha aead max_noise_nonce curve base58) (verified authority now c signed)
        ∙ verdict_judged _
