-- ===== src/Noise/Handshake/Authenticated.antt =====
-- The initiator verifies the server that it has shaken hands with.
use stratumv.Prelude.{ℕ, ◌≡◌, ◌≤◌, ◌%◌, ◌^◌, ap, true, none}
use stratumv.Binary.Failure.{ok}
use stratumv.Binary.Outcome.{returns}
use stratumv.Noise.Aead.{Aead}
use stratumv.Noise.Digest.{Sha256}
use stratumv.Noise.Secp256k1.{Secp256k1}
use stratumv.Noise.Certificate.{new_signed_certificate}
use stratumv.Noise.Certificate.Verified.{verify-new_signed_certificate}
use stratumv.Noise.Proc.{Network}
use stratumv.Noise.Handshake.{HandshakeState, Ended, verify_server}
use stratumv.Noise.Handshake.Transcript.{Parties}
use stratumv.Noise.Handshake.Completion.{IsComplete}

module _ (sha : Sha256) (aead : Aead) (max_noise_nonce : ℕ) (curve : Secp256k1)
    (p : Parties sha aead max_noise_nonce curve) where
  -- Where a handshake is complete and the responder's certificate was made by
  -- `NewSignedCertificate` for its static key, `VerifyServerCertificate` of the initiator's state
  -- answers true with no error for the authority's key, at any time in the certificate's validity.
  pub verify-handshake :
      (initiator responder : HandshakeState) (net : Network Ended Ended)
      (authority : curve.PrivateKey) (valid_from not_valid_after now : ℕ)
      (c : IsComplete sha aead max_noise_nonce curve p initiator responder net)
      → new_signed_certificate sha curve authority
          (curve.public_x p.static_fits.key)
          valid_from
          not_valid_after
        ≡ ok p.cert
      → valid_from ≤ now % 2 ^ 32
      → now % 2 ^ 32 ≤ not_valid_after
      → verify_server sha aead max_noise_nonce curve now
          (curve.public_x authority)
          c.initiator_state
        ≡ returns (true, none)
  unfolding verify_server
  verify-handshake initiator responder net authority valid_from not_valid_after now c signed f u =
      rw (c.cert_learned, c.static_learned, curve.x_swift_ec-Encodes p.static_fits.encodes)
        (ap returns (
          verify-new_signed_certificate sha curve authority (curve.public_x p.static_fits.key)
            valid_from not_valid_after now signed f u))
