-- ===== src/Noise/Handshake/Truncated.antt =====
-- A connection that ends before the other side's message is complete.
use stratumv.Prelude.{ℕ, ◌≡◌, ◌<◌, refl, arith, List, [], append-nil, length, ◌==◌, if◌then◌else◌}
use stratumv.Binary.Failure.{Failure, err, end_of_file, unexpected_eof}
use stratumv.Binary.Outcome.{returns}
use stratumv.Binary.Stream.{receive}
use stratumv.Noise.Aead.{Aead}
use stratumv.Noise.Digest.{Sha256}
use stratumv.Noise.Secp256k1.{Secp256k1}
use stratumv.Noise.Keys.{Keypair}
use stratumv.Noise.Certificate.{SignatureNoiseMessage}
use stratumv.Noise.Proc.{run_alone}
use stratumv.Noise.Handshake.{
  HandshakeState, begin, send_part_1, perform_handshake_initiator, perform_handshake_responder,
}

-- The error of io.ReadFull on a connection that ends too early.
abbrev pub too_early : List ℕ → Failure
too_early stream = if length stream == 0 then end_of_file else unexpected_eof

receive_short :
    (n : ℕ) (stream : List ℕ)
    → length stream < n
    → receive n stream ≡ returns (err (too_early stream), [])
unfolding receive
receive_short n stream h = ground arith

module _ (sha : Sha256) (aead : Aead) (max_noise_nonce : ℕ) (curve : Secp256k1) where
  -- Both sides return an error, and no cipher states, if the connection ends before the message
  -- that they wait for: the initiator has then sent its ephemeral key, and the responder nothing.
  pub truncated_handshake :
      (signed_cert : SignatureNoiseMessage) (static_keys ephemeral : Keypair curve)
      (hs : HandshakeState) (to_initiator to_responder : List ℕ)
      → length to_initiator < 234
      → length to_responder < 64
      → (run_alone
            (perform_handshake_initiator sha aead max_noise_nonce curve ephemeral hs)
            to_initiator
          ≡ (
            ephemeral.public_ellswift,
            returns (
              (
                send_part_1 sha aead max_noise_nonce curve ephemeral hs,
                err (too_early to_initiator),
              ),
              [],
            ),
          ))
        × (run_alone
              (perform_handshake_responder sha aead max_noise_nonce curve signed_cert static_keys
                ephemeral hs)
              to_responder
            ≡ ([], returns ((begin sha hs, err (too_early to_responder)), [])))
  unfolding perform_handshake_initiator perform_handshake_responder run_alone
  truncated_handshake signed_cert static_keys ephemeral hs to_initiator to_responder hi hr = (
    rw (receive_short 234 to_initiator hi) (rw (append-nil ephemeral.public_ellswift) refl),
    rw (receive_short 64 to_responder hr) refl,
  )
