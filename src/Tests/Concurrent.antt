-- ===== src/Tests/Concurrent.antt =====
-- Two calls of `EncryptWithAd` at the same time, at concrete inputs.
use stratumv.Prelude.{◌≡◌, arith, [], ◌∷◌, replicate}
use stratumv.Binary.Failure.{ok}
use stratumv.Noise.Cipher.{CipherState}
use stratumv.Noise.Cipher.Concurrent.{
  both_enter, ended, run, AreCounted, run-AreCounted, nonce_reused,
}
use stratumv.Noise.Cipher.Laws.{nonce_bytes}
use stratumv.Noise.Proc.{lhs, rhs}
use stratumv.Tests.Noise.{tagging, last_nonce}

abbrev keyed : CipherState
keyed = record { k = replicate 32 7; n = 3 }

nonce_reused_example :
    run tagging last_nonce keyed.k []
      (1 ∷ [])
      []
      (2 ∷ [])
      (lhs ∷ rhs ∷ lhs ∷ rhs ∷ lhs ∷ rhs ∷ [])
      (both_enter 3)
    ≡ record {
      counter = 5;
      left = ended (ok (tagging.seal keyed.k (nonce_bytes 3) (1 ∷ []) []));
      right = ended (ok (tagging.seal keyed.k (nonce_bytes 3) (2 ∷ []) []));
    }
nonce_reused_example =
    nonce_reused tagging last_nonce keyed [] (1 ∷ []) [] (2 ∷ []) (omega arith) (omega arith)

-- The right call has loaded its nonce when the left one has ended.
run-AreCounted_example : AreCounted tagging last_nonce keyed.k 3 [] (1 ∷ []) [] (2 ∷ []) (
    run tagging last_nonce keyed.k []
      (1 ∷ [])
      []
      (2 ∷ [])
      (lhs ∷ rhs ∷ lhs ∷ lhs ∷ rhs ∷ [])
      (both_enter 3))
run-AreCounted_example =
    run-AreCounted tagging last_nonce keyed.k 3 (omega arith) (omega arith) (omega arith) []
      (1 ∷ []) [] (2 ∷ []) (lhs ∷ rhs ∷ lhs ∷ lhs ∷ rhs ∷ [])
