-- ===== src/Noise/Handshake/Steps.antt =====
-- How the operations of a handshake run where they succeed.
use mathlib.Core.Path.{subst}
use stratumv.Prelude.{
  ℕ, ◌≡◌, refl, ap, ◌∙◌, arith, false, List, ◌++◌, length, take, drop, take-append, drop-append,
  ◌==◌,
}
use stratumv.Binary.Failure.{Result, ok}
use stratumv.Binary.Outcome.{Outcome, returns}
use stratumv.Noise.Aead.{Aead}
use stratumv.Noise.Cipher.Laws.{IsReady, advanced, nonce_bytes, encrypt_ready, decrypt_ready}
use stratumv.Noise.Digest.{Sha256}
use stratumv.Noise.Handshake.{
  HandshakeState, Step, resume, mix_hash, encrypt_and_hash, decrypt_and_hash, total, fallible,
}

pub take_front : (a b : List ℕ) {n : ℕ} → length a ≡ n → take n (a ++ b) ≡ a
take_front a b h = subst (λ n. take n (a ++ b) ≡ a) h (take-append a b)

pub drop_front : (a b : List ℕ) {n : ℕ} → length a ≡ n → drop n (a ++ b) ≡ b
drop_front a b h = subst (λ n. drop n (a ++ b) ≡ b) h (drop-append a b)

module _ (sha : Sha256) (aead : Aead) (max_noise_nonce : ℕ) where
  unfoldable pub sealed : HandshakeState → List ℕ → List ℕ
  sealed hs plaintext = aead.seal hs.cs.k (nonce_bytes hs.cs.n) plaintext hs.h

  unfoldable pub after_sealed : HandshakeState → List ℕ → HandshakeState
  unfolding sealed
  after_sealed hs plaintext =
      mix_hash sha (sealed hs plaintext) (record hs { cs = advanced 1 hs.cs })

  module _ (hs : HandshakeState) (ready : IsReady max_noise_nonce hs.cs) (plaintext : List ℕ) where
    has_key : (length hs.cs.k == 0) ≡ false
    has_key = ground (arith, ready.keyed)

    pub encrypt_keyed :
        encrypt_and_hash sha aead max_noise_nonce plaintext hs
        ≡ (after_sealed hs plaintext, sealed hs plaintext)
    unfolding encrypt_and_hash after_sealed mix_hash
    encrypt_keyed = rw (encrypt_ready aead max_noise_nonce hs.cs ready hs.h plaintext, has_key) refl

    pub decrypt_keyed :
        decrypt_and_hash sha aead max_noise_nonce (sealed hs plaintext) hs
        ≡ (after_sealed hs plaintext, ok plaintext)
    unfolding decrypt_and_hash after_sealed mix_hash
    decrypt_keyed = rw (decrypt_ready aead max_noise_nonce hs.cs ready hs.h plaintext, has_key) refl

-- A step that returned a value goes on.
pub total_lem :
    {A : Type 0} (f : HandshakeState → HandshakeState × A) (hs : HandshakeState)
    {hs' : HandshakeState} {a : A}
    → f hs ≡ (hs', a)
    → total f hs ≡ returns (hs', ok a)
unfolding total
total_lem f hs h = ap (λ r. returns (r.0, ok r.1)) h

pub fallible_lem :
    {A : Type 0} (f : HandshakeState → HandshakeState × Result A) (hs : HandshakeState)
    {hs' : HandshakeState} {a : A}
    → f hs ≡ (hs', ok a)
    → fallible f hs ≡ returns (hs', ok a)
unfolding fallible
fallible_lem f hs h = ap returns h

pub then_on :
    {A B : Type 0} {o : Outcome (HandshakeState × Result A)} {hs : HandshakeState} {a : A}
    (k : A → Step B) {r : Outcome (HandshakeState × Result B)}
    → o ≡ returns (hs, ok a)
    → k a hs ≡ r
    → resume o k ≡ r
then_on k h g = ap (λ o. resume o k) h ∙ g
