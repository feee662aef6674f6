-- ===== src/Noise/Cipher/Laws.antt =====
-- Two cipher states with the same key and counter stay in step.
use stratumv.Prelude.{ℕ, ◌+◌, ◌^◌, ◌<◌, ◌≤◌, ◌≡◌, arith, List, ◌++◌, length, replicate}
use stratumv.Binary.Failure.{Failure, ok, err, nonce_exhausted}
use stratumv.Binary.LittleEndian.{le_bytes}
use stratumv.Noise.Aead.{Aead}
use stratumv.Noise.Cipher.{
  CipherState, encrypt_with_ad, decrypt_with_ad, plain_text_len_to_cipher_text_len,
}

-- A key is set, and the counter is below its end.
pub record IsReady (max_noise_nonce : ℕ) (cs : CipherState) : Type 0 where
  pub keyed : 0 < length cs.k
  pub below : cs.n < max_noise_nonce
  pub end_fits : max_noise_nonce < 2 ^ 64

abbrev pub advanced : ℕ → CipherState → CipherState
advanced m cs = record cs { n = cs.n + m }

abbrev pub nonce_bytes : ℕ → List ℕ
nonce_bytes n = replicate 4 0 ++ le_bytes 8 n

module _ (aead : Aead) (max_noise_nonce : ℕ) where
  module _ (cs : CipherState) (ready : IsReady max_noise_nonce cs) where
    pub encrypt_ready :
        (ad text : List ℕ)
        → encrypt_with_ad aead max_noise_nonce ad text cs
          ≡ (advanced 1 cs, ok (aead.seal cs.k (nonce_bytes cs.n) text ad))
    unfolding encrypt_with_ad
    encrypt_ready ad text = ground arith

    pub decrypt_ready :
        (ad text : List ℕ)
        → decrypt_with_ad aead max_noise_nonce ad (aead.seal cs.k (nonce_bytes cs.n) text ad) cs
          ≡ (advanced 1 cs, ok text)
    unfolding decrypt_with_ad
    decrypt_ready ad text = ground (arith, aead.unseal-seal cs.k (nonce_bytes cs.n) text ad)

    -- What one side encrypts, the other, at the same key and counter, decrypts to the same text,
    -- and both counters move on by one; the text grows by the tag.
    pub decrypt_with_ad-encrypt_with_ad :
        (ad text : List ℕ)
        → (sealed : List ℕ) × (encrypt_with_ad aead max_noise_nonce ad text cs
            ≡ (advanced 1 cs, ok sealed))
          × (decrypt_with_ad aead max_noise_nonce ad sealed cs ≡ (advanced 1 cs, ok text))
          × (length sealed ≡ length text + 16)
    decrypt_with_ad-encrypt_with_ad ad text = (
      aead.seal cs.k (nonce_bytes cs.n) text ad,
      encrypt_ready ad text,
      decrypt_ready ad text,
      aead.length-seal _ _ _ _,
    )

  -- A text that fails to decrypt leaves the state as it was, so that a forged or damaged message
  -- does not put the two sides out of step.
  pub decrypt_with_ad-err :
      (cs cs' : CipherState) (ad sealed : List ℕ) (e : Failure)
      → cs.n < 2 ^ 64
      → decrypt_with_ad aead max_noise_nonce ad sealed cs ≡ (cs', err e)
      → cs' ≡ cs
  unfolding decrypt_with_ad
  decrypt_with_ad-err cs cs' ad sealed e fits h = ground arith

  -- At the end of the counter both directions refuse, and nothing changes.
  pub exhausted :
      (cs : CipherState) (ad text : List ℕ)
      → 0 < length cs.k
      → cs.n ≡ max_noise_nonce
      → (encrypt_with_ad aead max_noise_nonce ad text cs ≡ (cs, err nonce_exhausted))
        × (decrypt_with_ad aead max_noise_nonce ad text cs ≡ (cs, err nonce_exhausted))
  unfolding encrypt_with_ad decrypt_with_ad
  exhausted cs ad text keyed h = ground arith

-- A chunk's ciphertext is its plaintext and a tag; only an empty text has none.
pub plain_text_len_one_chunk :
    (l : ℕ) → 0 < l → l ≤ 65519 → plain_text_len_to_cipher_text_len l ≡ l + 16
unfolding plain_text_len_to_cipher_text_len
plain_text_len_one_chunk l h k = ground arith
