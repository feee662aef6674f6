-- ===== src/Noise/Aead.antt =====
-- golang.org/x/crypto/chacha20poly1305, which noise.go calls: an authenticated cipher.
use stratumv.Prelude.{ℕ, ◌+◌, ◌<◌, ◌≡◌, Option, none, some, List, length}

-- The laws are documented behaviour: what is sealed is opened under the same key, nonce and
-- additional data, sealing adds a tag of 16 bytes, and a text that is shorter than a tag is
-- refused.
pub record Aead : Type 0 where
  pub seal : List ℕ → List ℕ → List ℕ → List ℕ → List ℕ
  pub unseal : List ℕ → List ℕ → List ℕ → List ℕ → Option (List ℕ)
  pub unseal-seal :
      (key nonce text ad : List ℕ) → unseal key nonce (seal key nonce text ad) ad ≡ some text
  pub length-seal :
      (key nonce text ad : List ℕ) → length (seal key nonce text ad) ≡ length text + 16
  pub unseal_short :
      (key nonce sealed ad : List ℕ) → length sealed < 16 → unseal key nonce sealed ad ≡ none
