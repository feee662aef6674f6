-- ===== src/Noise/Cipher.antt =====
-- `CipherState` of noise.go.
pub mod Laws
pub mod Concurrent
use stratumv.Prelude.{
  ℕ, ◌+◌, ◌-◌, ◌*◌, ◌/◌, ◌%◌, ◌^◌, ◌<◌, ◌≡◌, Bool, Option, none, some, List, [], ◌∷◌, ◌++◌, length,
  replicate, ltb, ◌==◌, if◌then◌else◌,
}
use stratumv.Binary.Failure.{Failure, Result, ok, err, nonce_exhausted, bad_seal}
use stratumv.Binary.LittleEndian.{le_bytes}
use stratumv.Noise.Aead.{Aead}

-- The AEAD value `gcm` is determined by the key. Before `InitializeKey` the key is empty.
pub record CipherState : Type 0 where
  pub k : List ℕ
  pub n : ℕ

-- `CipherState{}`
abbrev pub empty : CipherState
empty = record { k = []; n = 0 }

-- The key is 32 bytes, for which `chacha20poly1305.New` returns no error.
unfoldable pub initialize_key : List ℕ → CipherState → CipherState
initialize_key key cs = record { k = key; n = 0 }

-- 32 zero bits and the nonce; the counter moves on, as a uint64.
unfoldable pub get_nonce : CipherState → CipherState × List ℕ
get_nonce cs = (record cs { n = (cs.n + 1) % 2 ^ 64 }, replicate 4 0 ++ le_bytes 8 cs.n)

abbrev pub mac_len : ℕ
mac_len = 16

abbrev pub max_plaintext_chunk_size : ℕ
max_plaintext_chunk_size = 65519

abbrev pub max_noise_frame_size : ℕ
max_noise_frame_size = 65535

unfoldable pub plain_text_len_to_cipher_text_len : ℕ → ℕ
plain_text_len_to_cipher_text_len l =
    let rem = l % max_plaintext_chunk_size in
    let rem' : ℕ = if ltb 0 rem then rem + mac_len else rem in
    l / max_plaintext_chunk_size * max_noise_frame_size + rem'

-- `uint64(math.Pow(2, 64)) - 1` depends on the machine, since Go leaves the conversion of a float
-- that is out of range open: it is the parameter `max_noise_nonce`.
module _ (aead : Aead) (max_noise_nonce : ℕ) where
  unfoldable pub encrypt_with_ad : List ℕ → List ℕ → CipherState → CipherState × Result (List ℕ)
  unfolding get_nonce
  encrypt_with_ad ad plaintext cs =
      if length cs.k == 0
      then (cs, ok plaintext)
      else if cs.n == max_noise_nonce
      then (cs, err nonce_exhausted)
      else let (cs', nonce) = get_nonce cs in (cs', ok (aead.seal cs.k nonce plaintext ad))

  -- What `Open` returned: on an error the counter is taken back, by adding 2 ^ 64 - 1.
  abbrev opened : CipherState → Option (List ℕ) → CipherState × Result (List ℕ)
  opened cs none = (record cs { n = (cs.n + (2 ^ 64 - 1)) % 2 ^ 64 }, err bad_seal)
  opened cs (some out) = (cs, ok out)

  unfoldable pub decrypt_with_ad : List ℕ → List ℕ → CipherState → CipherState × Result (List ℕ)
  unfolding get_nonce
  decrypt_with_ad ad ciphertext cs =
      if length cs.k == 0
      then (cs, ok ciphertext)
      else if cs.n == max_noise_nonce
      then (cs, err nonce_exhausted)
      else let (cs', nonce) = get_nonce cs in opened cs' (aead.unseal cs.k nonce ciphertext ad)

  unfoldable pub encrypt : List ℕ → CipherState → CipherState × Result (List ℕ)
  unfolding encrypt_with_ad
  encrypt plaintext cs = encrypt_with_ad [] plaintext cs

  unfoldable pub decrypt : List ℕ → CipherState → CipherState × Result (List ℕ)
  unfolding decrypt_with_ad
  decrypt ciphertext cs = decrypt_with_ad [] ciphertext cs
