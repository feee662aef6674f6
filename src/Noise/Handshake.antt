-- ===== src/Noise/Handshake.antt =====
-- `HandshakeState` of noise.go: both sides of the handshake.
pub mod Steps
pub mod Transcript
pub mod Agreement
pub mod Schedules
pub mod Completion
pub mod Truncated
pub mod Authenticated
use stratumv.Prelude.{
  ℕ, ◌≡◌, Bool, true, false, Option, none, some, List, [], ◌∷◌, ◌++◌, length, replicate, take, drop,
  ltb, ◌==◌, if◌then◌else◌,
}
use stratumv.Binary.Failure.{Failure, Result, ok, err, bad_point}
use stratumv.Binary.Outcome.{Outcome, returns, panics, view}
use stratumv.Noise.Aead.{Aead}
use stratumv.Noise.Cipher
use stratumv.Noise.Cipher.{CipherState, initialize_key, encrypt_with_ad, decrypt_with_ad}
use stratumv.Noise.Digest.{Sha256, hkdf, handshake_init}
use stratumv.Noise.Secp256k1.{Secp256k1}
use stratumv.Noise.Keys.{Keypair}
use stratumv.Noise.Certificate
use stratumv.Noise.Certificate.{SignatureNoiseMessage, verify_server_certificate}
use stratumv.Noise.Proc.{Proc, done, panic, write, read, from_outcome}

-- A nil certificate is `none`.
pub record HandshakeState : Type 0 where
  pub cs : CipherState
  pub h : List ℕ
  pub ck : List ℕ
  pub cert : Option SignatureNoiseMessage
  pub server_static : List ℕ

-- A step of the handshake changes the state and returns a value or an error, or it panics.
abbrev pub Step : Type 0 → Type 0
Step A = HandshakeState → Outcome (HandshakeState × Result A)

abbrev pub resume :
    {A B : Type 0}
    → Outcome (HandshakeState × Result A)
    → (A → Step B)
    → Outcome (HandshakeState × Result B)
resume (returns (hs, ok a)) k = k a hs
resume (returns (hs, err e)) k = returns (hs, err e)
resume panics k = panics

infixl 5 ◌>>=◌ ◌>>◌
abbrev pub ◌>>=◌ : {A B : Type 0} → Step A → (A → Step B) → Step B
◌>>=◌ m k hs = resume (m hs) k

abbrev pub ◌>>◌ : {A B : Type 0} → Step A → Step B → Step B
m >> k = m >>= λ _. k

abbrev pub pure : {A : Type 0} → A → Step A
pure a hs = returns (hs, ok a)

-- A conversion of a slice to an array of `n` bytes.
abbrev pub array : ℕ → List ℕ → Step (List ℕ)
array n bs hs = if ltb (length bs) n then panics else returns (hs, ok (take n bs))

-- The constants of the calls.
module _ (sha : Sha256) where
  unfoldable pub mix_hash : List ℕ → HandshakeState → HandshakeState
  mix_hash bs hs = record hs { h = sha.sum_256 (hs.h ++ bs) }

  unfoldable pub mix_key : List ℕ → HandshakeState → HandshakeState
  unfolding initialize_key hkdf
  mix_key input_key_material hs =
      let (ck, temp) = hkdf sha hs.ck input_key_material in
      record hs { ck = ck; cs = initialize_key temp hs.cs }

  -- The first lines of both sides: a new cipher state, and the initial hashes.
  unfoldable pub begin : HandshakeState → HandshakeState
  unfolding handshake_init
  begin hs = let (ck, h) = handshake_init sha in record hs { cs = Cipher.empty; ck = ck; h = h }

  -- The cipher states for the two directions, from the initiator and to it.
  unfoldable pub transport_keys : HandshakeState → CipherState × CipherState
  unfolding initialize_key hkdf
  transport_keys hs =
      let (temp_k1, temp_k2) = hkdf sha hs.ck [] in
      (initialize_key temp_k1 Cipher.empty, initialize_key temp_k2 Cipher.empty)

  module _ (aead : Aead) (max_noise_nonce : ℕ) where
    -- The ciphertext of an error is nil.
    abbrev or_nil : Result (List ℕ) → List ℕ
    or_nil (ok bs) = bs
    or_nil (err e) = []

    abbrev hashed : HandshakeState → List ℕ → HandshakeState × List ℕ
    hashed hs ciphertext = (mix_hash ciphertext hs, ciphertext)

    unfoldable pub encrypt_and_hash : List ℕ → HandshakeState → HandshakeState × List ℕ
    unfolding mix_hash encrypt_with_ad
    encrypt_and_hash plaintext hs =
        if length hs.cs.k == 0
        then hashed hs plaintext
        else let (cs, ciphertext) = encrypt_with_ad aead max_noise_nonce hs.h plaintext hs.cs in
          hashed (record hs { cs = cs }) (or_nil ciphertext)

    abbrev opened : HandshakeState → List ℕ → Result (List ℕ) → HandshakeState × Result (List ℕ)
    opened hs ciphertext (ok plaintext) = (mix_hash ciphertext hs, ok plaintext)
    opened hs ciphertext (err e) = (hs, err e)

    unfoldable pub decrypt_and_hash : List ℕ → HandshakeState → HandshakeState × Result (List ℕ)
    unfolding mix_hash decrypt_with_ad
    decrypt_and_hash ciphertext hs =
        if length hs.cs.k == 0
        then opened hs ciphertext (ok ciphertext)
        else let (cs, plaintext) = decrypt_with_ad aead max_noise_nonce hs.h ciphertext hs.cs in
          opened (record hs { cs = cs }) ciphertext plaintext

-- Calls of the operations above as steps.
abbrev pub changing : (HandshakeState → HandshakeState) → Step (List ℕ)
changing f hs = returns (f hs, ok [])

unfoldable pub total : {A : Type 0} → (HandshakeState → HandshakeState × A) → Step A
total f hs = let (hs', a) = f hs in returns (hs', ok a)

unfoldable pub fallible : {A : Type 0} → (HandshakeState → HandshakeState × Result A) → Step A
fallible f hs = returns (f hs)

-- The error of `Decode` or `Encode` of the certificate ends the handshake.
abbrev pub decoded_cert :
    HandshakeState
    → Outcome (SignatureNoiseMessage × Option Failure)
    → Outcome (HandshakeState × Result SignatureNoiseMessage)
decoded_cert hs (returns (cert, some e)) = returns (hs, err e)
decoded_cert hs (returns (cert, none)) = returns (hs, ok cert)
decoded_cert hs panics = panics

-- `SIGNATURE_NOISE_MESSAGE{}`
abbrev pub empty_cert : SignatureNoiseMessage
empty_cert = record {
  version = 0;
  valid_from = 0;
  not_valid_after = 0;
  signature = Certificate.zero_signature;
}

abbrev pub decode_cert : List ℕ → Step SignatureNoiseMessage
decode_cert plain hs = decoded_cert hs (Certificate.decode (view plain) empty_cert)

abbrev pub encoded_cert :
    HandshakeState → List ℕ × Option Failure → Outcome (HandshakeState × Result (List ℕ))
encoded_cert hs (bs, some e) = returns (hs, err e)
encoded_cert hs (bs, none) = returns (hs, ok bs)

abbrev pub encode_cert : SignatureNoiseMessage → Step (List ℕ)
encode_cert cert hs = encoded_cert hs (Certificate.encode cert)

abbrev set_server_static : List ℕ → HandshakeState → HandshakeState
set_server_static static hs = record hs { server_static = static }

abbrev set_cert : SignatureNoiseMessage → HandshakeState → HandshakeState
set_cert cert hs = record hs { cert = some cert }

-- What a side leaves: its state, and its cipher states or an error.
abbrev pub Ended : Type 0
Ended = HandshakeState × Result (CipherState × CipherState)

-- The second part is written when it is complete.
abbrev pub part_2_sent :
    Outcome (HandshakeState × Result (List ℕ × CipherState × CipherState)) → Proc Ended
part_2_sent (returns (hs, ok (out, recv, send))) = write out (done (hs, ok (recv, send)))
part_2_sent (returns (hs, err e)) = done (hs, err e)
part_2_sent panics = panic

module _ (curve : Secp256k1) where
  -- An error of the key agreement, and a nil private key, are panics.
  abbrev agreed : HandshakeState → Option (List ℕ) → Outcome (HandshakeState × Result (List ℕ))
  agreed hs none = panics
  agreed hs (some hash) = returns (hs, ok hash)

  unfoldable pub ecdh : Keypair curve → List ℕ → Bool → Step (List ℕ)
  ecdh k remote_key initiator hs = elim k.private [
    | none ↦ panics
    | some private ↦ agreed hs (curve.v2_ecdh private remote_key k.public_ellswift initiator)
  ]

module _ (sha : Sha256) (aead : Aead) (max_noise_nonce : ℕ) (curve : Secp256k1) where
  -- `PerformHandshakeInitiator` after the second part, 234 bytes, has been received.
  unfoldable pub receive_part_2 : Keypair curve → List ℕ → Step (CipherState × CipherState)
  unfolding mix_hash mix_key decrypt_and_hash ecdh transport_keys Certificate.decode
  receive_part_2 ephemeral pt2 = do
    let remote_ephemeral = take 64 pt2
    let encrypted_static = take 80 (drop 64 pt2)
    let encrypted_cert = drop 144 pt2
    changing (mix_hash sha remote_ephemeral)
    shared_ee ← ecdh curve ephemeral remote_ephemeral true
    changing (mix_key sha shared_ee)
    plain_static ← fallible (decrypt_and_hash sha aead max_noise_nonce encrypted_static)
    static ← array 64 plain_static
    changing (set_server_static static)
    shared_es ← ecdh curve ephemeral static true
    changing (mix_key sha shared_es)
    plain_cert ← fallible (decrypt_and_hash sha aead max_noise_nonce encrypted_cert)
    cert ← decode_cert plain_cert
    changing (set_cert cert)
    total (λ hs. (hs, transport_keys sha hs))

  abbrev pub part_2_read : Keypair curve → HandshakeState → Result (List ℕ) → Proc Ended
  part_2_read ephemeral hs (err e) = done (hs, err e)
  part_2_read ephemeral hs (ok pt2) = from_outcome (receive_part_2 ephemeral pt2 hs)

  -- The state of the initiator when it has put its first message together.
  unfoldable pub send_part_1 : Keypair curve → HandshakeState → HandshakeState
  unfolding begin mix_hash encrypt_and_hash
  send_part_1 ephemeral hs =
      (encrypt_and_hash sha aead max_noise_nonce []
        (mix_hash sha ephemeral.public_ellswift (begin sha hs))).0

  -- The state that is left, and the cipher states to send with and to receive with. `ephemeral` is
  -- what `NewKeypair` returns.
  unfoldable pub perform_handshake_initiator : Keypair curve → HandshakeState → Proc Ended
  unfolding send_part_1 receive_part_2
  perform_handshake_initiator ephemeral hs =
      write ephemeral.public_ellswift (read 234 (part_2_read ephemeral (send_part_1 ephemeral hs)))

  -- `PerformHandshakeResponder` after the first part has been received: the second part, and the
  -- cipher states to receive with and to send with.
  unfoldable pub send_part_2 :
      SignatureNoiseMessage
      → Keypair curve
      → Keypair curve
      → List ℕ
      → Step (List ℕ × CipherState × CipherState)
  unfolding mix_hash mix_key encrypt_and_hash decrypt_and_hash ecdh transport_keys
      Certificate.encode
  send_part_2 signed_cert static_keys ephemeral remote_ephemeral = do
    changing (mix_hash sha remote_ephemeral)
    fallible (decrypt_and_hash sha aead max_noise_nonce [])
    changing (mix_hash sha ephemeral.public_ellswift)
    shared_ee ← ecdh curve ephemeral remote_ephemeral false
    changing (mix_key sha shared_ee)
    encrypted_static ← total (encrypt_and_hash sha aead max_noise_nonce static_keys.public_ellswift)
    shared_es ← ecdh curve static_keys remote_ephemeral false
    changing (mix_key sha shared_es)
    cert_bytes ← encode_cert signed_cert
    encrypted_cert ← total (encrypt_and_hash sha aead max_noise_nonce cert_bytes)
    (temp_k1, temp_k2) ← total (λ hs. (hs, transport_keys sha hs))
    pure (ephemeral.public_ellswift ++ (encrypted_static ++ encrypted_cert), temp_k1, temp_k2)

  abbrev pub part_1_read :
      SignatureNoiseMessage
      → Keypair curve
      → Keypair curve
      → HandshakeState
      → Result (List ℕ)
      → Proc Ended
  part_1_read signed_cert static_keys ephemeral hs (err e) = done (hs, err e)
  part_1_read signed_cert static_keys ephemeral hs (ok remote_ephemeral) =
      part_2_sent (send_part_2 signed_cert static_keys ephemeral remote_ephemeral hs)

  unfoldable pub perform_handshake_responder :
      SignatureNoiseMessage → Keypair curve → Keypair curve → HandshakeState → Proc Ended
  unfolding begin send_part_2
  perform_handshake_responder signed_cert static_keys ephemeral hs =
      read 64 (part_1_read signed_cert static_keys ephemeral (begin sha hs))

  abbrev verified_cert :
      ℕ → Option SignatureNoiseMessage → List ℕ → Option (List ℕ) → Outcome (Bool × Option Failure)
  verified_cert now cert authority none = returns (false, some bad_point)
  verified_cert now none authority (some x) = panics
  verified_cert now (some cert) authority (some x) =
      returns (verify_server_certificate sha curve now cert authority x)

  -- `VerifyServerCertificate` of the handshake state, at the time `now`.
  unfoldable pub verify_server : ℕ → List ℕ → HandshakeState → Outcome (Bool × Option Failure)
  unfolding verify_server_certificate
  verify_server now authority_pubkey hs =
      verified_cert now hs.cert authority_pubkey
        (curve.x_swift_ec (take 32 hs.server_static) (drop 32 hs.server_static))
