-- ===== src/Noise/Transport/Delivery.antt =====
-- Frames that one side encrypts are decrypted by the other, in order.
use mathlib.Core.Path.{ap₂, subst}
use stratumv.Prelude.{
  ℕ, ◌+◌, ◌<◌, ◌≤◌, ◌≡◌, ap, arith, List, [], ◌++◌, append_assoc, length, length-append,
}
use stratumv.Binary.Failure.{ok}
use stratumv.Binary.Outcome.{returns}
use stratumv.Binary.Stream.{Source, receive, receive_front}
use stratumv.Frame
use stratumv.Frame.{Frame}
use stratumv.Frame.RoundTrip.{with_header, header_wire, encode_plain, decode_header_lem}
use stratumv.Frame.RoundTrip
use stratumv.Noise.Aead.{Aead}
use stratumv.Noise.Cipher.{CipherState, decrypt_with_ad}
use stratumv.Noise.Cipher.Laws.{
  IsReady, advanced, nonce_bytes, encrypt_ready, decrypt_ready, plain_text_len_one_chunk,
}
use stratumv.Noise.Transport.{encrypt_frame, decrypt_frame_from, decrypt_frame_from_reader}

-- A frame that can be sent: no TLV fields, and a payload of one chunk that is not empty.
pub record IsSendable (f : Frame) : Type 0 where
  pub valid : RoundTrip.IsValid f
  pub plain : f.tlvs ≡ []
  pub not_empty : 0 < f.message_length
  pub one_chunk : f.message_length ≤ 65519

pub advanced_twice : (cs : CipherState) → advanced 1 (advanced 1 cs) ≡ advanced 2 cs
advanced_twice cs = ap (λ n. record cs { n = n }) (omega arith)

module _ (aead : Aead) (max_noise_nonce : ℕ) (cs : CipherState) (f : Frame) where
  abbrev pub sealed_header : List ℕ
  sealed_header = aead.seal cs.k (nonce_bytes cs.n) (header_wire f) []

  abbrev pub sealed_payload : List ℕ
  sealed_payload = aead.seal cs.k (nonce_bytes (cs.n + 1)) f.payload []

  -- The bytes that go over the wire.
  unfoldable pub ciphertext : List ℕ
  ciphertext = sealed_header ++ sealed_payload

  module _ (ready : IsReady max_noise_nonce cs) (more : cs.n + 1 < max_noise_nonce)
      (s : IsSendable f) where
    next-IsReady : IsReady max_noise_nonce (advanced 1 cs)
    next-IsReady = record { keyed = ready.keyed; below = more; end_fits = ready.end_fits }

    pub encrypt_frame_lem :
        encrypt_frame aead max_noise_nonce f cs ≡ (f, (advanced 2 cs, ok ciphertext))
    unfolding encrypt_frame ciphertext
    encrypt_frame_lem =
        rw
          (
            encode_plain f s.valid s.plain,
            encrypt_ready aead max_noise_nonce cs ready [] (header_wire f),
            encrypt_ready aead max_noise_nonce (advanced 1 cs) next-IsReady [] f.payload,
          )
          (ap (λ c. (f, (c, ok (sealed_header ++ sealed_payload)))) (advanced_twice cs))

    pub decrypt_frame_from_lem :
        {S : Type 0} (source : Source S) (s₀ s₁ s₂ : S)
        → source 22 s₀ ≡ returns (ok sealed_header, s₁)
        → source (f.message_length + 16) s₁ ≡ returns (ok sealed_payload, s₂)
        → decrypt_frame_from aead max_noise_nonce source s₀ cs ≡ returns (advanced 2 cs, (ok f, s₂))
    unfolding decrypt_frame_from
    decrypt_frame_from_lem source s₀ s₁ s₂ h₁ h₂ =
        rw
          (
            h₁,
            decrypt_header,
            decode_header_lem f Frame.empty s.valid,
            plain_text_len_one_chunk f.message_length s.not_empty s.one_chunk,
            h₂,
            decrypt_payload,
          )
          (ap₂ (λ c g. returns (c, (ok g, s₂))) (advanced_twice cs) whole)
      where
        decrypt_header :
            decrypt_with_ad aead max_noise_nonce [] sealed_header cs
            ≡ (advanced 1 cs, ok (header_wire f))
        decrypt_header = decrypt_ready aead max_noise_nonce cs ready [] (header_wire f)

        whole : record (with_header f Frame.empty) { payload = f.payload } ≡ f
        whole = ground (arith, s.plain)

        decrypt_payload :
            decrypt_with_ad aead max_noise_nonce [] sealed_payload (advanced 1 cs)
            ≡ (advanced 1 (advanced 1 cs), ok f.payload)
        decrypt_payload =
            decrypt_ready aead max_noise_nonce (advanced 1 cs) next-IsReady [] f.payload

module _ (aead : Aead) (max_noise_nonce : ℕ) where
  module _ (cs : CipherState) (f : Frame) where
    pub header_size : length (sealed_header aead max_noise_nonce cs f) ≡ 22
    header_size = aead.length-seal cs.k (nonce_bytes cs.n) (header_wire f) []

    pub payload_size :
        RoundTrip.IsValid f
        → length (sealed_payload aead max_noise_nonce cs f) ≡ f.message_length + 16
    payload_size v =
        omega (arith, aead.length-seal cs.k (nonce_bytes (cs.n + 1)) f.payload [], v.length_exact)

    pub length-ciphertext :
        RoundTrip.IsValid f → length (ciphertext aead max_noise_nonce cs f) ≡ f.message_length + 38
    unfolding ciphertext
    length-ciphertext v = omega (
      arith,
      length-append (sealed_header aead max_noise_nonce cs f)
          (sealed_payload aead max_noise_nonce cs f),
      header_size,
      payload_size v,
    )

  module _ (cs : CipherState) (f : Frame) (ready : IsReady max_noise_nonce cs)
      (more : cs.n + 1 < max_noise_nonce) (s : IsSendable f) where
    pub decrypt_frame_from_reader_lem :
        (rest : List ℕ)
        → decrypt_frame_from_reader aead max_noise_nonce
            (ciphertext aead max_noise_nonce cs f ++ rest)
            cs
          ≡ returns (advanced 2 cs, (ok f, rest))
    unfolding decrypt_frame_from_reader ciphertext
    decrypt_frame_from_reader_lem rest =
        decrypt_frame_from_lem aead max_noise_nonce cs f ready more s receive
          ((header ++ payload) ++ rest) (payload ++ rest) rest header_arrives payload_arrives
      where
        header : List ℕ
        header = sealed_header aead max_noise_nonce cs f

        payload : List ℕ
        payload = sealed_payload aead max_noise_nonce cs f

        header_arrives :
            receive 22 ((header ++ payload) ++ rest) ≡ returns (ok header, payload ++ rest)
        header_arrives = rw (append_assoc header) (
            subst
              (λ n. receive n (header ++ (payload ++ rest)) ≡ returns (ok header, payload ++ rest))
              (header_size cs f) (receive_front _ _))

        payload_arrives :
            receive (f.message_length + 16) (payload ++ rest) ≡ returns (ok payload, rest)
        payload_arrives =
            subst (λ n. receive n (payload ++ rest) ≡ returns (ok payload, rest))
              (payload_size cs f s.valid) (receive_front _ _)

    -- A frame is encrypted with no error, and the other side, at the same key and counter, reads
    -- the same frame off a connection and leaves what follows it; both counters move on by two.
    pub decrypt_frame-encrypt_frame :
        (rest : List ℕ)
        → (sent : List ℕ) × (encrypt_frame aead max_noise_nonce f cs
            ≡ (f, (advanced 2 cs, ok sent)))
          × (decrypt_frame_from_reader aead max_noise_nonce (sent ++ rest) cs
              ≡ returns (advanced 2 cs, (ok f, rest)))
    decrypt_frame-encrypt_frame rest = (
      ciphertext aead max_noise_nonce cs f,
      encrypt_frame_lem aead max_noise_nonce cs f ready more s,
      decrypt_frame_from_reader_lem rest,
    )
