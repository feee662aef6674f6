-- ===== src/Noise/Transport/Whole.antt =====
-- `DecryptFrame` on the bytes of a whole frame.
use stratumv.Prelude.{
  ℕ, zero, suc, ◌+◌, ◌<◌, ◌≡◌, refl, sym, ap, ◌∙◌, arith, false, List, [], ◌++◌, append-nil,
  append_assoc, length, drop, replicate, ltb, ◌==◌,
}
use stratumv.Binary.Failure.{ok}
use stratumv.Binary.Outcome.{returns, view}
use stratumv.Binary.Reader.{Reader, read, read_into}
use stratumv.Binary.Reader.ReadsBack.{between, read-Reads}
use stratumv.Frame.{Frame}
use stratumv.Noise.Aead.{Aead}
use stratumv.Noise.Cipher.{CipherState}
use stratumv.Noise.Cipher.Laws.{IsReady, advanced}
use stratumv.Noise.Transport.{read_full, decrypt_frame, encrypt_frame}
use stratumv.Noise.Transport.Delivery.{
  IsSendable, ciphertext, sealed_header, sealed_payload, header_size, payload_size,
  encrypt_frame_lem, decrypt_frame_from_lem,
}

length-zeros : (n : ℕ) → length {A = ℕ} (replicate n 0) ≡ n
length-zeros zero = refl
length-zeros (suc n) = ap suc (length-zeros n)

drop-zeros : (n : ℕ) → drop {A = ℕ} n (replicate n 0) ≡ []
drop-zeros zero = refl
drop-zeros (suc n) = drop-zeros n

-- `io.ReadFull` on a reader takes the next bytes.
read_full_front :
    (n : ℕ) (before a after : List ℕ)
    → n ≡ length a
    → 0 < n
    → read_full n (between before (a ++ after)) ≡ returns (ok a, between (before ++ a) after)
unfolding read_full read_into
read_full_front n before a after h some =
    rw (not_zero, length-zeros n, not_zero, taken, no_zeros, append-nil a, all_read) refl
  where
    not_zero : (n == 0) ≡ false
    not_zero = ground arith

    no_zeros : drop {A = ℕ} (length a) (replicate n 0) ≡ []
    no_zeros = ap (λ m. drop (length a) (replicate m 0)) h ∙ drop-zeros (length a)

    all_read : ltb (length a) n ≡ false
    all_read = ground arith

    taken : read n (between before (a ++ after)) ≡ returns (view a, between (before ++ a) after)
    taken = ap (λ m. read m (between before (a ++ after))) h ∙ (read-Reads a).at before after

module _ (aead : Aead) (max_noise_nonce : ℕ) (cs : CipherState) (f : Frame)
    (ready : IsReady max_noise_nonce cs) (more : cs.n + 1 < max_noise_nonce)
    (s : IsSendable f) where
  -- What `EncryptFrame` returns, the other side, at the same key and counter, decrypts from a byte
  -- slice by `DecryptFrame`, also if more bytes follow in the slice.
  pub decrypt_frame-whole :
      (rest : List ℕ)
      → (sent : List ℕ) × (left : Reader) × (encrypt_frame aead max_noise_nonce f cs
          ≡ (f, (advanced 2 cs, ok sent)))
        × (decrypt_frame aead max_noise_nonce (view (sent ++ rest)) cs
            ≡ returns (advanced 2 cs, (ok f, left)))
  unfolding decrypt_frame ciphertext
  decrypt_frame-whole rest = (
    header ++ payload,
    between (header ++ payload) rest,
    encrypt_frame_lem aead max_noise_nonce cs f ready more s,
    decrypt_frame_from_lem aead max_noise_nonce cs f ready more s read_full
        (between [] ((header ++ payload) ++ rest)) (between header (payload ++ rest))
        (between (header ++ payload) rest) header_arrives payload_arrives,
  )
    where
      header : List ℕ
      header = sealed_header aead max_noise_nonce cs f

      payload : List ℕ
      payload = sealed_payload aead max_noise_nonce cs f

      header_arrives :
          read_full 22 (between [] ((header ++ payload) ++ rest))
          ≡ returns (ok header, between header (payload ++ rest))
      header_arrives =
          ap (λ l. read_full 22 (between [] l)) (append_assoc header payload rest)
          ∙ read_full_front 22 [] header (payload ++ rest)
              (sym (header_size aead max_noise_nonce cs f)) (omega arith)

      payload_arrives :
          read_full (f.message_length + 16) (between header (payload ++ rest))
          ≡ returns (ok payload, between (header ++ payload) rest)
      payload_arrives =
          read_full_front (f.message_length + 16) header payload rest
            (sym (payload_size aead max_noise_nonce cs f s.valid)) (omega arith)
