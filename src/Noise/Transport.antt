-- ===== src/Noise/Transport.antt =====
-- `EncryptFrame`, `DecryptFrame` and their forms for writers and readers, of noise.go.
pub mod Delivery
pub mod Session
pub mod Whole
use stratumv.Prelude.{
  ℕ, ◌+◌, ◌-◌, ◌<◌, Bool, Option, none, some, List, [], ◌∷◌, ◌++◌, length, take, drop, replicate,
  ltb, ◌==◌, if◌then◌else◌,
}
use stratumv.Binary.Failure.{
  Failure, Result, ok, err, end_of_file, unexpected_eof, encrypt_header, encrypt_payload,
  decrypt_header, decrypt_payload,
}
use stratumv.Binary.Outcome.{Outcome, returns, panics, Slice, view}
use stratumv.Binary.Reader
use stratumv.Binary.Reader.{Reader, Read, read_into}
use stratumv.Binary.Stream.{Source, receive}
use stratumv.Frame
use stratumv.Frame.{Frame, frame_header_size}
use stratumv.Noise.Aead.{Aead}
use stratumv.Noise.Cipher.{
  CipherState, encrypt_with_ad, decrypt_with_ad, plain_text_len_to_cipher_text_len,
}

-- `NoiseHeaderSize`
abbrev pub noise_header_size : ℕ
noise_header_size = 22

module _ (aead : Aead) (max_noise_nonce : ℕ) where
  -- The payload's step of `EncryptFrame`, and before it the header's.
  abbrev join : List ℕ → CipherState × Result (List ℕ) → CipherState × Result (List ℕ)
  join header (cs, err e) = (cs, err (encrypt_payload e))
  join header (cs, ok out) = (cs, ok (header ++ out))

  abbrev then_payload : List ℕ → CipherState × Result (List ℕ) → CipherState × Result (List ℕ)
  then_payload body (cs, err e) = (cs, err (encrypt_header e))
  then_payload body (cs, ok header) = join header (encrypt_with_ad aead max_noise_nonce [] body cs)

  abbrev encrypt_encoded : List ℕ × Option Failure → CipherState → CipherState × Result (List ℕ)
  encrypt_encoded (encoded, some e) cs = (cs, err e)
  encrypt_encoded (encoded, none) cs =
      then_payload (drop frame_header_size encoded)
        (encrypt_with_ad aead max_noise_nonce [] (take frame_header_size encoded) cs)

  -- The frame that `Encode` leaves behind, the new state and the bytes.
  unfoldable pub encrypt_frame : Frame → CipherState → Frame × (CipherState × Result (List ℕ))
  unfolding encrypt_with_ad Frame.encode
  encrypt_frame frame cs =
      let (frame', encoded) = Frame.encode frame in (frame', encrypt_encoded encoded cs)

  -- The bytes are written to the connection behind what is there already.
  abbrev pub written : List ℕ → CipherState × Result (List ℕ) → CipherState × (List ℕ × Result ℕ)
  written w (cs, err e) = (cs, (w, err e))
  written w (cs, ok bs) = (cs, (w ++ bs, ok (length bs)))

  unfoldable pub encrypt_frame_to_writer :
      Frame → List ℕ → CipherState → Frame × (CipherState × (List ℕ × Result ℕ))
  unfolding encrypt_frame
  encrypt_frame_to_writer frame w cs =
      let (frame', sent) = encrypt_frame frame cs in (frame', written w sent)

-- On a `BinaryReader`, one call of `Read` fills the buffer or returns an error. An empty buffer is
-- full before any call.
abbrev filled : ℕ → List ℕ × ℕ × Option Failure → Result (List ℕ)
filled n (dest, count, some e) = if ltb count n then err e else ok dest
filled n (dest, count, none) = if ltb count n then err unexpected_eof else ok dest

abbrev filled_from :
    ℕ → Outcome ((List ℕ × ℕ × Option Failure) × Reader) → Outcome (Result (List ℕ) × Reader)
filled_from n (returns (v, r)) = returns (filled n v, r)
filled_from n panics = panics

unfoldable pub read_full : Source Reader
unfolding read_into
read_full n r = if n == 0 then returns (ok [], r) else filled_from n (read_into (replicate n 0) r)

module _ (aead : Aead) (max_noise_nonce : ℕ) {S : Type 0} (source : Source S) where
  abbrev Received : Type 0
  Received = Outcome (CipherState × (Result Frame × S))

  -- The last step: the decrypted payload.
  abbrev pub with_payload : Frame → S → CipherState × Result (List ℕ) → Received
  with_payload frame s (cs, err e) = returns (cs, (err (decrypt_payload e), s))
  with_payload frame s (cs, ok payload) = returns (cs, (ok (record frame { payload = payload }), s))

  -- The ciphertext of the payload.
  abbrev pub payload_read : Frame → CipherState → Outcome (Result (List ℕ) × S) → Received
  payload_read frame cs (returns (err e, s)) = returns (cs, (err e, s))
  payload_read frame cs (returns (ok payload, s)) =
      with_payload frame s (decrypt_with_ad aead max_noise_nonce [] payload cs)
  payload_read frame cs panics = panics

  -- The decoded header says how long the payload is; its error is not looked at.
  abbrev pub header_decoded : CipherState → S → Outcome (Frame × Option Failure) → Received
  header_decoded cs s (returns (frame, e)) =
      payload_read frame cs (source (plain_text_len_to_cipher_text_len frame.message_length) s)
  header_decoded cs s panics = panics

  abbrev pub header_decrypted : S → CipherState × Result (List ℕ) → Received
  header_decrypted s (cs, err e) = returns (cs, (err (decrypt_header e), s))
  header_decrypted s (cs, ok decrypted) =
      header_decoded cs s (Frame.decode_header (view decrypted) Frame.empty)

  abbrev pub header_read : CipherState → Outcome (Result (List ℕ) × S) → Received
  header_read cs (returns (err e, s)) = returns (cs, (err e, s))
  header_read cs (returns (ok header, s)) =
      header_decrypted s (decrypt_with_ad aead max_noise_nonce [] header cs)
  header_read cs panics = panics

  unfoldable pub decrypt_frame_from : S → CipherState → Received
  unfolding decrypt_with_ad plain_text_len_to_cipher_text_len Frame.decode_header
  decrypt_frame_from s cs = header_read cs (source noise_header_size s)

module _ (aead : Aead) (max_noise_nonce : ℕ) where
  unfoldable pub decrypt_frame :
      Slice → CipherState → Outcome (CipherState × (Result Frame × Reader))
  unfolding decrypt_frame_from read_full
  decrypt_frame f cs = decrypt_frame_from aead max_noise_nonce read_full (Reader.new f) cs

  unfoldable pub decrypt_frame_from_reader :
      List ℕ → CipherState → Outcome (CipherState × (Result Frame × List ℕ))
  unfolding decrypt_frame_from receive
  decrypt_frame_from_reader stream cs = decrypt_frame_from aead max_noise_nonce receive stream cs
