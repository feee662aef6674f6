-- ===== src/Binary/Failure.antt =====
-- The `error` values of binary.go, types.go and noise.go, one constructor for each `errors.New`,
-- and one for each `fmt.Errorf` that wraps an error. `end_of_file` and `unexpected_eof` are io.EOF
-- and io.ErrUnexpectedEOF, and `bad_seal` is what opening a sealed text returns. The errors of
-- other packages have a constructor for each function that returns them. `cert_rejected` is what
-- examples/logger says of a certificate whose signature is wrong.

-- `nil` is `none` of `Option Failure`.
pub data Failure : Type 0 where
  add_str_len add_bin32_len add_bin255_len add_bin64k_len add_bin16m_len : Failure
  add_seq1_len add_seq255_len add_seq64k_len : Failure
  past_end invalid_bool read_seq1_len read_bin32_len seek_bounds end_of_file : Failure
  set_bytes_len unexpected_eof : Failure
  frame_too_long length_mismatch : Failure
  nonce_exhausted bad_seal : Failure
  cert_len cert_version cert_not_yet_valid cert_expired : Failure
  bad_signature bad_public_key bad_point not_signed no_encoding no_random : Failure
  bad_base58 bad_key_version : Failure
  set_string_len bad_hex unknown_message_type : Failure
  cert_rejected : Failure
  encrypt_header encrypt_payload decrypt_header decrypt_payload : Failure → Failure

-- A value, or a non-nil error beside a value that is not used.
pub data Result {ℓ} (A : Type ℓ) : Type ℓ where
  ok : A → Result A
  err : Failure → Result A
