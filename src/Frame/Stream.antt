-- ===== src/Frame/Stream.antt =====
-- `DecodeFromReader` of a frame on a connection.
use stratumv.Prelude.{
  ℕ, ◌-◌, ◌≡◌, refl, ap, ◌∙◌, arith, none, List, [], ◌++◌, append-nil, append_assoc, length, take,
  replicate, take-append, length-append,
}
use stratumv.Binary.Failure.{ok}
use stratumv.Binary.Outcome.{returns}
use stratumv.Binary.Stream.{receive, receive_front}
use stratumv.Frame.{Frame, encode, decode_from_reader}
use stratumv.Frame.RoundTrip.{IsValid, header_wire, encode_plain, decode_header_lem}

front_of : (n : ℕ) (a b : List ℕ) → n ≡ length a → receive n (a ++ b) ≡ returns (ok a, b)
front_of n a b h = ap (λ m. receive m (a ++ b)) h ∙ receive_front a b

filled_front :
    (n : ℕ) (a b : List ℕ) → n ≡ length a → take n (a ++ b) ++ replicate (n - length (a ++ b)) 0 ≡ a
filled_front n a b h =
    ap (λ m. take m (a ++ b) ++ replicate (m - length (a ++ b)) 0) h
    ∙ rw (take-append a b, none_missing) (append-nil a)
  where
    none_missing : length a - length (a ++ b) ≡ 0
    none_missing = omega (arith, length-append a b)

decode_from_reader_lem :
    (f g : Frame) (rest : List ℕ)
    → IsValid f
    → decode_from_reader (header_wire f ++ (f.payload ++ rest)) g
      ≡ returns ((record f { tlvs = g.tlvs }, none), rest)
unfolding decode_from_reader
decode_from_reader_lem f g rest v =
    rw
      (
        front_of 6 (header_wire f) (f.payload ++ rest) refl,
        decode_header_lem f g v,
        filled_front f.message_length f.payload rest v.length_exact,
        front_of f.message_length f.payload rest v.length_exact,
      )
      refl

-- A frame without TLV fields whose header fits, encoded and sent over a connection, is received by
-- `DecodeFromReader` into any receiver, with the receiver's TLV fields, and what follows it on the
-- connection is left there.
pub decode_from_reader-encode :
    (f g : Frame) (rest : List ℕ)
    → IsValid f
    → f.tlvs ≡ []
    → ((encode f).1.1 ≡ none)
      × (decode_from_reader ((encode f).1.0 ++ rest) g
          ≡ returns ((record f { tlvs = g.tlvs }, none), rest))
decode_from_reader-encode f g rest v plain =
    rw (encode_plain f v plain)
      (refl, rw (append_assoc (header_wire f) f.payload rest) (decode_from_reader_lem f g rest v))
