-- ===== src/Frame/RoundTrip.antt =====
-- A frame that is encoded is decoded again, and carries its message.
use mathlib.Core.Path.{subst}
use stratumv.Prelude.{
  ℕ, ◌+◌, ◌-◌, ◌%◌, ◌^◌, ◌<◌, ◌≤◌, ◌≡◌, refl, sym, ap, ◌∙◌, arith, false, Option, none, some, List,
  [], ◌∷◌, ◌++◌, append-nil, append_assoc, length, take, take-append, drop-append, length-append,
  ltb,
}
use stratumv.Binary.Failure.{Failure, ok}
use stratumv.Binary.LittleEndian.{le_bytes}
use stratumv.Binary.Outcome.{Outcome, returns, view}
use stratumv.Binary.Builder
use stratumv.Binary.Builder.{bytes}
use stratumv.Binary.Builder.Laws.{
  Writes-then, add_u8-Writes, add_u16-Writes, add_u24-Writes, add_bytes-Writes,
}
use stratumv.Binary.Reader.ReadsBack.{
  Reads-map, Reads-bind, Reads-pure, read_u16-Reads, read_u8-Reads, read_u24-Reads,
  read_bytes-Reads, contents-Reads,
}
use stratumv.Binary.Codec.{run-Reads}
use stratumv.Frame.{
  Frame, LawfulCodable, empty, new_frame_from_params, to_params, header_and_payload, encode,
  decode_header, read_payload, decode, sub_slice,
}

-- The header's values fit, and the length is that of the payload.
pub record IsValid (f : Frame) : Type 0 where
  pub extension_fits : f.extension_type < 2 ^ 16
  pub message_fits : f.message_type < 2 ^ 8
  pub length_fits : f.message_length < 2 ^ 24
  pub length_exact : f.message_length ≡ length f.payload

abbrev pub header_wire : Frame → List ℕ
header_wire f = le_bytes 2 f.extension_type ++ f.message_type ∷ le_bytes 3 f.message_length

-- `g` after the header of `f` has been read.
abbrev pub with_header : Frame → Frame → Frame
with_header f g = record g {
  extension_type = f.extension_type;
  message_type = f.message_type;
  message_length = f.message_length;
}

pub header_and_payload_lem : (f : Frame) → header_and_payload f ≡ (header_wire f ++ f.payload, none)
header_and_payload_lem f =
    ap bytes (
      (Writes-then (add_u16-Writes f.extension_type) (
          Writes-then (add_u8-Writes f.message_type)
            (Writes-then (add_u24-Writes f.message_length) (add_bytes-Writes f.payload)))).at
        Builder.new)
    ∙ unfold bytes in refl

-- `decode_header` on the header's bytes sets the header's fields.
pub decode_header_lem :
    (f g : Frame)
    → IsValid f
    → decode_header (view (header_wire f)) g ≡ returns (with_header f g, none)
unfolding decode_header
decode_header_lem f g v = run-Reads (
    Reads-bind _ (read_u16-Reads _ v.extension_fits) (
      Reads-bind _ (read_u8-Reads _ v.message_fits)
        (Reads-bind _ (read_u24-Reads _ v.length_fits) (Reads-pure _))))

pub read_payload_lem :
    (f g : Frame)
    → g.message_length ≡ length f.payload
    → read_payload (view f.payload) g ≡ returns (record g { payload = f.payload }, none)
unfolding read_payload
read_payload_lem f g h = run-Reads (
    Reads-map (λ payload. record g { payload = payload })
      (contents-Reads (read_bytes-Reads g.message_length f.payload (sym h))))

-- `b[lo:hi]` of three parts is the middle one.
pub sub_slice_lem :
    (front mid back : List ℕ) (hi : ℕ) (k : List ℕ → Outcome (Frame × Option Failure))
    → hi ≡ length front + length mid
    → sub_slice (front ++ (mid ++ back)) (length front) hi k ≡ k mid
sub_slice_lem front mid back hi k h = rw (long_enough, drop-append front (mid ++ back), middle) refl
  where
    long_enough : ltb (length (front ++ (mid ++ back))) hi ≡ false
    long_enough = ground (arith, length-append front (mid ++ back), length-append mid back)

    middle : take (hi - length front) (mid ++ back) ≡ mid
    middle = subst (λ n. take n (mid ++ back) ≡ mid) (omega arith) (take-append mid back)

pub encode_plain :
    (f : Frame) → IsValid f → f.tlvs ≡ [] → encode f ≡ (f, (header_wire f ++ f.payload, none))
unfolding encode
encode_plain f v h = ground (arith, v.length_exact, header_and_payload_lem f)

pub header_parts :
    (f g : Frame) (back : List ℕ)
    → IsValid f
    → sub_slice (header_wire f ++ back) 0 6 (λ header. decode_header (view header) g)
      ≡ returns (with_header f g, none)
header_parts f g back v =
    sub_slice_lem [] (header_wire f) back 6 (λ header. decode_header (view header) g) refl
    ∙ decode_header_lem f g v

-- What follows the payload is no TLV field if it has at most five bytes.
decode_plain :
    (f g : Frame) (rest : List ℕ)
    → IsValid f
    → length rest ≤ 5
    → decode (header_wire f ++ (f.payload ++ rest)) g
      ≡ some (returns (record f { tlvs = g.tlvs }, none))
unfolding decode
decode_plain f g rest v h =
    rw
      (
        header_parts f g (f.payload ++ rest) v,
        payload_part,
        read_payload_lem f (with_header f g) v.length_exact,
        short,
      )
      refl
  where
    payload_part :
        sub_slice
          (header_wire f ++ (f.payload ++ rest))
          6
          (6 + f.message_length)
          (λ body. read_payload (view body) (with_header f g))
        ≡ read_payload (view f.payload) (with_header f g)
    payload_part =
        sub_slice_lem (header_wire f) f.payload rest (6 + f.message_length)
          (λ body. read_payload (view body) (with_header f g)) (omega (arith, v.length_exact))

    short : ltb (6 + f.message_length + 5) (length (header_wire f ++ (f.payload ++ rest))) ≡ false
    short = ground (arith, v.length_exact, length-append f.payload rest)

-- A frame without TLV fields whose header fits is encoded with no error, and `Decode` into any
-- receiver gives it back, with the receiver's TLV fields, also if up to five bytes follow.
pub decode-encode :
    (f g : Frame) (rest : List ℕ)
    → IsValid f
    → f.tlvs ≡ []
    → length rest ≤ 5
    → ((encode f).1.1 ≡ none)
      × (decode ((encode f).1.0 ++ rest) g ≡ some (returns (record f { tlvs = g.tlvs }, none)))
decode-encode f g rest v plain h =
    rw (encode_plain f v plain)
      (refl, rw (append_assoc (header_wire f) f.payload rest) (decode_plain f g rest v h))

module _ {A : Type 0} (c : LawfulCodable A) where
  -- `NewFrameFromParams` of a message that fits, and `ToParams` of the frame.
  pub new_frame_from_params_lem :
      (message_type extension_type : ℕ) (m : A)
      → c.Fits m
      → message_type < 2 ^ 8
      → extension_type < 2 ^ 16
      → length (c.codable.encode m).0 < 2 ^ 24
      → (f : Frame) × (new_frame_from_params c.codable message_type extension_type m ≡ ok f)
        × IsValid f
        × (f.tlvs ≡ [])
        × (f.payload ≡ (c.codable.encode m).0)
        × (f.message_type ≡ message_type)
        × (to_params c.codable f ≡ returns (m, none))
  unfolding new_frame_from_params to_params
  new_frame_from_params_lem message_type extension_type m fits hm he hl =
      (f, framed, valid, refl, refl, refl, opened)
    where
      bs : List ℕ
      bs = (c.codable.encode m).0

      f : Frame
      f = record {
        extension_type = extension_type;
        message_type = message_type;
        message_length = length bs % 4294967296;
        payload = bs;
        tlvs = [];
      }

      valid : IsValid f
      valid = record {
        extension_fits = he;
        message_fits = hm;
        length_fits = omega arith;
        length_exact = omega arith;
      }

      framed : new_frame_from_params c.codable message_type extension_type m ≡ ok f
      framed = ground (arith, (c.round_trips m fits).0)

      opened : to_params c.codable f ≡ returns (m, none)
      opened = rw (append-nil bs) at ((c.round_trips m fits).1 [])

  -- A message that fits is framed, encoded, decoded and read from the frame again: every step
  -- succeeds, the frame arrives as it was sent, and so does the message.
  pub message_arrives :
      (message_type extension_type : ℕ) (m : A)
      → c.Fits m
      → message_type < 2 ^ 8
      → extension_type < 2 ^ 16
      → length (c.codable.encode m).0 < 2 ^ 24
      → (f : Frame) × (new_frame_from_params c.codable message_type extension_type m ≡ ok f)
        × ((encode f).1.1 ≡ none)
        × (decode (encode f).1.0 empty ≡ some (returns (f, none)))
        × (to_params c.codable f ≡ returns (m, none))
  message_arrives message_type extension_type m fits hm he hl =
      let (f, framed, valid, plain, same, same_type, opened) =
        new_frame_from_params_lem message_type extension_type m fits hm he hl in
      let sent = decode-encode f empty [] valid plain (omega arith) in
      (
        f,
        framed,
        sent.0,
        rw (append-nil (encode f).1.0) at sent.1
            ∙ ap (λ tlvs. some (returns (record f { tlvs = tlvs }, none))) (sym plain),
        opened,
      )
