-- ===== src/Frame/Fields.antt =====
-- The bytes of TLV fields, alone and behind a frame's payload.
use stratumv.Prelude.{
  ℕ, ◌+◌, ◌%◌, ◌^◌, ◌<◌, ◌≡◌, refl, sym, ap, ◌∙◌, arith, true, none, List, [], ◌∷◌, ◌++◌,
  append_assoc, length, take, drop, length-append, length-take, take-drop, All, ◌==◌,
}
use stratumv.Binary.Failure.{ok}
use stratumv.Binary.LittleEndian.{le_bytes}
use stratumv.Binary.Outcome.{returns, view}
use stratumv.Binary.Builder
use stratumv.Binary.Builder.{bytes}
use stratumv.Binary.Builder.Laws.{Writes-then, add_u8-Writes, add_u16-Writes, add_bin64k-Writes}
use stratumv.Binary.Reader.ReadsBack.{
  Reads-map, Reads-bind, read_u16-Reads, read_u8-Reads, read_bytes-Reads, contents-Reads,
}
use stratumv.Binary.Codec.{run-Reads_front}
use stratumv.Frame.{Frame, insert, sort, header_and_payload, encode_body, encode, encode_tlvs}
use stratumv.Frame.RoundTrip.{header_wire, header_and_payload_lem}
use stratumv.Frame.Tlv
use stratumv.Frame.Tlv.{Tlv}

-- The bytes of a field: the length stands in them twice.
abbrev pub tlv_wire : Tlv → List ℕ
tlv_wire t =
    le_bytes 2 t.extension_type
    ++ t.field_type ∷ le_bytes 2 t.size
    ++ le_bytes 2 (length t.value)
    ++ t.value

pub encode_tlv_lem : (t : Tlv) → length t.value < 2 ^ 16 → Tlv.encode t ≡ (tlv_wire t, none)
unfolding Tlv.encode
encode_tlv_lem t h =
    ap bytes (
      (Writes-then (add_u16-Writes t.extension_type) (
          Writes-then (add_u8-Writes t.field_type)
            (Writes-then (add_u16-Writes t.size) (add_bin64k-Writes t.value)))).at
        Builder.new)
    ∙ unfold bytes in ground arith

-- `TLV.Decode` takes the first `size` bytes behind the first length for the value, and these begin
-- with the second length: of a field that fits and states its own length, the value that is read is
-- the first `size` bytes of the two bytes of that length and the value.
pub decode_tlv-encode :
    (t : Tlv) (rest : List ℕ)
    → t.extension_type < 2 ^ 16
    → t.field_type < 2 ^ 8
    → length t.value < 2 ^ 16
    → t.size ≡ length t.value
    → ((Tlv.encode t).1 ≡ none)
      × (Tlv.decode (view ((Tlv.encode t).0 ++ rest))
          ≡ returns (record t { value = take t.size (le_bytes 2 t.size ++ t.value) }, none))
unfolding Tlv.decode
decode_tlv-encode t rest he hf hv hs = rw (encode_tlv_lem t hv) (
  refl,
  rw parts (
      run-Reads_front rest_of (
        Reads-bind _ (read_u16-Reads t.extension_type he) (
          Reads-bind _ (read_u8-Reads t.field_type hf) (
            Reads-bind _ (read_u16-Reads t.size (omega arith)) (
              Reads-map (λ v. record t { value = v })
                (contents-Reads (read_bytes-Reads t.size (take t.size tail) whole))))))),
)
  where
    tail : List ℕ
    tail = le_bytes 2 t.size ++ t.value

    rest_of : List ℕ
    rest_of = drop t.size tail ++ rest

    whole : length (take t.size tail) ≡ t.size
    whole = omega (arith, length-take t.size tail, hs)

    parts :
        tlv_wire t ++ rest
        ≡ (le_bytes 2 t.extension_type
            ++ (t.field_type ∷ [])
            ++ le_bytes 2 t.size
            ++ take t.size tail)
          ++ rest_of
    parts =
        ap (λ l. le_bytes 2 t.extension_type ++ (t.field_type ∷ []) ++ le_bytes 2 t.size ++ l)
          (ap (λ n. le_bytes 2 n ++ t.value ++ rest) (sym hs)
            ∙ ap (λ l. l ++ rest) (sym (take-drop t.size tail))
            ∙ append_assoc (take t.size tail) (drop t.size tail) rest)

-- The bytes of fields, one after another.
abbrev pub tlvs_wire : List Tlv → List ℕ
tlvs_wire [] = []
tlvs_wire (t ∷ ts) = tlv_wire t ++ tlvs_wire ts

abbrev pub TlvFits : Tlv → Type 0
TlvFits t = length t.value < 2 ^ 16

encode_tlvs_lem : (ts : List Tlv) → All TlvFits ts → encode_tlvs ts ≡ ok (tlvs_wire ts)
unfolding encode_tlvs
encode_tlvs_lem [] h = refl
encode_tlvs_lem (t ∷ ts) h = rw (encode_tlv_lem t h.0, encode_tlvs_lem ts h.1) refl

insert-TlvFits : (t : Tlv) (ts : List Tlv) → TlvFits t → All TlvFits ts → All TlvFits (insert t ts)
insert-TlvFits t [] h hs = (h, hs)
insert-TlvFits t (u ∷ us) h hs = ground (arith, insert-TlvFits t us h hs.1)

pub sort-TlvFits : (ts : List Tlv) → All TlvFits ts → All TlvFits (sort ts)
unfolding sort
sort-TlvFits [] h = h
sort-TlvFits (t ∷ ts) h = insert-TlvFits t (sort ts) h.0 (sort-TlvFits ts h.1)

length-insert :
    (t : Tlv) (ts : List Tlv) → length (tlvs_wire (insert t ts)) ≡ length (tlvs_wire (t ∷ ts))
length-insert t [] = refl
length-insert t (u ∷ us) = ground (
  arith,
  length-insert t us,
  length-append t.value (tlvs_wire us),
  length-append u.value (tlvs_wire us),
  length-append t.value (tlv_wire u ++ tlvs_wire us),
  length-append u.value (tlvs_wire (insert t us)),
)

pub length-sort : (ts : List Tlv) → length (tlvs_wire (sort ts)) ≡ length (tlvs_wire ts)
unfolding sort
length-sort [] = refl
length-sort (t ∷ ts) = omega (
  arith,
  length-insert t (sort ts),
  length-sort ts,
  length-append t.value (tlvs_wire (sort ts)),
  length-append t.value (tlvs_wire ts),
)

-- A frame with TLV fields that fit, behind a payload of the length that the header states.
pub record HasFields (f : Frame) : Type 0 where
  pub some_field : 0 < length f.tlvs
  pub length_exact : f.message_length ≡ length f.payload
  pub tlvs_fit : All TlvFits f.tlvs
  pub length_fits : length f.payload + length (tlvs_wire f.tlvs) < 2 ^ 24

-- `f` when the fields `ts` are behind the payload.
abbrev pub with_fields : Frame → List Tlv → Frame
with_fields f ts = record f {
  tlvs = sort ts;
  message_length = length (f.payload ++ tlvs_wire (sort ts));
  payload = f.payload ++ tlvs_wire (sort ts);
}

abbrev at_length : Frame → List Tlv → ℕ → Frame
at_length f ts n = record (with_fields f ts) { message_length = n }

encode_body_lem :
    (f : Frame) (ts : List Tlv)
    → 0 < length ts
    → All TlvFits ts
    → f.message_length ≡ length f.payload
    → length f.payload + length (tlvs_wire ts) < 2 ^ 24
    → (let g = with_fields f ts in encode_body ts f ≡ (g, (header_wire g ++ g.payload, none)))
encode_body_lem f [] h fit exact small = absurd (omega arith)
encode_body_lem f (t ∷ ts) h fit exact small =
    rw (encode_tlvs_lem (sort (t ∷ ts)) (sort-TlvFits (t ∷ ts) fit)) (
      ap (λ n. (at_length f (t ∷ ts) n, header_and_payload (at_length f (t ∷ ts) n))) total
      ∙ ap (λ out. (with_fields f (t ∷ ts), out)) (header_and_payload_lem (with_fields f (t ∷ ts))))
  where
    bs : List ℕ
    bs = tlvs_wire (sort (t ∷ ts))

    total : (f.message_length + length bs % 4294967296) % 4294967296 ≡ length (f.payload ++ bs)
    total = omega (arith, length-append f.payload bs, length-sort (t ∷ ts))

-- Of a frame with TLV fields, whose header states the length of its payload, whose values have
-- fewer than 2 ^ 16 bytes and whose payload and fields together have fewer than 2 ^ 24, the fields are
-- written behind the payload, sorted, with no error, and the length in the header that is written is
-- that of both. The frame that is encoded keeps them in its payload.
pub encode_fields :
    (f : Frame)
    → HasFields f
    → (let g = with_fields f f.tlvs in encode f ≡ (g, (header_wire g ++ g.payload, none)))
unfolding encode
encode_fields f h =
    rw (same) (encode_body_lem f f.tlvs h.some_field h.tlvs_fit h.length_exact h.length_fits)
  where
    same : (f.message_length == length f.payload) ≡ true
    same = ground (arith, h.length_exact)
