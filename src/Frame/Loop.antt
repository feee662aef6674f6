-- ===== src/Frame/Loop.antt =====
-- The loop of `Frame.Decode` over the TLV fields behind the payload.
use stratumv.Prelude.{
  ℕ, zero, suc, ◌+◌, ◌^◌, ◌≤◌, ◌<◌, ◌≡◌, Bool-cases, inl, inr, refl, sym, ap, ◌∙◌, arith, true,
  false, Option, none, some, List, [], ◌∷◌, ◌++◌, append-nil, append_assoc, length, drop,
  length-append, length-drop, drop-append, All, ltb,
}
use stratumv.Binary.Failure.{Failure}
use stratumv.Binary.LittleEndian.{le_bytes}
use stratumv.Binary.Outcome.{Outcome, returns, panics, view}
use stratumv.Binary.Reader.ReadsBack.{
  Reads-map, Reads-bind, read_u16-Reads, read_u8-Reads, read_bytes-Reads, contents-Reads,
}
use stratumv.Binary.Codec.{run-Reads_front}
use stratumv.Frame.{
  Frame, Decoding, behind_payload, add_tlv, sub_slice, read_payload, decode, decode_tlvs,
}
use stratumv.Frame.RoundTrip.{
  IsValid, header_wire, with_header, header_parts, sub_slice_lem, read_payload_lem,
}
use stratumv.Frame.Tlv
use stratumv.Frame.Tlv.{Tlv}

-- The fuel has not run out.
pub record Ends (decoding : Decoding) : Type 0 where
  pub outcome : Outcome (Frame × Option Failure)
  pub ended : decoding ≡ some outcome

add_tlv-Ends :
    (f : Frame) (out : Outcome (Tlv × Option Failure)) (k : Tlv → Frame → Decoding)
    → ((t : Tlv) (g : Frame) → Ends (k t g))
    → Ends (add_tlv f out k)
add_tlv-Ends f (returns (t, none)) k h = h t _
add_tlv-Ends f (returns (t, some e)) k h = record { outcome = _; ended = refl }
add_tlv-Ends f panics k h = record { outcome = _; ended = refl }

not_short : (a b : ℕ) → ltb a b ≡ false → b ≤ a
not_short a b h = ground arith

is_longer : (a b : ℕ) → ltb a b ≡ true → a < b
is_longer a b h = ground arith

-- Each round of the loop takes five bytes at least, so that fuel beyond the length of the data is
-- enough.
decode_tlvs-Ends :
    (fuel : ℕ) (b : List ℕ) (f : Frame) → length b < fuel → Ends (decode_tlvs fuel b f)
unfolding decode_tlvs
decode_tlvs-Ends zero b f h = absurd (omega arith)
decode_tlvs-Ends (suc fuel) b f h = elim (Bool-cases (ltb (length b) 5)) [
  | inl e ↦ rw e (record { outcome = _; ended = refl })
  | inr e ↦
      let long : 5 ≤ length b = not_short (length b) 5 e in
      rw e (
        add_tlv-Ends f (Tlv.decode (view b)) _ (λ t g.
          decode_tlvs-Ends fuel (drop (t.size + 5) b) g
            (omega (arith, h, long, length-drop (t.size + 5) b))))
]

behind_payload-Ends :
    (b : List ℕ) (out : Outcome (Frame × Option Failure)) → Ends (behind_payload b out)
behind_payload-Ends b (returns (f, none)) = elim (Bool-cases (ltb (n + 5) (length b))) [
  | inl e ↦
      let long : n + 5 < length b = is_longer (n + 5) (length b) e in
      rw e (decode_tlvs-Ends (length b) (drop n b) f (omega (arith, long, length-drop n b)))
  | inr e ↦ rw e (record { outcome = _; ended = refl })
]
  where
    n : ℕ
    n = 6 + f.message_length
behind_payload-Ends b (returns (f, some e)) = record { outcome = _; ended = refl }
behind_payload-Ends b panics = record { outcome = _; ended = refl }

-- `Frame.Decode` ends on any bytes and any receiver: its loop over the TLV fields does not run out of the
-- fuel that it is given, the length of the bytes.
pub decode-Ends : (b : List ℕ) (f : Frame) → Ends (decode b f)
unfolding decode
decode-Ends b f = behind_payload-Ends b _

-- A field as the protocol has it: its type, its length, its value.
abbrev pub field_wire : Tlv → List ℕ
field_wire t = le_bytes 2 t.extension_type ++ t.field_type ∷ le_bytes 2 t.size ++ t.value

abbrev pub fields_wire : List Tlv → List ℕ
fields_wire [] = []
fields_wire (t ∷ ts) = field_wire t ++ fields_wire ts

pub record IsField (t : Tlv) : Type 0 where
  pub extension_fits : t.extension_type < 2 ^ 16
  pub type_fits : t.field_type < 2 ^ 8
  pub size_fits : t.size < 2 ^ 16
  pub size_exact : length t.value ≡ t.size

decode_field :
    (t : Tlv) (rest : List ℕ)
    → IsField t
    → Tlv.decode (view (field_wire t ++ rest)) ≡ returns (t, none)
unfolding Tlv.decode
decode_field t rest v = run-Reads_front rest (
    Reads-bind _ (read_u16-Reads t.extension_type v.extension_fits) (
      Reads-bind _ (read_u8-Reads t.field_type v.type_fits) (
        Reads-bind _ (read_u16-Reads t.size v.size_fits) (
          Reads-map (λ value. record t { value = value })
            (contents-Reads (read_bytes-Reads t.size t.value v.size_exact))))))

drop_field : (t : Tlv) (rest : List ℕ) → IsField t → drop (t.size + 5) (field_wire t ++ rest) ≡ rest
drop_field t rest v = ap (λ n. drop n (field_wire t ++ rest)) all ∙ drop-append (field_wire t) rest
  where
    all : t.size + 5 ≡ length (field_wire t)
    all = omega (arith, v.size_exact)

decode_tlvs_fields :
    (fuel : ℕ) (ts : List Tlv) (f : Frame)
    → length (fields_wire ts) < fuel
    → All IsField ts
    → decode_tlvs fuel (fields_wire ts) f ≡ some (returns (record f { tlvs = f.tlvs ++ ts }, none))
unfolding decode_tlvs
decode_tlvs_fields zero ts f h v = absurd (omega arith)
decode_tlvs_fields (suc fuel) [] f h v =
    ap (λ ts. some (returns (record f { tlvs = ts }, none))) (sym (append-nil f.tlvs))
decode_tlvs_fields (suc fuel) (t ∷ ts) f h v =
    rw (decode_field t (fields_wire ts) v.0, drop_field t (fields_wire ts) v.0, long)
      (decode_tlvs_fields fuel ts (record f { tlvs = f.tlvs ++ t ∷ [] })
          (omega (arith, h, length-append t.value (fields_wire ts))) v.1
        ∙ ap (λ ts. some (returns (record f { tlvs = ts }, none)))
            (append_assoc f.tlvs (t ∷ []) ts))
  where
    long : ltb (length (fields_wire (t ∷ ts))) 5 ≡ false
    long = ground (arith, length-append t.value (fields_wire ts))

-- A frame with a payload and TLV fields behind it, each with its length once, is decoded to the
-- payload and the fields behind those of the receiver, if the fields take more than five bytes.
pub decode_fields :
    (f g : Frame) (ts : List Tlv)
    → IsValid f
    → All IsField ts
    → 5 < length (fields_wire ts)
    → decode (header_wire f ++ (f.payload ++ fields_wire ts)) g
      ≡ some (returns (record f { tlvs = g.tlvs ++ ts }, none))
unfolding decode
decode_fields f g ts v fit h =
    rw
      (
        header_parts f g (f.payload ++ fields_wire ts) v,
        payload_part,
        read_payload_lem f (with_header f g) v.length_exact,
        long,
        behind,
      )
      (decode_tlvs_fields (length wire) ts (record f { tlvs = g.tlvs })
        (omega (arith, length-append f.payload (fields_wire ts))) fit)
  where
    wire : List ℕ
    wire = header_wire f ++ (f.payload ++ fields_wire ts)

    payload_part :
        sub_slice wire 6 (6 + f.message_length) (λ body. read_payload (view body) (with_header f g))
        ≡ read_payload (view f.payload) (with_header f g)
    payload_part =
        sub_slice_lem (header_wire f) f.payload (fields_wire ts) (6 + f.message_length)
          (λ body. read_payload (view body) (with_header f g)) (omega (arith, v.length_exact))

    long : ltb (6 + f.message_length + 5) (length wire) ≡ true
    long = ground (arith, v.length_exact, length-append f.payload (fields_wire ts))

    size : 6 + f.message_length ≡ length (header_wire f ++ f.payload)
    size = omega (arith, v.length_exact)

    behind : drop (6 + f.message_length) wire ≡ fields_wire ts
    behind =
        ap (λ n. drop n wire) size
        ∙ ap (drop (length (header_wire f ++ f.payload)))
            (sym (append_assoc (header_wire f) f.payload (fields_wire ts)))
        ∙ drop-append (header_wire f ++ f.payload) (fields_wire ts)
