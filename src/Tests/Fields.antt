-- ===== src/Tests/Fields.antt =====
-- TLV fields at concrete inputs.
use stratumv.Prelude.{◌+◌, ◌≡◌, refl, arith, none, some, [], ◌∷◌, ◌++◌, length, take, All}
use stratumv.Binary.LittleEndian.{le_bytes}
use stratumv.Binary.Outcome.{returns, view}
use stratumv.Frame.{Frame, sort, encode, decode, decode_from_reader, empty}
use stratumv.Frame.Tlv
use stratumv.Frame.Tlv.{Tlv}
use stratumv.Frame.Order.{IsOrdered, fields_of, encode_is_stable}
use stratumv.Frame.RoundTrip.{IsValid, header_wire}
use stratumv.Frame.Fields.{HasFields, with_fields, tlvs_wire, encode_fields, decode_tlv-encode}
use stratumv.Frame.Loop.{IsField, fields_wire, Ends, decode_fields, decode-Ends}
use stratumv.Frame.Stream.{decode_from_reader-encode}
use stratumv.Frame.Twice.{encode-encode}

abbrev worker : Tlv
worker = record { extension_type = 2; field_type = 1; size = 2; value = b'w' ∷ b'1' ∷ [] }

abbrev flag : Tlv
flag = record { extension_type = 1; field_type = 7; size = 1; value = 5 ∷ [] }

abbrev flagged : Frame
flagged = record {
  extension_type = 0;
  message_type = 27;
  message_length = 3;
  payload = 1 ∷ 2 ∷ 3 ∷ [];
  tlvs = worker ∷ flag ∷ [];
}

-- The field of the smaller extension type comes first.
sorted : sort flagged.tlvs ≡ flag ∷ worker ∷ []
unfolding sort
sorted = refl

flagged-HasFields : HasFields flagged
flagged-HasFields = omega arith

encode_is_stable_example :
    IsOrdered (encode flagged).0.tlvs
    × (fields_of 2 (encode flagged).0.tlvs ≡ worker ∷ [])
    × ((encode flagged).0.payload ≡ flagged.payload ++ tlvs_wire (encode flagged).0.tlvs)
    × ((encode flagged).1 ≡ (header_wire (encode flagged).0 ++ (encode flagged).0.payload, none))
encode_is_stable_example = encode_is_stable 2 flagged flagged-HasFields

encode_fields_example : encode flagged ≡ (
  with_fields flagged flagged.tlvs,
  (
    header_wire (with_fields flagged flagged.tlvs) ++ (with_fields flagged flagged.tlvs).payload,
    none,
  ),
)
encode_fields_example = encode_fields flagged flagged-HasFields

decode_tlv-encode_example :
    ((Tlv.encode worker).1 ≡ none)
    × (Tlv.decode (view ((Tlv.encode worker).0 ++ 9 ∷ []))
        ≡ returns (record worker { value = take 2 (le_bytes 2 2 ++ worker.value) }, none))
decode_tlv-encode_example =
    decode_tlv-encode worker (9 ∷ []) (omega arith) (omega arith) (omega arith) refl

flagged-IsValid : IsValid flagged
flagged-IsValid = omega arith

both-IsField : All IsField (worker ∷ flag ∷ [])
both-IsField = omega arith

decode_fields_example :
    decode (header_wire flagged ++ (flagged.payload ++ fields_wire (worker ∷ flag ∷ []))) empty
    ≡ some (returns (flagged, none))
decode_fields_example =
    decode_fields flagged empty (worker ∷ flag ∷ []) flagged-IsValid both-IsField (omega arith)

-- A field whose value is cut short.
decode-Ends_example :
    Ends (decode (header_wire flagged ++ flagged.payload ++ 0 ∷ 2 ∷ 1 ∷ 9 ∷ 0 ∷ 5 ∷ []) empty)
decode-Ends_example =
    decode-Ends (header_wire flagged ++ flagged.payload ++ 0 ∷ 2 ∷ 1 ∷ 9 ∷ 0 ∷ 5 ∷ []) empty

encode-encode_example :
    ((encode (encode flagged).0).1.1 ≡ none)
    × ((encode (encode flagged).0).0.payload
        ≡ flagged.payload ++ tlvs_wire (sort flagged.tlvs) ++ tlvs_wire (sort flagged.tlvs))
    × (length (encode (encode flagged).0).1.0
        ≡ length (encode flagged).1.0 + length (tlvs_wire flagged.tlvs))
encode-encode_example = encode-encode flagged flagged-HasFields (omega arith)

abbrev plain : Frame
plain = record flagged { tlvs = [] }

plain-IsValid : IsValid plain
plain-IsValid = omega arith

decode_from_reader-encode_example :
    ((encode plain).1.1 ≡ none)
    × (decode_from_reader ((encode plain).1.0 ++ 0 ∷ 0 ∷ []) flagged
        ≡ returns ((flagged, none), 0 ∷ 0 ∷ []))
decode_from_reader-encode_example =
    decode_from_reader-encode plain flagged (0 ∷ 0 ∷ []) plain-IsValid refl
