-- ===== src/Frame/Twice.antt =====
-- A second `Encode` of a frame with TLV fields.
use stratumv.Prelude.{
  ℕ, ◌+◌, ◌<◌, ◌≡◌, ◌^◌, refl, ap, arith, none, List, [], ◌∷◌, ◌++◌, length, length-append,
}
use stratumv.Frame.{Frame, insert, sort, encode}
use stratumv.Frame.Order.{sort-sort}
use stratumv.Frame.Tlv.{Tlv}
use stratumv.Frame.Fields.{
  HasFields, with_fields, tlvs_wire, sort-TlvFits, length-sort, encode_fields,
}

length-sorted_some : (ts : List Tlv) → 0 < length ts → 0 < length (sort ts)
unfolding sort
length-sorted_some [] h = h
length-sorted_some (t ∷ ts) h = inserted (sort ts)
  where
    inserted : (us : List Tlv) → 0 < length (insert t us)
    inserted [] = omega arith
    inserted (u ∷ us) = ground arith

module _ (f : Frame) (h : HasFields f) where
  wire : List ℕ
  wire = tlvs_wire (sort f.tlvs)

  encoded-HasFields :
      length f.payload + length (tlvs_wire f.tlvs) + length (tlvs_wire f.tlvs) < 2 ^ 24
      → HasFields (with_fields f f.tlvs)
  encoded-HasFields small = record {
    some_field = length-sorted_some f.tlvs h.some_field;
    length_exact = refl;
    tlvs_fit = sort-TlvFits f.tlvs h.tlvs_fit;
    length_fits = omega (
      arith,
      length-append f.payload (tlvs_wire (sort f.tlvs)),
      length-sort f.tlvs,
      length-sort (sort f.tlvs),
    );
  }

  -- `Encode` leaves the fields in the payload of the frame, so that a second `Encode` of a frame
  -- with TLV fields writes them once more, and is longer by all their bytes.
  pub encode-encode :
      length f.payload + length (tlvs_wire f.tlvs) + length (tlvs_wire f.tlvs) < 2 ^ 24
      → ((encode (encode f).0).1.1 ≡ none)
        × ((encode (encode f).0).0.payload
            ≡ f.payload ++ tlvs_wire (sort f.tlvs) ++ tlvs_wire (sort f.tlvs))
        × (length (encode (encode f).0).1.0 ≡ length (encode f).1.0 + length (tlvs_wire f.tlvs))
  encode-encode small =
      rw (encode_fields f h, encode_fields (with_fields f f.tlvs) (encoded-HasFields small))
        (
          refl,
          ap (λ ts. (f.payload ++ tlvs_wire (sort f.tlvs)) ++ tlvs_wire ts) (sort-sort f.tlvs),
          omega (
            arith,
            length-append (f.payload ++ tlvs_wire (sort f.tlvs)) (tlvs_wire (sort (sort f.tlvs))),
            length-sort f.tlvs,
            length-sort (sort f.tlvs),
          ),
        )
