-- ===== src/Frame/Order.antt =====
-- The order in which `Frame.Encode` puts the TLV fields.
use stratumv.Prelude.{
  ℕ, ◌≤◌, ◌≡◌, refl, ap, ◌∙◌, arith, none, List, [], ◌∷◌, ◌++◌, ◌==◌, if◌then◌else◌,
}
use stratumv.Frame.{Frame, insert, sort, encode}
use stratumv.Frame.Tlv.{Tlv}
use stratumv.Frame.RoundTrip.{header_wire}
use stratumv.Frame.Fields.{HasFields, tlvs_wire, encode_fields}

-- `m` is no larger than the type of the first field.
abbrev pub IsBelow : ℕ → List Tlv → Type 0
IsBelow m [] = m ≤ m
IsBelow m (t ∷ ts) = m ≤ t.extension_type

-- The extension types do not decrease.
abbrev pub IsOrdered : List Tlv → Type 0
IsOrdered [] = 0 ≤ 0
IsOrdered (t ∷ ts) = IsBelow t.extension_type ts × IsOrdered ts

-- The fields of one extension, as they stand.
abbrev pub fields_of : ℕ → List Tlv → List Tlv
fields_of e [] = []
fields_of e (t ∷ ts) = let rest = fields_of e ts in if t.extension_type == e then t ∷ rest else rest

insert-IsBelow :
    (m : ℕ) (t : Tlv) (ts : List Tlv)
    → m ≤ t.extension_type
    → IsBelow m ts
    → IsBelow m (insert t ts)
insert-IsBelow m t [] h k = h
insert-IsBelow m t (u ∷ us) h k = ground arith

insert-IsOrdered : (t : Tlv) (ts : List Tlv) → IsOrdered ts → IsOrdered (insert t ts)
insert-IsOrdered t [] h = omega arith
insert-IsOrdered t (u ∷ us) h =
    ground (arith, insert-IsBelow u.extension_type t us, insert-IsOrdered t us h.1)

fields_of-insert :
    (e : ℕ) (t : Tlv) (ts : List Tlv) → fields_of e (insert t ts) ≡ fields_of e (t ∷ ts)
fields_of-insert e t [] = refl
fields_of-insert e t (u ∷ us) = ground (arith, fields_of-insert e t us)

sort-IsOrdered : (ts : List Tlv) → IsOrdered (sort ts)
unfolding sort
sort-IsOrdered [] = omega arith
sort-IsOrdered (t ∷ ts) = insert-IsOrdered t (sort ts) (sort-IsOrdered ts)

fields_of-sort : (e : ℕ) (ts : List Tlv) → fields_of e (sort ts) ≡ fields_of e ts
unfolding sort
fields_of-sort e [] = refl
fields_of-sort e (t ∷ ts) =
    fields_of-insert e t (sort ts)
    ∙ ap (λ rest. if t.extension_type == e then t ∷ rest else rest) (fields_of-sort e ts)

-- `Encode` of a frame with TLV fields that fit (`HasFields`) leaves the fields in the order of their
-- extension types; the fields of each extension are those before, in the same order, so that none is
-- lost, added or moved past an equal one; and what `Encode` returns, with no error, is the header and
-- the payload of the frame that it leaves, which is the payload before with the bytes of the fields
-- behind it, in that order.
pub encode_is_stable :
    (e : ℕ) (f : Frame)
    → HasFields f
    → (let g = (encode f).0 in
        IsOrdered g.tlvs
        × (fields_of e g.tlvs ≡ fields_of e f.tlvs)
        × (g.payload ≡ f.payload ++ tlvs_wire g.tlvs)
        × ((encode f).1 ≡ (header_wire g ++ g.payload, none)))
encode_is_stable e f h =
    rw (encode_fields f h) (sort-IsOrdered f.tlvs, fields_of-sort e f.tlvs, refl, refl)

insert_in_front : (t : Tlv) (ts : List Tlv) → IsBelow t.extension_type ts → insert t ts ≡ t ∷ ts
insert_in_front t [] h = refl
insert_in_front t (u ∷ us) h = ground arith

-- Fields that are in order stay as they are.
pub sort_ordered : (ts : List Tlv) → IsOrdered ts → sort ts ≡ ts
unfolding sort
sort_ordered [] h = refl
sort_ordered (t ∷ ts) h = ap (insert t) (sort_ordered ts h.1) ∙ insert_in_front t ts h.0

pub sort-sort : (ts : List Tlv) → sort (sort ts) ≡ sort ts
sort-sort ts = sort_ordered (sort ts) (sort-IsOrdered ts)
