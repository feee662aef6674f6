-- ===== src/MessageTypes/Names.antt =====
-- The names of the message types differ.
use Prim.Native.String.{String}
use text.Mathlib.Text.{◌==◌}
use text.Mathlib.TextEquality.{eq_iff}
use stratumv.Prelude.{
  ℕ, ◌≡◌, ◌⊎◌, inl, inr, refl, sym, ap, ◌∙◌, arith, Bool, true, false, not, ◌&&◌, ==_iff, List, [],
  ◌∷◌, if◌then◌else◌,
}
use stratumv.Binary.Failure.{Result, ok}
use stratumv.MessageTypes.{or_case, switch, cases, name_or_empty, message_type_to_string}

abbrev absent : String → List (ℕ × String) → Bool
absent name [] = true
absent name ((u, other) ∷ cs) = not (name == other) && absent name cs

abbrev apart : List (ℕ × String) → Bool
apart [] = true
apart ((u, name) ∷ cs) = absent name cs && apart cs

both : (a b : Bool) → (a && b) ≡ true → (a ≡ true) × (b ≡ true)
both a b h = ground arith

chosen :
    (b : Bool) (a name : String) (r : Result String)
    → (if b then ok a else r) ≡ ok name
    → ((b ≡ true) × (a ≡ name)) ⊎ (r ≡ ok name)
chosen true a name r h = inl (refl, ap name_or_empty h)
chosen false a name r h = inr h

-- The first case fits, or a later one gives the name.
fits_first :
    (t u : ℕ) (a name : String) (r : Result String)
    → or_case t (u, a) r ≡ ok name
    → ((t ≡ u) × (a ≡ name)) ⊎ (r ≡ ok name)
fits_first t u a name r h = elim (chosen _ a name r h) [
  | inl (e, same) ↦ inl ((==_iff t u).0 e, same)
  | inr later ↦ inr later
]

absent_lem :
    (t : ℕ) (name : String) (cs : List (ℕ × String))
    → absent name cs ≡ true
    → switch t cs ≡ ok name
    → ⊥
absent_lem t name [] h e = ground arith
absent_lem t name ((u, a) ∷ cs) h e =
    let parts = both (not (name == a)) (absent name cs) h in
    elim (fits_first t u a name (switch t cs) e) [
      | inl (fits, same) ↦ ground (arith, parts.0, (eq_iff name a).1 (sym same))
      | inr later ↦ absent_lem t name cs parts.1 later
    ]

-- Where no name comes twice, a name belongs to one type.
switch_once :
    (t u : ℕ) (name : String) (cs : List (ℕ × String))
    → apart cs ≡ true
    → switch t cs ≡ ok name
    → switch u cs ≡ ok name
    → t ≡ u
switch_once t u name [] h e e' = ground arith
switch_once t u name ((k, a) ∷ cs) h e e' =
    let parts = both (absent a cs) (apart cs) h in
    elim (fits_first t k a name (switch t cs) e) [
      | inl (fits, same) ↦ elim (fits_first u k a name (switch u cs) e') [
        | inl (fits', same') ↦ fits ∙ sym fits'
        | inr later ↦ absurd (absent_lem u a cs parts.0 (later ∙ ap ok (sym same)))
      ]
      | inr later ↦ elim (fits_first u k a name (switch u cs) e') [
        | inl (fits', same') ↦ absurd (absent_lem t a cs parts.0 (later ∙ ap ok (sym same')))
        | inr later' ↦ switch_once t u name cs parts.1 later later'
      ]
    ]

apart-cases : apart cases ≡ true
apart-cases = refl

-- Two message types with a name have the same name only if they are the same.
pub message_type_to_string-injective :
    (t u : ℕ) (name : String)
    → message_type_to_string t ≡ ok name
    → message_type_to_string u ≡ ok name
    → t ≡ u
unfolding message_type_to_string
message_type_to_string-injective t u name h k = switch_once t u name cases apart-cases h k
