-- ===== src/Binary/Codec.antt =====
-- What the builder writes, the reader reads back: the rules by which the messages' round trips are
-- put together.
pub mod Fields
pub mod Leaving
pub mod Sizes
use stratumv.Prelude.{
  ℕ, ◌<◌, ◌≤◌, ◌^◌, ◌≡◌, refl, sym, ap, ◌∙◌, Option, none, some, List, [], ◌∷◌, ◌++◌, append-nil,
  length, All, Bool,
}
use stratumv.Binary.Failure.{Failure}
use stratumv.Binary.Outcome.{Outcome, returns, panics, Slice, nil, view}
use stratumv.Binary.Builder
use stratumv.Binary.Builder.{Builder, bytes, add_bytes}
use stratumv.Binary.Builder.Laws.{Writes, Writes-then, add_bytes-Writes, holding, ◌⊕◌, ⊕-new}
use stratumv.Binary.Reader
use stratumv.Binary.Reader.{Reader, Read, ◌>>=◌, pure}
use stratumv.Binary.Reader.ReadsBack.{Reads, Reads-bind, Reads-pure, Reads-last, between}

-- `Decode(b []byte) error`: the values read from a new reader over `b`, and its error.
abbrev pub outcome {ℓ} : {A : Type ℓ} → Outcome (A × Reader) → Outcome (A × Option Failure)
outcome (returns (v, r)) = returns (v, r.err)
outcome panics = panics

unfoldable pub run {ℓ} : {A : Type ℓ} → Read A → Slice → Outcome (A × Option Failure)
run m b = outcome (m (Reader.new b))

-- Reading a slice, and bytes behind what is read.
pub run-Reads_front {ℓ} :
    {A : Type ℓ} {m : Read A} {e : List ℕ} {v : A} (rest : List ℕ)
    → Reads m e v
    → run m (view (e ++ rest)) ≡ returns (v, none)
unfolding run
run-Reads_front rest h = ap outcome (h.at [] rest)

pub run-Reads {ℓ} :
    {A : Type ℓ} {m : Read A} {e : List ℕ} {v : A}
    → Reads m e v
    → run m (view e) ≡ returns (v, none)
run-Reads {m = m} {e} {v} h = ap (λ x. run m (view x)) (sym (append-nil e)) ∙ run-Reads_front [] h

-- `op` writes bytes from which `m` reads `v`.
pub record Carries {ℓ} {A : Type ℓ} (op : Builder → Builder) (m : Read A) (v : A) : Type ℓ where
  pub wire : List ℕ
  pub writes : Writes op (holding wire)
  pub reads : Reads m wire v

pub Carries-end {ℓ} : {A : Type ℓ} (v : A) → Carries (λ b. b) (pure v) v
Carries-end v = record {
  wire = [];
  writes = record { at = λ b. sym (⊕-new b) };
  reads = Reads-pure v;
}

module _ {ℓ κ} {A : Type ℓ} {B : Type κ} where
  pub Carries-then :
      (k : A → Read B) {p q : Builder → Builder} {m : Read A} {v : A} {w : B}
      → Carries p m v
      → Carries q (k v) w
      → Carries (λ b. q (p b)) (m >>= k) w
  Carries-then k c d = record {
    wire = c.wire ++ d.wire;
    writes = Writes-then c.writes d.writes;
    reads = Reads-bind k c.reads d.reads;
  }

-- A last step that takes no bytes, such as a type assertion.
pub Carries-map {ℓ κ} :
    {A : Type ℓ} {B : Type κ} (k : A → Read B) {op : Builder → Builder} {m : Read A} {v : A} {w : B}
    → Carries op m v
    → ((r : Reader) → k v r ≡ returns (w, r))
    → Carries op (m >>= k) w
Carries-map k {op} {m} {v} {w} c h = record {
  wire = c.wire;
  writes = c.writes;
  reads = rw (append-nil c.wire) at (Reads-bind k c.reads (Reads-last w (λ r _. h r)));
}

-- A message that is encoded first and then added as bytes is the message added field by field.
pub embedded {ℓ} :
    {A : Type ℓ} {op : Builder → Builder} {m : Read A} {v : A}
    → Carries op m v
    → ((bytes (op Builder.new)).1 ≡ none)
      × (add_bytes (bytes (op Builder.new)).0 Builder.new ≡ op Builder.new)
unfolding bytes
embedded c = rw (c.writes.at Builder.new) (refl, (add_bytes-Writes c.wire).at Builder.new)

-- `encode` succeeded, and `decode` gives the value back, whatever bytes follow the encoded ones.
abbrev pub RoundTrips {ℓ} :
    {A : Type ℓ} → List ℕ × Option Failure → (Slice → Outcome (A × Option Failure)) → A → Type ℓ
RoundTrips encoded decode v =
    (encoded.1 ≡ none) × ((rest : List ℕ) → decode (view (encoded.0 ++ rest)) ≡ returns (v, none))

pub round_trip {ℓ} :
    {A : Type ℓ} {op : Builder → Builder} {m : Read A} {v : A}
    → Carries op m v
    → RoundTrips (bytes (op Builder.new)) (run m) v
unfolding bytes run
round_trip {op} {m} {v} c =
    rw (c.writes.at Builder.new) (refl, λ rest. ap outcome (c.reads.at [] rest))
