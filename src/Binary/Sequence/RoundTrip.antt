-- ===== src/Binary/Sequence/RoundTrip.antt =====
-- A sequence that is written behind its length is read back, for each of the seven element types.
use stratumv.Prelude.{
  ℕ, ◌%◌, ◌^◌, ◌<◌, ◌≤◌, ◌≡◌, refl, sym, ap, arith, Bool, false, none, some, List, [], ◌∷◌, ◌++◌,
  append-nil, length, All, ltb, if◌then◌else◌,
}
use stratumv.Binary.Failure.{add_seq1_len, add_seq255_len, add_seq64k_len}
use stratumv.Binary.LittleEndian.{le_bytes, le_bytes_mod}
use stratumv.Binary.Outcome.{returns}
use stratumv.Binary.Builder
use stratumv.Binary.Builder.{
  Builder, add_bool, add_u8, add_u16, add_u24, add_u32, add_u64, add_bytes,
}
use stratumv.Binary.Builder.Laws.{
  Writes, Writes-then, holding, failed, ⊕-new, checked-Writes, bool_byte, add_bool-Writes,
  add_u8-Writes, add_u16-Writes, add_u24-Writes, add_u32-Writes, add_u64-Writes, add_bytes-Writes,
}
use stratumv.Binary.Reader.{
  Read, ◌>>=◌, pure, read_bool, read_u8, read_u16, read_u24, read_u32, read_u64, read_u256,
}
use stratumv.Binary.Reader.ReadsBack.{
  Reads, Reads-bind, Reads-pure, Reads-last, Reads-unless_failed, length_u8-Reads, read_bool-Reads,
  read_u8-Reads, read_u16-Reads, read_u24-Reads, read_u32-Reads, read_u64-Reads, read_u256-Reads,
}
use stratumv.Binary.Sequence.{
  Sequence, bools, u8s, u16s, u24s, u32s, u64s, u256s, len, add_each, encode, add_encoded,
  read_each, with_error, decode, keep_error, add_seq1, add_option_t, add_seq255, add_seq64k,
  read_seq1, read_option_t, read_seq255, read_seq64k,
}
use stratumv.Binary.Codec.{Carries}

-- The values fit their types.
abbrev pub IsValid : Sequence → Type 0
IsValid (bools a) = Unit
IsValid (u8s a) = All (λ v. v < 2 ^ 8) a
IsValid (u16s a) = All (λ v. v < 2 ^ 16) a
IsValid (u24s a) = All (λ v. v < 2 ^ 24) a
IsValid (u32s a) = All (λ v. v < 2 ^ 32) a
IsValid (u64s a) = All (λ v. v < 2 ^ 64) a
IsValid (u256s a) = All (λ v. length v ≡ 32) a

-- The empty sequence of the same type, which callers pass to `ReadSeq*`.
abbrev pub blank : Sequence → Sequence
blank (bools a) = bools []
blank (u8s a) = u8s []
blank (u16s a) = u16s []
blank (u24s a) = u24s []
blank (u32s a) = u32s []
blank (u64s a) = u64s []
blank (u256s a) = u256s []

unfoldable pub wires {ℓ} : {A : Type ℓ} → (A → List ℕ) → List A → List ℕ
wires enc [] = []
wires enc (v ∷ vs) = enc v ++ wires enc vs

abbrev pub wire : Sequence → List ℕ
wire (bools a) = wires (λ v. bool_byte v ∷ []) a
wire (u8s a) = wires (λ v. v ∷ []) a
wire (u16s a) = wires (le_bytes 2) a
wire (u24s a) = wires (le_bytes 3) a
wire (u32s a) = wires (le_bytes 4) a
wire (u64s a) = wires (le_bytes 8) a
wire (u256s a) = wires (λ v. v) a

module _ {ℓ} {A : Type ℓ} (enc : A → List ℕ) where
  add_each-Writes :
      (add : A → Builder → Builder)
      → ((v : A) → Writes (add v) (holding (enc v)))
      → (vs : List A) → Writes (add_each add vs) (holding (wires enc vs))
  unfolding add_each wires
  add_each-Writes add h [] = record { at = λ b. sym (⊕-new b) }
  add_each-Writes add h (v ∷ vs) = Writes-then (h v) (add_each-Writes add h vs)

  read_each-Reads {κ} :
      (P : A → Type κ) (read : Read A)
      → ((v : A) → P v → Reads read (enc v) v)
      → (vs : List A) → All P vs
      → Reads (read_each read (length vs)) (wires enc vs) vs
  unfolding read_each wires
  read_each-Reads P read h [] all = Reads-pure []
  read_each-Reads P read h (v ∷ vs) all = Reads-bind _ (h v all.0) (
      rw (append-nil (wires enc vs)) at (
        Reads-bind (λ ws. pure (v ∷ ws)) (read_each-Reads P read h vs all.1) (Reads-pure (v ∷ vs))))

-- The elements read, and then `br.Error()`.
decoded-Reads {ℓ} :
    {A : Type ℓ} (wrap : List A → Sequence) {m : Read (List A)} {e : List ℕ} {vs : List A}
    → Reads m e vs
    → Reads (do vs ← m; with_error (wrap vs)) e (wrap vs, none)
decoded-Reads wrap {m} {e} {vs} h = rw (append-nil e) at (
    Reads-bind (λ vs. with_error (wrap vs)) h
      (Reads-last (wrap vs, none) (λ r e. ap (λ x. returns ((wrap vs, x), r)) e)))

encode_lem : (s : Sequence) → encode s ≡ (wire s, none)
unfolding encode
encode_lem (bools a) = rw ((add_each-Writes _ add_bool add_bool-Writes a).at Builder.new) refl
encode_lem (u8s a) = rw ((add_each-Writes _ add_u8 add_u8-Writes a).at Builder.new) refl
encode_lem (u16s a) = rw ((add_each-Writes _ add_u16 add_u16-Writes a).at Builder.new) refl
encode_lem (u24s a) = rw ((add_each-Writes _ add_u24 add_u24-Writes a).at Builder.new) refl
encode_lem (u32s a) = rw ((add_each-Writes _ add_u32 add_u32-Writes a).at Builder.new) refl
encode_lem (u64s a) = rw ((add_each-Writes _ add_u64 add_u64-Writes a).at Builder.new) refl
encode_lem (u256s a) = rw ((add_each-Writes _ add_bytes add_bytes-Writes a).at Builder.new) refl

decode-Reads : (s : Sequence) → IsValid s → Reads (decode (blank s) (len s)) (wire s) (s, none)
unfolding decode len
decode-Reads (bools a) v =
    decoded-Reads bools
      (read_each-Reads _ (λ x. Unit) read_bool (λ x _. read_bool-Reads x) a (all_true a))
  where
    all_true : (xs : List Bool) → All (λ x. Unit {0}) xs
    all_true [] = tt
    all_true (x ∷ xs) = (tt, all_true xs)
decode-Reads (u8s a) v = decoded-Reads u8s (read_each-Reads _ _ read_u8 read_u8-Reads a v)
decode-Reads (u16s a) v = decoded-Reads u16s (read_each-Reads _ _ read_u16 read_u16-Reads a v)
decode-Reads (u24s a) v = decoded-Reads u24s (read_each-Reads _ _ read_u24 read_u24-Reads a v)
decode-Reads (u32s a) v = decoded-Reads u32s (read_each-Reads _ _ read_u32 read_u32-Reads a v)
decode-Reads (u64s a) v = decoded-Reads u64s (read_each-Reads _ _ read_u64 read_u64-Reads a v)
decode-Reads (u256s a) v = decoded-Reads u256s (read_each-Reads _ _ read_u256 read_u256-Reads a v)

add_encoded-Writes :
    (s : Sequence) {add_len : Builder → Builder} {head : List ℕ}
    → Writes add_len (holding head)
    → Writes (add_encoded add_len (encode s)) (holding (head ++ wire s))
add_encoded-Writes s h = rw (encode_lem s) (Writes-then h (add_bytes-Writes (wire s)))

-- The sequence behind its length, read by the type's empty sequence.
decode_keep-Reads :
    (s : Sequence)
    → IsValid s
    → Reads (do n ← decode (blank s) (len s); keep_error n) (wire s) (some s)
decode_keep-Reads s v =
    rw (append-nil (wire s)) at (Reads-bind keep_error (decode-Reads s v) (Reads-pure (some s)))

-- What the methods write behind the length, or the error of a sequence that is too long.
pub add_seq1-Writes :
    (s : Sequence)
    → Writes
        (add_seq1 s)
        (if ltb 1 (len s) then failed add_seq1_len else holding (le_bytes 1 (len s) ++ wire s))
unfolding add_seq1
add_seq1-Writes s =
    checked-Writes 1 add_seq1_len (len s) (add_encoded-Writes s (add_u8-Writes (len s % 256)))

pub add_option_t-Writes :
    (s : Sequence)
    → Writes
        (add_option_t s)
        (if ltb 1 (len s) then failed add_seq1_len else holding (le_bytes 1 (len s) ++ wire s))
unfolding add_option_t
add_option_t-Writes s = add_seq1-Writes s

pub add_seq255-Writes :
    (s : Sequence)
    → Writes
        (add_seq255 s)
        (if ltb 255 (len s) then failed add_seq255_len else holding (le_bytes 1 (len s) ++ wire s))
unfolding add_seq255
add_seq255-Writes s =
    checked-Writes 255 add_seq255_len (len s) (add_encoded-Writes s (add_u8-Writes (len s % 256)))

pub add_seq64k-Writes :
    (s : Sequence)
    → Writes (add_seq64k s) (
        if ltb 65535 (len s) then failed add_seq64k_len else holding (le_bytes 2 (len s) ++ wire s))
unfolding add_seq64k
add_seq64k-Writes s =
    checked-Writes 65535 add_seq64k_len (len s)
      (add_encoded-Writes s (rw le_bytes_mod at (add_u16-Writes (len s % 65536))))

seq64k-Writes :
    (s : Sequence) → len s ≤ 65535 → Writes (add_seq64k s) (holding (le_bytes 2 (len s) ++ wire s))
seq64k-Writes s h = rw within at (add_seq64k-Writes s)
  where
    within : ltb 65535 (len s) ≡ false
    within = ground arith

-- The u32s of `SetGroupChannel`, which it reads by a loop of its own.
abbrev pub u32s_wire : List ℕ → List ℕ
u32s_wire a = wires (le_bytes 4) a

pub u32s-Writes :
    (a : List ℕ)
    → length a ≤ 65535
    → Writes (add_seq64k (u32s a)) (holding (le_bytes 2 (length a) ++ u32s_wire a))
unfolding len
u32s-Writes a h = seq64k-Writes (u32s a) h

pub u32s-Reads :
    (a : List ℕ) → All (λ v. v < 2 ^ 32) a → Reads (read_each read_u32 (length a)) (u32s_wire a) a
u32s-Reads a h = read_each-Reads _ _ read_u32 read_u32-Reads a h

module _ (s : Sequence) (v : IsValid s) where
  pub seq1-Carries : len s ≤ 1 → Carries (add_seq1 s) (read_seq1 (blank s)) (some s)
  unfolding add_seq1 read_seq1
  seq1-Carries h = record {
    wire = le_bytes 1 (len s) ++ wire s;
    writes = rw within at (add_seq1-Writes s);
    reads =
        Reads-unless_failed none (
          Reads-bind _ (length_u8-Reads (len s) (omega arith)) (rw within (decode_keep-Reads s v)));
  }
    where
      within : ltb 1 (len s) ≡ false
      within = ground arith

  pub option_t-Carries : len s ≤ 1 → Carries (add_option_t s) (read_option_t (blank s)) (some s)
  unfolding add_option_t read_option_t
  option_t-Carries h = seq1-Carries h

  pub seq255-Carries : len s ≤ 255 → Carries (add_seq255 s) (read_seq255 (blank s)) (some s)
  unfolding add_seq255 read_seq255
  seq255-Carries h = record {
    wire = le_bytes 1 (len s) ++ wire s;
    writes = rw within at (add_seq255-Writes s);
    reads =
        Reads-unless_failed none
          (Reads-bind _ (length_u8-Reads (len s) (omega arith)) (decode_keep-Reads s v));
  }
    where
      within : ltb 255 (len s) ≡ false
      within = ground arith

  pub seq64k-Carries : len s ≤ 65535 → Carries (add_seq64k s) (read_seq64k (blank s)) (some s)
  unfolding add_seq64k read_seq64k
  seq64k-Carries h = record {
    wire = le_bytes 2 (len s) ++ wire s;
    writes = seq64k-Writes s h;
    reads =
        Reads-unless_failed none
          (Reads-bind _ (read_u16-Reads (len s) (omega arith)) (decode_keep-Reads s v));
  }
