-- ===== src/Binary/Reader/ReadsBack.antt =====
-- A read that takes given bytes off the front and returns a given value.
use mathlib.Core.Path.{subst}
use stratumv.Prelude.{
  take_all, replicate, ◌%◌, ℕ, ◌+◌, ◌^◌, ◌≤◌, ◌<◌, ◌≡◌, refl, ap, ◌∙◌, arith, Bool, true, false,
  none, List, [], ◌∷◌, ◌++◌, append-nil, append_assoc, length, take, ltb, length-append,
  drop-append, take-append,
}
use stratumv.Binary.LittleEndian.{le_bytes, le_value, le_value-le_bytes}
use stratumv.Binary.Outcome.{returns, Slice, nil, view, contents}
use stratumv.Binary.Builder.Laws.{bool_byte}
use stratumv.Binary.Reader.{
  to_array, read_signature, read_str255, read_bin32, read_bin255, read_bin64k, zero_u256,
  u256_of_slice, read_u8, Reader, Read, resume, ◌>>=◌, pure, unless_failed, read, to_array,
  read_bool, read_u8, read_u16, read_u24, read_u32, read_u64, read_f32, read_u256, read_str255,
  read_bin32, read_bin255, read_bin64k, read_bytes, read_signature,
}

-- A reader between the bytes `before`, which are read, and `after`.
abbrev pub between : List ℕ → List ℕ → Reader
between before after = record { input = view (before ++ after); pos = length before; err = none }

-- `m` takes the bytes `e` and returns `v`.
pub record Reads {ℓ} {A : Type ℓ} (m : Read A) (e : List ℕ) (v : A) : Type ℓ where
  pub at :
      (before after : List ℕ)
      → m (between before (e ++ after)) ≡ returns (v, between (before ++ e) after)

module _ {ℓ κ} {A : Type ℓ} {B : Type κ} where
  pub Reads-bind :
      (k : A → Read B) {m : Read A} {e f : List ℕ} {v : A} {w : B}
      → Reads m e v
      → Reads (k v) f w
      → Reads (m >>= k) (e ++ f) w
  Reads-bind k {m} {e} {f} {v} {w} hm hk = record {
    at = λ before after.
        ap (λ x. (m >>= k) (between before x)) (append_assoc e f after)
        ∙ ap (resume k) (hm.at before (f ++ after))
        ∙ hk.at (before ++ e) after
        ∙ ap (λ x. returns (w, between x after)) (append_assoc before e f);
  }

pub Reads-pure {ℓ} : {A : Type ℓ} (v : A) → Reads (pure v) [] v
Reads-pure v = record { at = λ before after. rw append-nil }

pub Reads-map {ℓ κ} :
    {A : Type ℓ} {B : Type κ} (f : A → B) {m : Read A} {e : List ℕ} {v : A}
    → Reads m e v
    → Reads (do a ← m; pure (f a)) e (f v)
Reads-map f {m} {e} {v} h = rw (append-nil e) at (Reads-bind (λ a. pure (f a)) h (Reads-pure (f v)))

not_past_end :
    (before e after : List ℕ)
    → ltb (length (before ++ (e ++ after))) (length before + length e) ≡ false
not_past_end before e after =
    ground (arith, length-append before (e ++ after), length-append e after)

pub read-Reads : (e : List ℕ) → Reads (read (length e)) e (view e)
unfolding read
read-Reads e = record {
  at = λ before after.
      rw
        (
          not_past_end before e after,
          drop-append before (e ++ after),
          take-append e after,
          ← append_assoc before e after,
          ← length-append before e,
        )
        refl;
}

pub Reads-unless_failed {ℓ} :
    {A : Type ℓ} (d : A) {m : Read A} {e : List ℕ} {v : A}
    → Reads m e v
    → Reads (unless_failed d m) e v
Reads-unless_failed d h = record { at = h.at }

-- The last step of a method, which takes no bytes.
pub Reads-last {ℓ} :
    {A : Type ℓ} {m : Read A} (v : A)
    → ((r : Reader) → r.err ≡ none → m r ≡ returns (v, r))
    → Reads m [] v
Reads-last v h = record { at = λ before after. rw append-nil (h (between before after) refl) }

pub read_bool-Reads : (v : Bool) → Reads read_bool (bool_byte v ∷ []) v
unfolding read_bool
read_bool-Reads true =
    Reads-unless_failed false (Reads-bind _ (read-Reads (1 ∷ [])) (Reads-last true (λ r _. refl)))
read_bool-Reads false =
    Reads-unless_failed false (Reads-bind _ (read-Reads (0 ∷ [])) (Reads-last false (λ r _. refl)))

pub read_u8-Reads : (v : ℕ) → v < 2 ^ 8 → Reads read_u8 (v ∷ []) v
unfolding read_u8
read_u8-Reads v h =
    Reads-unless_failed 0 (Reads-bind _ (read-Reads (v ∷ [])) (Reads-last v (λ r _. refl)))

pub read_u16-Reads : (v : ℕ) → v < 2 ^ 16 → Reads read_u16 (le_bytes 2 v) v
unfolding read_u16
read_u16-Reads v h =
    Reads-unless_failed 0 (
      Reads-bind _ (read-Reads (le_bytes 2 v)) (Reads-last v (λ r _. rw (le_value-le_bytes 2 v h))))

padded : (v : ℕ) → le_value (le_bytes 3 v ++ 0 ∷ []) ≡ le_value (le_bytes 3 v)
padded v = omega arith

pub read_u24-Reads : (v : ℕ) → v < 2 ^ 24 → Reads read_u24 (le_bytes 3 v) v
unfolding read_u24
read_u24-Reads v h = Reads-unless_failed 0 (
    Reads-bind _ (read-Reads (le_bytes 3 v))
      (Reads-last v (λ r _. rw (padded v, le_value-le_bytes 3 v h))))

pub read_u32-Reads : (v : ℕ) → v < 2 ^ 32 → Reads read_u32 (le_bytes 4 v) v
unfolding read_u32
read_u32-Reads v h =
    Reads-unless_failed 0 (
      Reads-bind _ (read-Reads (le_bytes 4 v)) (Reads-last v (λ r _. rw (le_value-le_bytes 4 v h))))

pub read_f32-Reads : (v : ℕ) → v < 2 ^ 32 → Reads read_f32 (le_bytes 4 v) v
unfolding read_f32
read_f32-Reads v h =
    Reads-unless_failed 0 (
      Reads-bind _ (read-Reads (le_bytes 4 v)) (Reads-last v (λ r _. rw (le_value-le_bytes 4 v h))))

pub read_u64-Reads : (v : ℕ) → v < 2 ^ 64 → Reads read_u64 (le_bytes 8 v) v
unfolding read_u64
read_u64-Reads v h =
    Reads-unless_failed 0 (
      Reads-bind _ (read-Reads (le_bytes 8 v)) (Reads-last v (λ r _. rw (le_value-le_bytes 8 v h))))

-- Reads of a length that is known by an equation.
pub read_exact-Reads : (n : ℕ) (e : List ℕ) → length e ≡ n → Reads (read n) e (view e)
read_exact-Reads n e h = rw (← h) (read-Reads e)

pub read_bytes-Reads : (n : ℕ) (e : List ℕ) → length e ≡ n → Reads (read_bytes n) e (view e)
unfolding read_bytes
read_bytes-Reads n e h = Reads-unless_failed nil (read_exact-Reads n e h)

pub read_u256-Reads : (u : List ℕ) → length u ≡ 32 → Reads read_u256 u u
unfolding read_u256
read_u256-Reads u h = rw (append-nil u) at (
    Reads-unless_failed zero_u256
      (Reads-bind u256_of_slice (read_exact-Reads 32 u h) (Reads-last u (λ r e. ground arith))))

-- A length that one byte or two hold, and the text or the bytes behind it.
pub length_u8-Reads : (l : ℕ) → l < 2 ^ 8 → Reads read_u8 (le_bytes 1 l) l
length_u8-Reads l h =
    subst (λ v. Reads read_u8 (le_bytes 1 l) v) (omega arith)
      (read_u8-Reads (l % 256) (omega arith))

-- The bytes of a slice that a message keeps.
pub contents-Reads :
    {m : Read Slice} {e s : List ℕ} → Reads m e (view s) → Reads (do b ← m; pure (contents b)) e s
contents-Reads h = Reads-map contents h

pub read_str255-Reads :
    (s : List ℕ) → length s < 2 ^ 8 → Reads read_str255 (le_bytes 1 (length s) ++ s) s
unfolding read_str255
read_str255-Reads s h =
    Reads-unless_failed []
      (Reads-bind _ (length_u8-Reads (length s) h) (contents-Reads (read-Reads s)))

pub read_bin32-Reads :
    (s : List ℕ) → length s ≤ 32 → Reads read_bin32 (le_bytes 1 (length s) ++ s) (view s)
unfolding read_bin32
read_bin32-Reads s h =
    Reads-unless_failed nil
      (Reads-bind _ (length_u8-Reads (length s) (omega arith)) (rw within (read-Reads s)))
  where
    within : ltb 32 (length s) ≡ false
    within = ground arith

pub read_bin255-Reads :
    (s : List ℕ) → length s < 2 ^ 8 → Reads read_bin255 (le_bytes 1 (length s) ++ s) (view s)
unfolding read_bin255
read_bin255-Reads s h =
    Reads-unless_failed nil (Reads-bind _ (length_u8-Reads (length s) h) (read-Reads s))

pub read_bin64k-Reads :
    (s : List ℕ) → length s < 2 ^ 16 → Reads read_bin64k (le_bytes 2 (length s) ++ s) (view s)
unfolding read_bin64k
read_bin64k-Reads s h =
    Reads-unless_failed nil (Reads-bind _ (read_u16-Reads (length s) h) (read-Reads s))

pub read_signature-Reads : (s : List ℕ) → length s ≡ 64 → Reads read_signature s s
unfolding read_signature
read_signature-Reads s h = rw (append-nil s) at (
    Reads-unless_failed (replicate 64 0) (
      Reads-bind (to_array 64) (read_exact-Reads 64 s h)
        (Reads-last s (λ r _. rw (h, take_whole) refl))))
  where
    take_whole : take 64 s ≡ s
    take_whole = subst (λ n. take n s ≡ s) h (take_all s)
