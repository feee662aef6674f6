-- ===== src/Binary/Builder/Laws.antt =====
-- Every method of the builder appends a fixed piece, or a fixed error: builders form a monoid under
-- `⊕`, and each method multiplies by one builder from the right.
use stratumv.Prelude.{
  ℕ, ◌%◌, ◌≡◌, refl, ap, ◌∙◌, arith, Bool, true, false, none, some, List, [], ◌∷◌, ◌++◌, append-nil,
  append_assoc, length, ltb, if◌then◌else◌,
}
use stratumv.Binary.Failure.{
  Failure, add_str_len, add_bin32_len, add_bin255_len, add_bin64k_len, add_bin16m_len,
}
use stratumv.Binary.LittleEndian.{le_bytes, le_bytes_mod, le_bytes_mod_u24}
use stratumv.Binary.Builder.{
  Builder, new, unless_failed, append, fail, limit16m, add_bool, add_u8, add_u16, add_u24, add_u32,
  add_u64, add_f32, add_bytes, add_u256, add_str255, add_bin32, add_bin255, add_bin64k, add_bin16m,
  add_mac, add_pubkey, add_ellswift_pubkey, add_signature, add_short_tx_id,
}

abbrev pub holding : List ℕ → Builder
holding bs = record { output = bs; err = none }

abbrev pub failed : Failure → Builder
failed e = record { output = []; err = some e }

-- What `c` holds is added behind `b`, unless `b` has failed already.
infixl 6 ◌⊕◌
abbrev pub ◌⊕◌ : Builder → Builder → Builder
b ⊕ c = elim b.err [ some e ↦ b | none ↦ record { output = b.output ++ c.output; err = c.err } ]

pub ⊕_assoc : (a b c : Builder) → (a ⊕ b) ⊕ c ≡ a ⊕ (b ⊕ c)
⊕_assoc a b c = ground (arith, append_assoc a.output b.output c.output)

pub new-⊕ : (b : Builder) → new ⊕ b ≡ b
new-⊕ b = refl

pub ⊕-new : (b : Builder) → b ⊕ new ≡ b
⊕-new b = ground (arith, append-nil b.output)

-- `op` appends `c`.
pub record Writes (op : Builder → Builder) (c : Builder) : Type 0 where
  pub at : (b : Builder) → op b ≡ b ⊕ c

pub Writes-then :
    {p q : Builder → Builder} {c d : Builder}
    → Writes p c
    → Writes q d
    → Writes (λ b. q (p b)) (c ⊕ d)
Writes-then {p} {q} {c} {d} hp hq = record {
  at = λ b. hq.at (p b) ∙ ap (λ x. x ⊕ d) (hp.at b) ∙ ⊕_assoc b c d;
}

-- A piece behind its length, or the error if it is longer than the limit.
abbrev pub limited : ℕ → Failure → ℕ → List ℕ → Builder
limited limit e width s =
    if ltb limit (length s) then failed e else holding (le_bytes width (length s) ++ s)

abbrev pub bool_byte : Bool → ℕ
bool_byte true = 1
bool_byte false = 0

pub append-Writes : (bs : List ℕ) → Writes (λ b. unless_failed b (append bs)) (holding bs)
append-Writes bs = record { at = λ b. ground arith }

pub add_bool-Writes : (boo : Bool) → Writes (add_bool boo) (holding (bool_byte boo ∷ []))
unfolding add_bool
add_bool-Writes true = append-Writes (1 ∷ [])
add_bool-Writes false = append-Writes (0 ∷ [])

pub add_u8-Writes : (u : ℕ) → Writes (add_u8 u) (holding (u ∷ []))
unfolding add_u8
add_u8-Writes u = append-Writes (u ∷ [])

pub add_u16-Writes : (u : ℕ) → Writes (add_u16 u) (holding (le_bytes 2 u))
unfolding add_u16
add_u16-Writes u = append-Writes (le_bytes 2 u)

pub add_u24-Writes : (u : ℕ) → Writes (add_u24 u) (holding (le_bytes 3 u))
unfolding add_u24
add_u24-Writes u = append-Writes (le_bytes 3 u)

pub add_u32-Writes : (u : ℕ) → Writes (add_u32 u) (holding (le_bytes 4 u))
unfolding add_u32
add_u32-Writes u = append-Writes (le_bytes 4 u)

pub add_u64-Writes : (u : ℕ) → Writes (add_u64 u) (holding (le_bytes 8 u))
unfolding add_u64
add_u64-Writes u = append-Writes (le_bytes 8 u)

pub add_f32-Writes : (f : ℕ) → Writes (add_f32 f) (holding (le_bytes 4 f))
unfolding add_f32
add_f32-Writes f = append-Writes (le_bytes 4 f)

pub add_bytes-Writes : (bin : List ℕ) → Writes (add_bytes bin) (holding bin)
unfolding add_bytes
add_bytes-Writes [] = record { at = λ b. ground (arith, append-nil b.output) }
add_bytes-Writes (x ∷ xs) = record { at = λ b. ground arith }

pub add_u256-Writes : (u : List ℕ) → Writes (add_u256 u) (holding u)
unfolding add_u256
add_u256-Writes [] = record { at = λ b. ground (arith, append-nil b.output) }
add_u256-Writes (x ∷ xs) = record { at = λ b. ground arith }

-- A method that fails on a long argument, and else appends `c` by `op`.
pub checked-Writes :
    (limit : ℕ) (e : Failure) (l : ℕ) {op : Builder → Builder} {c : Builder}
    → Writes op c
    → Writes
        (λ b. unless_failed b λ b. if ltb limit l then fail e b else op b)
        (if ltb limit l then failed e else c)
checked-Writes limit e l h = record { at = λ b. ground (arith, append-nil b.output, h.at b) }

pub add_str255-Writes : (s : List ℕ) → Writes (add_str255 s) (limited 255 add_str_len 1 s)
unfolding add_str255
add_str255-Writes s =
    checked-Writes 255 add_str_len (length s)
      (Writes-then (add_u8-Writes (length s % 256)) (add_bytes-Writes s))

pub add_bin32-Writes : (s : List ℕ) → Writes (add_bin32 s) (limited 32 add_bin32_len 1 s)
unfolding add_bin32
add_bin32-Writes s =
    checked-Writes 32 add_bin32_len (length s)
      (Writes-then (add_u8-Writes (length s % 256)) (add_bytes-Writes s))

pub add_bin255-Writes : (s : List ℕ) → Writes (add_bin255 s) (limited 255 add_bin255_len 1 s)
unfolding add_bin255
add_bin255-Writes s =
    checked-Writes 255 add_bin255_len (length s)
      (Writes-then (add_u8-Writes (length s % 256)) (add_bytes-Writes s))

pub add_bin64k-Writes : (s : List ℕ) → Writes (add_bin64k s) (limited 65535 add_bin64k_len 2 s)
unfolding add_bin64k
add_bin64k-Writes s =
    checked-Writes 65535 add_bin64k_len (length s)
      (Writes-then (rw le_bytes_mod at (add_u16-Writes (length s % 65536))) (add_bytes-Writes s))

pub add_signature-Writes : (sig : List ℕ) → Writes (add_signature sig) (holding sig)
unfolding add_signature
add_signature-Writes sig = append-Writes sig

pub add_short_tx_id-Writes : (txid : List ℕ) → Writes (add_short_tx_id txid) (holding txid)
unfolding add_short_tx_id
add_short_tx_id-Writes txid = append-Writes txid

pub add_mac-Writes : (mac : List ℕ) → Writes (add_mac mac) (holding mac)
unfolding add_mac
add_mac-Writes mac = add_bytes-Writes mac

pub add_pubkey-Writes : (pubkey : List ℕ) → Writes (add_pubkey pubkey) (holding pubkey)
unfolding add_pubkey
add_pubkey-Writes pubkey = add_bytes-Writes pubkey

pub add_ellswift_pubkey-Writes :
    (pubkey : List ℕ) → Writes (add_ellswift_pubkey pubkey) (holding pubkey)
unfolding add_ellswift_pubkey
add_ellswift_pubkey-Writes pubkey = add_bytes-Writes pubkey

pub add_bin16m-Writes : (s : List ℕ) → Writes (add_bin16m s) (limited limit16m add_bin16m_len 3 s)
unfolding add_bin16m
add_bin16m-Writes s = checked-Writes limit16m add_bin16m_len (length s) (
    Writes-then (rw le_bytes_mod_u24 at (add_u24-Writes (length s % 4294967296)))
      (add_bytes-Writes s))
