-- ===== src/Binary/Contract.antt =====
-- The builder as a whole: any sequence of calls of its methods.
use stratumv.Prelude.{
  ℕ, ◌≡◌, refl, sym, ap, ◌∙◌, arith, Bool, false, true, Option, none, some, List, [], ◌∷◌, ◌++◌,
  length, ltb, if◌then◌else◌,
}
use stratumv.Binary.Failure.{
  Failure, Result, ok, err, add_str_len, add_bin32_len, add_bin255_len, add_bin64k_len,
  add_bin16m_len, add_seq1_len, add_seq255_len, add_seq64k_len,
}
use stratumv.Binary.LittleEndian.{le_bytes}
use stratumv.Binary.Builder
use stratumv.Binary.Builder.{
  Builder, ◌▷◌, bytes, add_bool, add_u8, add_u16, add_u24, add_u32, add_u64, add_f32, add_bytes,
  add_u256, add_str255, add_bin32, add_bin255, add_bin64k, add_bin16m, add_mac, add_pubkey,
  add_ellswift_pubkey, add_signature, add_short_tx_id,
}
use stratumv.Binary.Builder.Laws.{
  Writes, Writes-then, holding, failed, ◌⊕◌, ⊕-new, add_bool-Writes, add_u8-Writes, add_u16-Writes,
  add_u24-Writes, add_u32-Writes, add_u64-Writes, add_f32-Writes, add_bytes-Writes, add_u256-Writes,
  add_str255-Writes, add_bin32-Writes, add_bin255-Writes, add_bin64k-Writes, add_bin16m-Writes,
  add_mac-Writes, add_pubkey-Writes, add_ellswift_pubkey-Writes, add_signature-Writes,
  add_short_tx_id-Writes,
}
use stratumv.Binary.Sequence.{Sequence, len, add_seq1, add_option_t, add_seq255, add_seq64k}
use stratumv.Binary.Sequence.RoundTrip.{
  wire, add_seq1-Writes, add_option_t-Writes, add_seq255-Writes, add_seq64k-Writes,
}

-- A call of a method of `BinaryBuilder` with its argument.
pub data Call : Type 0 where
  bool : Bool → Call
  u8 u16 u24 u32 u64 f32 : ℕ → Call
  plain u256 mac pubkey ellswift_pubkey signature short_tx_id : List ℕ → Call
  str255 bin32 bin255 bin64k bin16m : List ℕ → Call
  seq1 option_t seq255 seq64k : Sequence → Call

unfoldable pub perform : Call → Builder → Builder
perform (bool v) = add_bool v
perform (u8 v) = add_u8 v
perform (u16 v) = add_u16 v
perform (u24 v) = add_u24 v
perform (u32 v) = add_u32 v
perform (u64 v) = add_u64 v
perform (f32 v) = add_f32 v
perform (plain v) = add_bytes v
perform (u256 v) = add_u256 v
perform (mac v) = add_mac v
perform (pubkey v) = add_pubkey v
perform (ellswift_pubkey v) = add_ellswift_pubkey v
perform (signature v) = add_signature v
perform (short_tx_id v) = add_short_tx_id v
perform (str255 v) = add_str255 v
perform (bin32 v) = add_bin32 v
perform (bin255 v) = add_bin255 v
perform (bin64k v) = add_bin64k v
perform (bin16m v) = add_bin16m v
perform (seq1 v) = add_seq1 v
perform (option_t v) = add_option_t v
perform (seq255 v) = add_seq255 v
perform (seq64k v) = add_seq64k v

unfoldable pub perform_all : List Call → Builder → Builder
unfolding perform
perform_all [] b = b
perform_all (c ∷ cs) b = perform_all cs (perform c b)

-- The format: the bytes of a value, or the error of one that is longer than its limit. The limit is what
-- the length prefix can hold, or less where the type says so; but `AddBin16M`, whose prefix holds
-- 2 ^ 24 - 1, refuses everything longer than 25 bytes.
abbrev prefixed : ℕ → Failure → ℕ → ℕ → List ℕ → Result (List ℕ)
prefixed limit e width l bs = if ltb limit l then err e else ok (le_bytes width l ++ bs)

abbrev pub format : Call → Result (List ℕ)
format (bool true) = ok (1 ∷ [])
format (bool false) = ok (0 ∷ [])
format (u8 v) = ok (v ∷ [])
format (u16 v) = ok (le_bytes 2 v)
format (u24 v) = ok (le_bytes 3 v)
format (u32 v) = ok (le_bytes 4 v)
format (u64 v) = ok (le_bytes 8 v)
format (f32 v) = ok (le_bytes 4 v)
format (plain v) = ok v
format (u256 v) = ok v
format (mac v) = ok v
format (pubkey v) = ok v
format (ellswift_pubkey v) = ok v
format (signature v) = ok v
format (short_tx_id v) = ok v
format (str255 v) = prefixed 255 add_str_len 1 (length v) v
format (bin32 v) = prefixed 32 add_bin32_len 1 (length v) v
format (bin255 v) = prefixed 255 add_bin255_len 1 (length v) v
format (bin64k v) = prefixed 65535 add_bin64k_len 2 (length v) v
format (bin16m v) = prefixed 25 add_bin16m_len 3 (length v) v
format (seq1 v) = prefixed 1 add_seq1_len 1 (len v) (wire v)
format (option_t v) = prefixed 1 add_seq1_len 1 (len v) (wire v)
format (seq255 v) = prefixed 255 add_seq255_len 1 (len v) (wire v)
format (seq64k v) = prefixed 65535 add_seq64k_len 2 (len v) (wire v)

abbrev to_builder : Result (List ℕ) → Builder
to_builder (ok bs) = holding bs
to_builder (err e) = failed e

-- The bytes of the calls up to the first that fails, and its error.
abbrev after : Result (List ℕ) → List ℕ × Option Failure → List ℕ × Option Failure
after (err e) rest = ([], some e)
after (ok bs) rest = (bs ++ rest.0, rest.1)

abbrev pub up_to_first_error : List Call → List ℕ × Option Failure
up_to_first_error [] = ([], none)
up_to_first_error (c ∷ cs) = after (format c) (up_to_first_error cs)

to_builder-prefixed :
    (limit : ℕ) (e : Failure) (width l : ℕ) (bs : List ℕ)
    → to_builder (prefixed limit e width l bs)
      ≡ (if ltb limit l then failed e else holding (le_bytes width l ++ bs))
to_builder-prefixed limit e width l bs = ground arith

perform-Writes : (c : Call) → Writes (perform c) (to_builder (format c))
unfolding perform
perform-Writes (bool true) = add_bool-Writes true
perform-Writes (bool false) = add_bool-Writes false
perform-Writes (u8 v) = add_u8-Writes v
perform-Writes (u16 v) = add_u16-Writes v
perform-Writes (u24 v) = add_u24-Writes v
perform-Writes (u32 v) = add_u32-Writes v
perform-Writes (u64 v) = add_u64-Writes v
perform-Writes (f32 v) = add_f32-Writes v
perform-Writes (plain v) = add_bytes-Writes v
perform-Writes (u256 v) = add_u256-Writes v
perform-Writes (mac v) = add_mac-Writes v
perform-Writes (pubkey v) = add_pubkey-Writes v
perform-Writes (ellswift_pubkey v) = add_ellswift_pubkey-Writes v
perform-Writes (signature v) = add_signature-Writes v
perform-Writes (short_tx_id v) = add_short_tx_id-Writes v
perform-Writes (str255 v) = rw to_builder-prefixed (add_str255-Writes v)
perform-Writes (bin32 v) = rw to_builder-prefixed (add_bin32-Writes v)
perform-Writes (bin255 v) = rw to_builder-prefixed (add_bin255-Writes v)
perform-Writes (bin64k v) = rw to_builder-prefixed (add_bin64k-Writes v)
perform-Writes (bin16m v) = rw to_builder-prefixed (add_bin16m-Writes v)
perform-Writes (seq1 v) = rw to_builder-prefixed (add_seq1-Writes v)
perform-Writes (option_t v) = rw to_builder-prefixed (add_option_t-Writes v)
perform-Writes (seq255 v) = rw to_builder-prefixed (add_seq255-Writes v)
perform-Writes (seq64k v) = rw to_builder-prefixed (add_seq64k-Writes v)

whole : List Call → Builder
whole [] = Builder.new
whole (c ∷ cs) = to_builder (format c) ⊕ whole cs

perform_all-Writes : (cs : List Call) → Writes (perform_all cs) (whole cs)
unfolding perform_all whole
perform_all-Writes [] = record { at = λ b. sym (⊕-new b) }
perform_all-Writes (c ∷ cs) = Writes-then (perform-Writes c) (perform_all-Writes cs)

bytes-⊕ : (r : Result (List ℕ)) (b : Builder) → bytes (to_builder r ⊕ b) ≡ after r (bytes b)
unfolding bytes
bytes-⊕ (ok bs) b = ground arith
bytes-⊕ (err e) b = refl

whole_lem : (cs : List Call) → bytes (whole cs) ≡ up_to_first_error cs
unfolding whole
whole_lem [] = unfold bytes in refl
whole_lem (c ∷ cs) = bytes-⊕ (format c) (whole cs) ∙ ap (after (format c)) (whole_lem cs)

-- After any calls of the builder's methods, `Bytes` returns the wire format of the arguments up to
-- the first one that is longer than its method's limit, together with the error of that call. The
-- limits are 255 for strings, Bin255 and Seq255, 32 for Bin32, 65535 for Bin64K and Seq64K, 1 for
-- sequences of at most one value, and 25, not 2 ^ 24 - 1, for Bin16M.
pub bytes-perform_all : (cs : List Call) → bytes (perform_all cs Builder.new) ≡ up_to_first_error cs
bytes-perform_all cs = ap bytes ((perform_all-Writes cs).at Builder.new) ∙ whole_lem cs
