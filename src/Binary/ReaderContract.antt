-- ===== src/Binary/ReaderContract.antt =====
-- The reader as a whole: any sequence of calls of its methods.
use stratumv.Prelude.{
  ℕ, zero, suc, ◌+◌, ◌<◌, ◌≤◌, ◌≡◌, refl, ◌∙◌, arith, Option, none, some, List, [], ◌∷◌, length,
  take, drop, length-take, length-drop, length-append,
}
use stratumv.Prelude.Int.{ℤ}
use stratumv.Binary.Failure.{Failure, past_end, set_bytes_len}
use stratumv.Binary.Outcome.{Outcome, returns, panics, view}
use stratumv.Binary.Reader.{
  Reader, Read, read, read_bool, read_u8, read_u16, read_u24, read_u32, read_u64, read_f32,
  set_bytes, read_u256, read_str255, read_bin32, read_bin255, read_bin64k, read_bin16m, read_bytes,
  read_pubkey, read_ellswift_pubkey, read_signature, read_into, seek, Whence,
}
use stratumv.Binary.Reader.Laws.{
  IsValid, GoodOutcome, Keeps, Keeps-pure, Keeps-bind, keeps_rules, Keeps-read_bool, Keeps-read_u8,
  Keeps-read_u16, Keeps-read_u24, Keeps-read_u32, Keeps-read_u64, Keeps-read_f32, Keeps-read_u256,
  Keeps-read_str255, Keeps-read_bin32, Keeps-read_bin255, Keeps-read_bin64k, Keeps-read_bin16m,
  Keeps-read_bytes, Keeps-read_pubkey, Keeps-read_ellswift_pubkey, Keeps-read_signature,
  Keeps-read_into, Keeps-seek,
}
use stratumv.Binary.Sequence.{
  Sequence, bools, u8s, u16s, u24s, u32s, u64s, u256s, read_each, with_error, decode, keep_error,
  read_seq1, read_option_t, read_seq255, read_seq64k,
}

-- A call of a method of `BinaryReader` with its argument.
pub data Call : Type 0 where
  bool u8 u16 u24 u32 u64 f32 u256 str255 bin32 bin255 bin64k bin16m : Call
  pubkey ellswift_pubkey signature : Call
  plain : ℕ → Call
  into : List ℕ → Call
  to : ℤ → Whence → Call
  seq1 option_t seq255 seq64k : Sequence → Call

-- What the call does to the reader; its value is dropped.
abbrev reader_of {ℓ} : {A : Type ℓ} → Outcome (A × Reader) → Outcome Reader
reader_of (returns (v, r)) = returns r
reader_of panics = panics

unfoldable pub perform : Call → Reader → Outcome Reader
perform bool r = reader_of (read_bool r)
perform u8 r = reader_of (read_u8 r)
perform u16 r = reader_of (read_u16 r)
perform u24 r = reader_of (read_u24 r)
perform u32 r = reader_of (read_u32 r)
perform u64 r = reader_of (read_u64 r)
perform f32 r = reader_of (read_f32 r)
perform u256 r = reader_of (read_u256 r)
perform str255 r = reader_of (read_str255 r)
perform bin32 r = reader_of (read_bin32 r)
perform bin255 r = reader_of (read_bin255 r)
perform bin64k r = reader_of (read_bin64k r)
perform bin16m r = reader_of (read_bin16m r)
perform pubkey r = reader_of (read_pubkey r)
perform ellswift_pubkey r = reader_of (read_ellswift_pubkey r)
perform signature r = reader_of (read_signature r)
perform (plain l) r = reader_of (read_bytes l r)
perform (into dest) r = reader_of (read_into dest r)
perform (to offset whence) r = reader_of (seek offset whence r)
perform (seq1 dest) r = reader_of (read_seq1 dest r)
perform (option_t dest) r = reader_of (read_option_t dest r)
perform (seq255 dest) r = reader_of (read_seq255 dest r)
perform (seq64k dest) r = reader_of (read_seq64k dest r)

abbrev onward : (Reader → Outcome Reader) → Outcome Reader → Outcome Reader
onward k (returns r) = k r
onward k panics = panics

unfoldable pub perform_all : List Call → Reader → Outcome Reader
unfolding perform
perform_all [] r = returns r
perform_all (c ∷ cs) r = onward (perform_all cs) (perform c r)

-- Reading sequences.
Keeps-read_each {ℓ} : {A : Type ℓ} (m : Read A) (l : ℕ) → Keeps m → Keeps (read_each m l)
unfolding read_each
Keeps-read_each m zero k = Keeps-pure []
Keeps-read_each m (suc l) k =
    Keeps-bind m _ k
      (λ v. Keeps-bind (read_each m l) _ (Keeps-read_each m l k) (λ vs. Keeps-pure (v ∷ vs)))

Keeps-with_error : (s : Sequence) → Keeps (with_error s)
Keeps-with_error s = record { at = λ r h. (h, refl) }

Keeps-decode : (dest : Sequence) (l : ℕ) → Keeps (decode dest l)
unfolding decode
Keeps-decode (bools a) l = search (keeps_rules, Keeps-with_error, Keeps-read_each, Keeps-read_bool)
Keeps-decode (u8s a) l = search (keeps_rules, Keeps-with_error, Keeps-read_each, Keeps-read_u8)
Keeps-decode (u16s a) l = search (keeps_rules, Keeps-with_error, Keeps-read_each, Keeps-read_u16)
Keeps-decode (u24s a) l = search (keeps_rules, Keeps-with_error, Keeps-read_each, Keeps-read_u24)
Keeps-decode (u32s a) l = search (keeps_rules, Keeps-with_error, Keeps-read_each, Keeps-read_u32)
Keeps-decode (u64s a) l = search (keeps_rules, Keeps-with_error, Keeps-read_each, Keeps-read_u64)
Keeps-decode (u256s a) l = search (keeps_rules, Keeps-with_error, Keeps-read_each, Keeps-read_u256)

Keeps-keep_error : (n : Sequence × Option Failure) → Keeps (keep_error n)
Keeps-keep_error (n, some e) = search keeps_rules
Keeps-keep_error (n, none) = search keeps_rules

ruleset sequence_rules =
    (keeps_rules, Keeps-decode, Keeps-keep_error, Keeps-read_u8, Keeps-read_u16)

Keeps-read_seq1 : (dest : Sequence) → Keeps (read_seq1 dest)
unfolding read_seq1
Keeps-read_seq1 dest = search sequence_rules

Keeps-read_seq255 : (dest : Sequence) → Keeps (read_seq255 dest)
unfolding read_seq255
Keeps-read_seq255 dest = search sequence_rules

Keeps-read_seq64k : (dest : Sequence) → Keeps (read_seq64k dest)
unfolding read_seq64k
Keeps-read_seq64k dest = search sequence_rules

-- The invariant, and the data unchanged.
abbrev GoodReader : Reader → Outcome Reader → Type 0
GoodReader r (returns r') = IsValid r' × (r'.input ≡ r.input)
GoodReader r panics = Unit

Keeps→GoodReader {ℓ} :
    {A : Type ℓ} {m : Read A} → Keeps m → (r : Reader) → IsValid r → GoodReader r (reader_of (m r))
Keeps→GoodReader {A = A} {m = m} k r h = go (m r) (k.at r h)
  where
    go : (o : Outcome (A × Reader)) → GoodOutcome r o → GoodReader r (reader_of o)
    go (returns (v, r')) g = g
    go panics g = tt

perform-GoodReader : (c : Call) (r : Reader) → IsValid r → GoodReader r (perform c r)
unfolding perform
perform-GoodReader bool = Keeps→GoodReader Keeps-read_bool
perform-GoodReader u8 = Keeps→GoodReader Keeps-read_u8
perform-GoodReader u16 = Keeps→GoodReader Keeps-read_u16
perform-GoodReader u24 = Keeps→GoodReader Keeps-read_u24
perform-GoodReader u32 = Keeps→GoodReader Keeps-read_u32
perform-GoodReader u64 = Keeps→GoodReader Keeps-read_u64
perform-GoodReader f32 = Keeps→GoodReader Keeps-read_f32
perform-GoodReader u256 = Keeps→GoodReader Keeps-read_u256
perform-GoodReader str255 = Keeps→GoodReader Keeps-read_str255
perform-GoodReader bin32 = Keeps→GoodReader Keeps-read_bin32
perform-GoodReader bin255 = Keeps→GoodReader Keeps-read_bin255
perform-GoodReader bin64k = Keeps→GoodReader Keeps-read_bin64k
perform-GoodReader bin16m = Keeps→GoodReader Keeps-read_bin16m
perform-GoodReader pubkey = Keeps→GoodReader Keeps-read_pubkey
perform-GoodReader ellswift_pubkey = Keeps→GoodReader Keeps-read_ellswift_pubkey
perform-GoodReader signature = Keeps→GoodReader Keeps-read_signature
perform-GoodReader (plain l) = Keeps→GoodReader (Keeps-read_bytes l)
perform-GoodReader (into dest) = Keeps→GoodReader (Keeps-read_into dest)
perform-GoodReader (to offset whence) = Keeps→GoodReader (Keeps-seek offset whence)
perform-GoodReader (seq1 dest) = Keeps→GoodReader (Keeps-read_seq1 dest)
perform-GoodReader (option_t dest) = unfold read_option_t in Keeps→GoodReader (Keeps-read_seq1 dest)
perform-GoodReader (seq255 dest) = Keeps→GoodReader (Keeps-read_seq255 dest)
perform-GoodReader (seq64k dest) = Keeps→GoodReader (Keeps-read_seq64k dest)

-- Whatever calls return, seeks and failed reads included, the position stays inside the data, and
-- the data are unchanged.
pub perform_all-IsValid :
    (cs : List Call) (r r' : Reader)
    → IsValid r
    → perform_all cs r ≡ returns r'
    → IsValid r' × (r'.input ≡ r.input)
unfolding perform_all
perform_all-IsValid [] r r' h e = ground arith
perform_all-IsValid (c ∷ cs) r r' h e =
    go (λ s. perform_all-IsValid cs s r') (perform c r) (perform-GoodReader c r h) e
  where
    go :
        ((s : Reader)
          → IsValid s
          → perform_all cs s ≡ returns r'
          → IsValid r' × (r'.input ≡ s.input))
        → (o : Outcome Reader) → GoodReader r o
        → onward (perform_all cs) o ≡ returns r'
        → IsValid r' × (r'.input ≡ r.input)
    go ih (returns s) g e = let rest = ih s g.0 e in (rest.0, rest.1 ∙ g.1)
    go ih panics g e = cc

-- An error is kept: no later call changes the reader, and none panics.
pub perform-sticky :
    (c : Call) (r : Reader) {e : Failure} → r.err ≡ some e → perform c r ≡ returns r
unfolding perform read_bool read_u8 read_u16 read_u24 read_u32 read_u64 read_f32 read_u256
    read_str255 read_bin32 read_bin255 read_bin64k read_bin16m read_pubkey read_ellswift_pubkey
    read_signature read_bytes read_into seek read_seq1 read_option_t read_seq255 read_seq64k
perform-sticky bool r h = ground arith
perform-sticky _ r h = ground arith

-- The calls of the methods that take a fixed number of bytes.
abbrev pub width : Call → Option ℕ
width bool = some 1
width u8 = some 1
width u16 = some 2
width u24 = some 3
width u32 = some 4
width u64 = some 8
width f32 = some 4
width u256 = some 32
width pubkey = some 32
width ellswift_pubkey = some 64
width signature = some 64
width _ = none

abbrev pub reading : List ℕ → ℕ → Reader
reading bs p = record { input = view bs; pos = p; err = none }

-- The call returns, and the position is `n`.
abbrev pub MovesTo : ℕ → Outcome Reader → Type 0
MovesTo n (returns r) = r.pos ≡ n
MovesTo n panics = ⊥

module _ (bs : List ℕ) (p : ℕ) where
  cut_short :
      (w : ℕ)
      → length bs < p + w
      → read w (reading bs p)
        ≡ returns (view [], record { input = view bs; pos = length bs; err = some past_end })
  unfolding read
  cut_short w h = ground arith

  -- What a call of fixed width does where the data end too early: `ReadU256` moves to the end and
  -- leaves the error of `SetBytes`, and every other one panics.
  abbrev pub cut_off : Call → Outcome Reader
  cut_off u256 = returns (record { input = view bs; pos = length bs; err = some set_bytes_len })
  cut_off _ = panics

  -- With fewer bytes left than the value takes, every call of fixed width but `ReadU256` panics: it
  -- records the end of the data, and then indexes the empty slice that it was given. `ReadU256`
  -- returns, at the end of the data, and its error is that of `SetBytes`.
  pub perform_truncated :
      (c : Call) (w : ℕ)
      → width c ≡ some w
      → length bs < p + w
      → perform c (reading bs p) ≡ cut_off c
  unfolding perform read_bool read_u8 read_u16 read_u24 read_u32 read_u64 read_f32 read_u256
      set_bytes read_pubkey read_ellswift_pubkey read_signature
  perform_truncated bool w e h = ground (arith, cut_short 1)
  perform_truncated u8 w e h = ground (arith, cut_short 1)
  perform_truncated u16 w e h = ground (arith, cut_short 2)
  perform_truncated u24 w e h = ground (arith, cut_short 3)
  perform_truncated u32 w e h = ground (arith, cut_short 4)
  perform_truncated u64 w e h = ground (arith, cut_short 8)
  perform_truncated f32 w e h = ground (arith, cut_short 4)
  perform_truncated u256 w e h = ground (arith, cut_short 32)
  perform_truncated pubkey w e h = ground (arith, cut_short 32)
  perform_truncated ellswift_pubkey w e h = ground (arith, cut_short 64)
  perform_truncated signature w e h = ground (arith, cut_short 64)
  perform_truncated _ w e h = cc

  cut_whole :
      (w : ℕ)
      → p + w ≤ length bs
      → read w (reading bs p) ≡ returns (view (take w (drop p bs)), reading bs (p + w))
  unfolding read
  cut_whole w h = ground arith

  length_cut : (w : ℕ) → p + w ≤ length bs → length (take w (drop p bs)) ≡ w
  length_cut w h = omega (arith, length-take w (drop p bs), length-drop p bs)

  -- With enough bytes left, a call of fixed width returns, and moves by the width of its
  -- value.
  pub perform_whole :
      (c : Call) (w : ℕ)
      → width c ≡ some w
      → p + w ≤ length bs
      → MovesTo (p + w) (perform c (reading bs p))
  unfolding perform read_bool read_u8 read_u16 read_u24 read_u32 read_u64 read_f32 read_u256
      set_bytes read_pubkey read_ellswift_pubkey read_signature
  perform_whole u8 w e h = ground (arith, cut_whole 1, length_cut 1)
  perform_whole u16 w e h = ground (arith, cut_whole 2, length_cut 2)
  perform_whole bool w e h = ground (arith, cut_whole 1, length_cut 1)
  perform_whole u24 w e h =
      ground (arith, cut_whole 3, length_cut 3, length-append (take 3 (drop p bs)) (0 ∷ []))
  perform_whole u32 w e h = ground (arith, cut_whole 4, length_cut 4)
  perform_whole u64 w e h = ground (arith, cut_whole 8, length_cut 8)
  perform_whole f32 w e h = ground (arith, cut_whole 4, length_cut 4)
  perform_whole u256 w e h = ground (arith, cut_whole 32, length_cut 32)
  perform_whole pubkey w e h = ground (arith, cut_whole 32, length_cut 32)
  perform_whole ellswift_pubkey w e h = ground (arith, cut_whole 64, length_cut 64)
  perform_whole signature w e h = ground (arith, cut_whole 64, length_cut 64)
  perform_whole _ w e h = cc
