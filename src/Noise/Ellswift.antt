-- ===== src/Noise/Ellswift.antt =====
-- ellswift.go: keys with an ElligatorSwift encoding, drawn at random and made again.
pub mod Recreates
pub mod Ending
use stratumv.Prelude.{
  ℕ, zero, suc, ◌%◌, ◌≡◌, Bool, true, false, Option, none, some, List, [], ◌∷◌, ◌++◌, length,
}
use stratumv.Binary.Failure.{Failure, Result, ok, err, no_encoding, no_random}
use stratumv.Noise.Secp256k1.{Secp256k1}

-- `crypto/rand`: a read of some bytes, or its error as `none`, and the source after that.
pub record Random : Type 1 where
  pub Source : Type 0
  pub read : ℕ → Source → Option (List ℕ) × Source
  pub length-read : (n : ℕ) (s : Source) (bs : List ℕ) → (read n s).0 ≡ some bs → length bs ≡ n

module _ (curve : Secp256k1) where
  unfoldable pub get_x_coord : curve.PrivateKey → curve.FieldVal
  get_x_coord priv_key = curve.x (curve.to_affine (curve.scalar_base_mult priv_key))

  abbrev normalized : curve.FieldVal × Bool → curve.FieldVal
  normalized (u, true) = curve.normalize u
  normalized (u, false) = u

  -- The first lines of `XElligatorSwiftAux`, which are those of the loop of `XElligatorSwift` too.
  unfoldable pub random_u : List ℕ → curve.FieldVal
  random_u bs = normalized (curve.set_bytes bs)

  abbrev or_no_encoding :
      curve.FieldVal → Option curve.FieldVal → Result (curve.FieldVal × curve.FieldVal)
  or_no_encoding u none = err no_encoding
  or_no_encoding u (some t) = ok (u, t)

  -- `caseNum & 7`
  unfoldable pub x_elligator_swift_aux :
      curve.FieldVal → List ℕ → ℕ → Result (curve.FieldVal × curve.FieldVal)
  unfolding random_u
  x_elligator_swift_aux x aux_rand case_num =
      let u = random_u aux_rand in or_no_encoding u (curve.x_swift_ec_inv u x (case_num % 8))

  -- `ellswift_pub = bytes(u) || bytes(t)`
  abbrev pub encoding : curve.FieldVal → curve.FieldVal → List ℕ
  encoding u t = curve.field_bytes u ++ curve.field_bytes t

  abbrev pub with_encoding :
      curve.PrivateKey
      → Result (curve.FieldVal × curve.FieldVal)
      → Result (curve.PrivateKey × List ℕ)
  with_encoding priv_key (err e) = err e
  with_encoding priv_key (ok (u, t)) = ok (priv_key, encoding u t)

  unfoldable pub ellswift_recreate_from_bytes :
      List ℕ → List ℕ → ℕ → Result (curve.PrivateKey × List ℕ)
  unfolding x_elligator_swift_aux get_x_coord
  ellswift_recreate_from_bytes priv_key_bytes aux_rand case_num =
      let priv_key = curve.priv_key_from_bytes priv_key_bytes in
      with_encoding priv_key (x_elligator_swift_aux (get_x_coord priv_key) aux_rand case_num)

  -- What `XElligatorSwift` returns: `u`, `t`, the random bytes of `u` and the case.
  pub record Swift : Type 0 where
    pub u : curve.FieldVal
    pub t : curve.FieldVal
    pub aux_rand : List ℕ
    pub case_num : ℕ

  -- What `EllswiftCreate` returns.
  pub record Draw : Type 0 where
    pub private : curve.PrivateKey
    pub ellswift : List ℕ
    pub aux_rand : List ℕ
    pub case_num : ℕ

  module _ (random : Random) where
    -- One round of the loop of `XElligatorSwift`: it returns, or the loop goes on.
    abbrev Round : Type 0
    Round = Option (Result Swift) × random.Source

    abbrev pub first_byte : List ℕ → ℕ
    first_byte [] = 0
    first_byte (b ∷ bs) = b

    abbrev pub found : List ℕ → ℕ → random.Source → curve.FieldVal → Option curve.FieldVal → Round
    found aux_rand case_num s u none = (none, s)
    found aux_rand case_num s u (some t) =
        (some (ok (record { u = u; t = t; aux_rand = aux_rand; case_num = case_num })), s)

    abbrev pub with_case : curve.FieldVal → List ℕ → Option (List ℕ) × random.Source → Round
    with_case x aux_rand (none, s) = (some (err no_random), s)
    with_case x aux_rand (some bs, s) =
        let u = random_u aux_rand in
        let case_num = first_byte bs % 8 in
        found aux_rand case_num s u (curve.x_swift_ec_inv u x case_num)

    abbrev pub with_u : curve.FieldVal → Option (List ℕ) × random.Source → Round
    with_u x (none, s) = (some (err no_random), s)
    with_u x (some aux_rand, s) = with_case x aux_rand (random.read 1 s)

    unfoldable pub round : curve.FieldVal → random.Source → Round
    unfolding random_u
    round x s = with_u x (random.read 32 s)

    -- The loop, with `none` where the fuel runs out.
    abbrev pub or_again :
        Round
        → (random.Source → Option (Result Swift × random.Source))
        → Option (Result Swift × random.Source)
    or_again (some r, s) again = some (r, s)
    or_again (none, s) again = again s

    unfoldable pub x_elligator_swift :
        ℕ → curve.FieldVal → random.Source → Option (Result Swift × random.Source)
    unfolding round
    x_elligator_swift zero x s = none
    x_elligator_swift (suc fuel) x s = or_again (round x s) (x_elligator_swift fuel x)

    abbrev pub drawn :
        curve.PrivateKey
        → Option (Result Swift × random.Source)
        → Option (Result Draw × random.Source)
    drawn priv_key none = none
    drawn priv_key (some (err e, s)) = some (err e, s)
    drawn priv_key (some (ok w, s)) = some (
      ok (record {
        private = priv_key;
        ellswift = encoding w.u w.t;
        aux_rand = w.aux_rand;
        case_num = w.case_num;
      }),
      s,
    )

    abbrev pub with_key : ℕ → Option (List ℕ) × random.Source → Option (Result Draw × random.Source)
    with_key fuel (none, s) = some (err no_random, s)
    with_key fuel (some bs, s) =
        let priv_key = curve.priv_key_from_bytes bs in
        drawn priv_key (x_elligator_swift fuel (get_x_coord priv_key) s)

    unfoldable pub ellswift_create : ℕ → random.Source → Option (Result Draw × random.Source)
    unfolding x_elligator_swift get_x_coord
    ellswift_create fuel s = with_key fuel (random.read 32 s)
