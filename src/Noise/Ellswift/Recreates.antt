-- ===== src/Noise/Ellswift/Recreates.antt =====
-- What `EllswiftCreate` returns, `EllswiftRecreateFromBytes` makes again.
use mathlib.Core.Path.{subst}
use stratumv.Prelude.{
  ℕ, zero, suc, ◌%◌, ◌<◌, ◌≡◌, refl, sym, ap, ◌∙◌, arith, Bool, true, false, Option, none, some,
  List, length,
}
use stratumv.Binary.Failure.{Result, ok, err}
use stratumv.Noise.Secp256k1.{Secp256k1}
use stratumv.Noise.Ellswift.{
  Random, get_x_coord, normalized, random_u, x_elligator_swift_aux, or_no_encoding, encoding,
  with_encoding, ellswift_recreate_from_bytes, Swift, Draw, Round, first_byte, found, with_case,
  with_u, round, or_again, x_elligator_swift, drawn, with_key, ellswift_create,
}

module _ (curve : Secp256k1) where
  -- What a round found, of the X-coordinate `x`.
  pub record IsSwift (x : curve.FieldVal) (w : Swift curve) : Type 0 where
    pub from_random : w.u ≡ random_u curve w.aux_rand
    pub inverted : curve.x_swift_ec_inv w.u x w.case_num ≡ some w.t
    pub case_num_fits : w.case_num < 8
    pub aux_rand_fits : length w.aux_rand ≡ 32

  -- What `EllswiftCreate` returned: an encoding of the public key, from which it can be made again.
  pub record IsDraw (d : Draw curve) : Type 0 where
    pub encodes : curve.Encodes d.private d.ellswift
    pub aux_rand_fits : length d.aux_rand ≡ 32
    pub case_num_fits : d.case_num < 8
    pub recreates :
        ellswift_recreate_from_bytes curve (curve.serialize d.private) d.aux_rand d.case_num
        ≡ ok (d.private, d.ellswift)

  random_u-IsNormal : (bs : List ℕ) → curve.IsNormal (random_u curve bs)
  unfolding random_u
  random_u-IsNormal bs = by_overflow (curve.set_bytes bs) (curve.set_bytes-IsNormal bs)
    where
      by_overflow :
          (o : curve.FieldVal × Bool)
          → (o.1 ≡ false → curve.IsNormal o.0)
          → curve.IsNormal (normalized curve o)
      by_overflow (u, true) h = curve.normalize-IsNormal u
      by_overflow (u, false) h = h refl

  x_elligator_swift_aux_lem :
      (x : curve.FieldVal) (w : Swift curve)
      → IsSwift x w
      → x_elligator_swift_aux curve x w.aux_rand w.case_num ≡ ok (w.u, w.t)
  unfolding x_elligator_swift_aux
  x_elligator_swift_aux_lem x w v =
      ap (λ u. or_no_encoding curve u (curve.x_swift_ec_inv u x (w.case_num % 8)))
        (sym v.from_random)
      ∙ ap (λ c. or_no_encoding curve w.u (curve.x_swift_ec_inv w.u x c))
          (omega (arith, v.case_num_fits))
      ∙ ap (or_no_encoding curve w.u) v.inverted

  IsSwift-IsDraw :
      (priv_key : curve.PrivateKey) (w : Swift curve)
      → IsSwift (get_x_coord curve priv_key) w
      → IsDraw (record {
        private = priv_key;
        ellswift = encoding curve w.u w.t;
        aux_rand = w.aux_rand;
        case_num = w.case_num;
      })
  unfolding ellswift_recreate_from_bytes get_x_coord
  IsSwift-IsDraw priv_key w v = record {
    encodes =
        curve.x_swift_ec_inv-Encodes priv_key w.u w.t w.case_num v.case_num_fits
          (subst curve.IsNormal (sym v.from_random) (random_u-IsNormal w.aux_rand)) v.inverted;
    aux_rand_fits = v.aux_rand_fits;
    case_num_fits = v.case_num_fits;
    recreates =
        ap
          (λ k.
            with_encoding curve k
              (x_elligator_swift_aux curve (get_x_coord curve k) w.aux_rand w.case_num))
          (curve.priv_key_from_bytes-serialize priv_key)
        ∙ ap (with_encoding curve priv_key) (x_elligator_swift_aux_lem _ w v);
  }

  module _ (random : Random) where
    -- The value that was returned, if one was.
    abbrev found_or : Swift curve → Option (Result (Swift curve)) × random.Source → Swift curve
    found_or w (some (ok v), s) = v
    found_or w (some (err e), s) = w
    found_or w (none, s) = w

    found_lem :
        (x : curve.FieldVal) (aux_rand : List ℕ) (case_num : ℕ) (s s' : random.Source)
        (o : Option curve.FieldVal) (w : Swift curve)
        → length aux_rand ≡ 32
        → case_num < 8
        → curve.x_swift_ec_inv (random_u curve aux_rand) x case_num ≡ o
        → found curve random aux_rand case_num s (random_u curve aux_rand) o ≡ (some (ok w), s')
        → IsSwift x w
    found_lem x aux_rand case_num s s' none w hl hc e h = cc
    found_lem x aux_rand case_num s s' (some t) w hl hc e h =
        subst (IsSwift x) (ap (found_or w) h)
          (record { from_random = refl; inverted = e; case_num_fits = hc; aux_rand_fits = hl })

    with_case_lem :
        (x : curve.FieldVal) (aux_rand : List ℕ) (o : Option (List ℕ) × random.Source)
        (s' : random.Source) (w : Swift curve)
        → length aux_rand ≡ 32
        → with_case curve random x aux_rand o ≡ (some (ok w), s')
        → IsSwift x w
    with_case_lem x aux_rand (none, s) s' w hl h = cc
    with_case_lem x aux_rand (some bs, s) s' w hl h =
        found_lem x aux_rand (first_byte curve random bs % 8) s s' _ w hl (omega arith) refl h

    with_u_lem :
        (x : curve.FieldVal) (o : Option (List ℕ) × random.Source) (s' : random.Source)
        (w : Swift curve)
        → ((bs : List ℕ) → o.0 ≡ some bs → length bs ≡ 32)
        → with_u curve random x o ≡ (some (ok w), s')
        → IsSwift x w
    with_u_lem x (none, s) s' w hl h = cc
    with_u_lem x (some bs, s) s' w hl h = with_case_lem x bs _ s' w (hl bs refl) h

    round_lem :
        (x : curve.FieldVal) (s s' : random.Source) (w : Swift curve)
        → round curve random x s ≡ (some (ok w), s')
        → IsSwift x w
    unfolding round
    round_lem x s s' w h = with_u_lem x (random.read 32 s) s' w (random.length-read 32 s) h

    -- The loop returned what this round returned, or what the other rounds did.
    by_round :
        (x : curve.FieldVal) (s s' : random.Source) (w : Swift curve)
        (again : random.Source → Option (Result (Swift curve) × random.Source))
        (r : Round curve random)
        → ((t : random.Source) → again t ≡ some (ok w, s') → IsSwift x w)
        → round curve random x s ≡ r
        → or_again curve random r again ≡ some (ok w, s')
        → IsSwift x w
    by_round x s s' w again (none, t) rest e h = rest t h
    by_round x s s' w again (some v, t) rest e h = round_lem x s s' w (e ∙ (cc))

    x_elligator_swift-IsSwift :
        (fuel : ℕ) (x : curve.FieldVal) (s s' : random.Source) (w : Swift curve)
        → x_elligator_swift curve random fuel x s ≡ some (ok w, s')
        → IsSwift x w
    unfolding x_elligator_swift
    x_elligator_swift-IsSwift zero x s s' w h = cc
    x_elligator_swift-IsSwift (suc fuel) x s s' w h =
        by_round x s s' w (x_elligator_swift curve random fuel x) (round curve random x s)
          (λ t. x_elligator_swift-IsSwift fuel x t s' w) refl h

    abbrev draw_or : Draw curve → Option (Result (Draw curve) × random.Source) → Draw curve
    draw_or d (some (ok e, s)) = e
    draw_or d (some (err e, s)) = d
    draw_or d none = d

    drawn_lem :
        (priv_key : curve.PrivateKey) (s s' : random.Source)
        (o : Option (Result (Swift curve) × random.Source)) (d : Draw curve)
        → ((w : Swift curve) (t : random.Source)
            → o ≡ some (ok w, t)
            → IsSwift (get_x_coord curve priv_key) w)
        → drawn curve random priv_key o ≡ some (ok d, s')
        → IsDraw d
    drawn_lem priv_key s s' none d v h = cc
    drawn_lem priv_key s s' (some (err e, t)) d v h = cc
    drawn_lem priv_key s s' (some (ok w, t)) d v h =
        subst IsDraw (ap (draw_or d) h) (IsSwift-IsDraw priv_key w (v w t refl))

    with_key_lem :
        (fuel : ℕ) (o : Option (List ℕ) × random.Source) (s' : random.Source) (d : Draw curve)
        → with_key curve random fuel o ≡ some (ok d, s')
        → IsDraw d
    with_key_lem fuel (none, s) s' d h = cc
    with_key_lem fuel (some bs, s) s' d h =
        drawn_lem (curve.priv_key_from_bytes bs) s s' _ d
          (λ w t. x_elligator_swift-IsSwift fuel _ s t w) h

    -- What `EllswiftCreate` returns with no error is a key with an encoding of its public key, and
    -- `EllswiftRecreateFromBytes` makes the same key and encoding from the bytes of the key, the
    -- random bytes and the case number, which fit their types.
    pub ellswift_create-IsDraw :
        (fuel : ℕ) (s s' : random.Source) (d : Draw curve)
        → ellswift_create curve random fuel s ≡ some (ok d, s')
        → IsDraw d
    unfolding ellswift_create
    ellswift_create-IsDraw fuel s s' d h = with_key_lem fuel (random.read 32 s) s' d h
