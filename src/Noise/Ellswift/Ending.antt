-- ===== src/Noise/Ellswift/Ending.antt =====
-- The loop of `XElligatorSwift`, and with it `EllswiftCreate`, ends at the first round that finds an
-- encoding or cannot read random bytes.
use stratumv.Prelude.{ℕ, zero, suc, ◌%◌, ◌<◌, ◌≡◌, refl, ap, ◌∙◌, arith, Option, none, some, List}
use stratumv.Binary.Failure.{Result, ok, err, no_random}
use stratumv.Noise.Secp256k1.{Secp256k1}
use stratumv.Noise.Ellswift.{
  Random, get_x_coord, random_u, encoding, Swift, Draw, first_byte, found, with_case, with_u, round,
  or_again, x_elligator_swift, drawn, with_key, ellswift_create,
}

module _ (curve : Secp256k1) (random : Random) where
  -- The two reads of a round of the loop, which take the source from `s` to `t`.
  pub record Reads (s t : random.Source) : Type 0 where
    pub aux_rand : List ℕ
    pub between : random.Source
    pub case_bytes : List ℕ
    pub aux_rand_read : random.read 32 s ≡ (some aux_rand, between)
    pub case_read : random.read 1 between ≡ (some case_bytes, t)

  -- The encoding that these make of the X-coordinate `x`, if it exists.
  abbrev pub inverse : {s t : random.Source} → curve.FieldVal → Reads s t → Option curve.FieldVal
  inverse x r =
      curve.x_swift_ec_inv (random_u curve r.aux_rand) x (first_byte curve random r.case_bytes % 8)

  -- So many rounds find no encoding.
  pub data Misses (x : curve.FieldVal) : ℕ → random.Source → random.Source → Type 0 where
    at_once : {s : random.Source} → Misses x 0 s s
    missed :
        {n : ℕ} {s t u : random.Source} (r : Reads s t)
        → inverse x r ≡ none
        → Misses x n t u
        → Misses x (suc n) s u

  -- A round finds an encoding, or one of its two reads fails.
  pub data Returns (x : curve.FieldVal)
      : random.Source → Result (Swift curve) → random.Source → Type 0 where
    finds :
        {s t : random.Source} (r : Reads s t) (v : curve.FieldVal)
        → inverse x r ≡ some v
        → Returns x s
            (ok (record {
              u = random_u curve r.aux_rand;
              t = v;
              aux_rand = r.aux_rand;
              case_num = first_byte curve random r.case_bytes % 8;
            }))
            t
    no_aux_rand :
        {s t : random.Source} → random.read 32 s ≡ (none, t) → Returns x s (err no_random) t
    no_case :
        {s between t : random.Source} (aux_rand : List ℕ)
        → random.read 32 s ≡ (some aux_rand, between)
        → random.read 1 between ≡ (none, t)
        → Returns x s (err no_random) t

  round-missed :
      (x : curve.FieldVal) {s t : random.Source} (r : Reads s t)
      → inverse x r ≡ none
      → round curve random x s ≡ (none, t)
  unfolding round
  round-missed x {s} {t} r h =
      ap (with_u curve random x) r.aux_rand_read
      ∙ ap (with_case curve random x r.aux_rand) r.case_read
      ∙ ap
          (found curve random r.aux_rand (first_byte curve random r.case_bytes % 8) t
            (random_u curve r.aux_rand))
          h

  round-Returns :
      (x : curve.FieldVal) {s t : random.Source} {w : Result (Swift curve)}
      → Returns x s w t
      → round curve random x s ≡ (some w, t)
  unfolding round
  round-Returns x {t = t} (finds r v h) =
      ap (with_u curve random x) r.aux_rand_read
      ∙ ap (with_case curve random x r.aux_rand) r.case_read
      ∙ ap
          (found curve random r.aux_rand (first_byte curve random r.case_bytes % 8) t
            (random_u curve r.aux_rand))
          h
  round-Returns x (no_aux_rand h) = ap (with_u curve random x) h
  round-Returns x (no_case aux_rand h k) =
      ap (with_u curve random x) h ∙ ap (with_case curve random x aux_rand) k

  x_elligator_swift_ends :
      (x : curve.FieldVal) (fuel : ℕ) {n : ℕ} {s t u : random.Source} {w : Result (Swift curve)}
      → n < fuel
      → Misses x n s t
      → Returns x t w u
      → x_elligator_swift curve random fuel x s ≡ some (w, u)
  unfolding x_elligator_swift
  x_elligator_swift_ends x zero h m last = absurd (omega (arith, h))
  x_elligator_swift_ends x (suc fuel) h at_once last =
      ap (λ r. or_again curve random r (x_elligator_swift curve random fuel x))
        (round-Returns x last)
  x_elligator_swift_ends x (suc fuel) h (missed r none_found m) last =
      ap (λ r. or_again curve random r (x_elligator_swift curve random fuel x))
        (round-missed x r none_found)
      ∙ x_elligator_swift_ends x fuel (omega (arith, h)) m last

  -- The key with what the loop returned.
  abbrev pub with_swift : curve.PrivateKey → Result (Swift curve) → Result (Draw curve)
  with_swift key (err e) = err e
  with_swift key (ok w) = ok (record {
    private = key;
    ellswift = encoding curve w.u w.t;
    aux_rand = w.aux_rand;
    case_num = w.case_num;
  })

  drawn_lem :
      (key : curve.PrivateKey) (w : Result (Swift curve)) (u : random.Source)
      → drawn curve random key (some (w, u)) ≡ some (with_swift key w, u)
  drawn_lem key (ok w) u = refl
  drawn_lem key (err e) u = refl

  -- Let `EllswiftCreate` draw the bytes of a key, let the first `n` rounds of its loop draw random bytes
  -- and a case for which `XSwiftECInv` has no encoding of the key's X-coordinate, and let the next round
  -- draw some for which it has one, or fail to read. With any fuel above `n`, `EllswiftCreate` then returns
  -- the key with that encoding, its random bytes and its case, or the error of the read, and leaves the
  -- source of random bytes as that round left it.
  pub ellswift_create_ends :
      {n : ℕ} (fuel : ℕ) (s s' t u : random.Source) (bs : List ℕ) (w : Result (Swift curve))
      → n < fuel
      → random.read 32 s ≡ (some bs, s')
      → Misses (get_x_coord curve (curve.priv_key_from_bytes bs)) n s' t
      → Returns (get_x_coord curve (curve.priv_key_from_bytes bs)) t w u
      → ellswift_create curve random fuel s ≡ some (with_swift (curve.priv_key_from_bytes bs) w, u)
  unfolding ellswift_create
  ellswift_create_ends fuel s s' t u bs w h key m last =
      ap (with_key curve random fuel) key
      ∙ ap (drawn curve random (curve.priv_key_from_bytes bs))
          (x_elligator_swift_ends (get_x_coord curve (curve.priv_key_from_bytes bs)) fuel h m last)
      ∙ drawn_lem (curve.priv_key_from_bytes bs) w u
