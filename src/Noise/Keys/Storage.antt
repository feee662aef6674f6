-- ===== src/Noise/Keys/Storage.antt =====
-- Keys that are stored and serialized are read back.
use mathlib.Core.Path.{subst}
use stratumv.Prelude.{
  ℕ, ◌≡◌, refl, ap, ◌∙◌, arith, Option, none, some, List, ◌∷◌, ◌++◌, append-nil, length, take,
  take_all,
}
use stratumv.Binary.Failure.{Failure, ok}
use stratumv.Binary.Outcome.{returns, view}
use stratumv.Binary.Builder
use stratumv.Binary.Builder.{◌▷◌, bytes, add_bytes, add_u8}
use stratumv.Binary.Builder.Laws.{add_bytes-Writes}
use stratumv.Binary.Reader.{to_array}
use stratumv.Binary.Reader.ReadsBack.{Reads, Reads-bind, Reads-last, read_bytes-Reads}
use stratumv.Binary.Codec.{run, Carries, Carries-then, Carries-end, RoundTrips, round_trip}
use stratumv.Binary.Codec.Fields.{u8-Carries}
use stratumv.Noise.Secp256k1.{Secp256k1}
use stratumv.Noise.Ellswift.{Random, Draw, ellswift_create}
use stratumv.Noise.Ellswift.Recreates.{IsDraw, ellswift_create-IsDraw}
use stratumv.Noise.Keys.{
  recreated, assign_recreated, Base58, Keypair, Draw, new_keypair, new_keypair_from, encode, decode,
  decoded, stored, read_array, serialize_authority_key, deserialize_authority_key,
}

array-Reads : (n : ℕ) (s : List ℕ) → length s ≡ n → Reads (read_array n) s s
array-Reads n s h = rw (append-nil s) at (
    Reads-bind (to_array n) (read_bytes-Reads n s h)
      (Reads-last s (λ r _. ground (arith, take_whole))))
  where
    take_whole : take n s ≡ s
    take_whole = subst (λ m. take m s ≡ s) h (take_all s)

array-Carries : (s : List ℕ) → length s ≡ 32 → Carries (add_bytes s) (read_array 32) s
array-Carries s h = record { wire = _; writes = add_bytes-Writes s; reads = array-Reads 32 s h }

module _ (curve : Secp256k1) (random : Random) where
  module _ (fuel : ℕ) (s s' : random.Source) (d : Draw curve)
      (created : ellswift_create curve random fuel s ≡ some (ok d, s')) where
    -- The keypair of what `EllswiftCreate` returned with no error is encoded for storage with no
    -- error, and `Decode` into any receiver gives it back with no error, also if more bytes follow;
    -- `NewKeypairFrom` makes it again from the private key, the random bytes and the case number.
    pub decode-encode_keypair :
        (g : Keypair curve) (rest : List ℕ)
        → (bs : List ℕ) × (encode curve (new_keypair curve d) ≡ returns (bs, none))
          × (decode curve (view (bs ++ rest)) g ≡ returns (new_keypair curve d, none))
          × (new_keypair_from curve (curve.serialize d.private) d.aux_rand d.case_num
              ≡ ok (new_keypair curve d))
    unfolding encode decode new_keypair new_keypair_from
    decode-encode_keypair g rest = (
      out.0,
      ap (λ e. returns (out.0, e)) carried.0,
      ap (decoded curve g) (carried.1 rest)
          ∙ ap (λ r. returns (assign_recreated curve d.aux_rand d.case_num g r)) v.recreates,
      ap (recreated curve d.aux_rand d.case_num) v.recreates,
    )
      where
        v : IsDraw curve d
        v = ellswift_create-IsDraw curve random fuel s s' d created

        out : List ℕ × Option Failure
        out = bytes (
            Builder.new
            ▷ add_bytes (curve.serialize d.private)
            ▷ add_bytes d.aux_rand
            ▷ add_u8 d.case_num)

        carried : RoundTrips out (run stored) (curve.serialize d.private, d.aux_rand, d.case_num)
        carried = round_trip (
            Carries-then _
              (array-Carries (curve.serialize d.private) (curve.length-serialize d.private))
              (Carries-then _ (array-Carries d.aux_rand v.aux_rand_fits) (
                Carries-then _ (u8-Carries d.case_num (omega (arith, v.case_num_fits)))
                  (Carries-end _))))

-- An authority key that is serialized is deserialized again, with no panic.
pub deserialize-serialize_authority_key :
    (base58 : Base58) (pubkey : List ℕ)
    → deserialize_authority_key base58 (serialize_authority_key base58 pubkey) ≡ returns (ok pubkey)
unfolding serialize_authority_key deserialize_authority_key
deserialize-serialize_authority_key base58 pubkey =
    rw (base58.check_decode-encode (0 ∷ pubkey) 1 (omega arith)) refl
