-- ===== src/Tests/Keys.antt =====
-- Keys of ellswift.go and noise.go at concrete inputs.
use stratumv.Prelude.{ℕ, ◌≡◌, refl, arith, some, none, List, [], ◌∷◌, ◌++◌, replicate}
use stratumv.Binary.Failure.{ok, err, no_random}
use stratumv.Binary.Outcome.{returns, view}
use stratumv.Noise.Ellswift.{Draw, get_x_coord, random_u, ellswift_create}
use stratumv.Noise.Ellswift.Recreates.{IsDraw, ellswift_create-IsDraw}
use stratumv.Noise.Ellswift.Ending.{Reads, at_once, missed, finds, ellswift_create_ends}
use stratumv.Noise.Keys.{
  serialize_ellswift, serialize_ellswift_bytes, public_key, public_key_bytes, Keypair, new_keypair,
  new_keypair_from, serialize_authority_key, deserialize_authority_key,
}
use stratumv.Noise.Keys
use stratumv.Noise.Keys.Storage.{decode-encode_keypair}
use stratumv.Tests.Handshake.Toys.{open_curve, listed_random}

abbrev pub draw_of : ℕ → Draw open_curve
draw_of k = record {
  private = k;
  ellswift = replicate 64 k;
  aux_rand = replicate 32 k;
  case_num = 3;
}

-- The first round finds nothing for the key 5, the second does.
abbrev rand : List ℕ
rand = 5 ∷ 3 ∷ 1 ∷ 5 ∷ 11 ∷ []

created : ellswift_create open_curve listed_random 2 rand ≡ some (ok (draw_of 5), [])
unfolding ellswift_create
created = refl

no_more_random :
    ellswift_create open_curve listed_random 9 (5 ∷ 3 ∷ 1 ∷ []) ≡ some (err no_random, [])
unfolding ellswift_create
no_more_random = refl

abbrev first_reads : Reads open_curve listed_random (3 ∷ 1 ∷ 5 ∷ 11 ∷ []) (5 ∷ 11 ∷ [])
first_reads = record {
  aux_rand = replicate 32 3;
  between = 1 ∷ 5 ∷ 11 ∷ [];
  case_bytes = 1 ∷ [];
  aux_rand_read = refl;
  case_read = refl;
}

abbrev second_reads : Reads open_curve listed_random (5 ∷ 11 ∷ []) []
second_reads = record {
  aux_rand = replicate 32 5;
  between = 11 ∷ [];
  case_bytes = 11 ∷ [];
  aux_rand_read = refl;
  case_read = refl;
}

ellswift_create-IsDraw_example : IsDraw open_curve (draw_of 5)
ellswift_create-IsDraw_example =
    ellswift_create-IsDraw open_curve listed_random 2 rand [] (draw_of 5) created

ellswift_create_ends_example :
    ellswift_create open_curve listed_random 2 rand ≡ some (ok (draw_of 5), [])
unfolding get_x_coord random_u
ellswift_create_ends_example =
    ellswift_create_ends open_curve listed_random 2 rand (3 ∷ 1 ∷ 5 ∷ 11 ∷ []) (5 ∷ 11 ∷ []) []
      (replicate 32 5) (ok (record { u = 5; t = 5; aux_rand = replicate 32 5; case_num = 3 }))
      (omega arith) refl (missed first_reads refl at_once) (finds second_reads 5 refl)

decode-encode_keypair_example :
    (bs : List ℕ) × (Keys.encode open_curve (new_keypair open_curve (draw_of 5))
      ≡ returns (bs, none))
    × (Keys.decode open_curve (view (bs ++ 7 ∷ [])) (new_keypair open_curve (draw_of 6))
        ≡ returns (new_keypair open_curve (draw_of 5), none))
    × (new_keypair_from open_curve (replicate 32 5) (replicate 32 5) 3
        ≡ ok (new_keypair open_curve (draw_of 5)))
decode-encode_keypair_example =
    decode-encode_keypair open_curve listed_random 2 rand [] (draw_of 5) created
      (new_keypair open_curve (draw_of 6)) (7 ∷ [])

-- The parts of a new keypair.
parts_of_keypair :
    (serialize_ellswift open_curve (new_keypair open_curve (draw_of 5)) ≡ replicate 64 5)
    × (serialize_ellswift_bytes open_curve (new_keypair open_curve (draw_of 5)) ≡ replicate 64 5)
    × (public_key open_curve (new_keypair open_curve (draw_of 5))
        ≡ returns (public_key_bytes open_curve (new_keypair open_curve (draw_of 5))))
unfolding serialize_ellswift serialize_ellswift_bytes public_key new_keypair
parts_of_keypair = (refl, refl, refl)
