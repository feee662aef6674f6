-- ===== src/Tests/Grinder.antt =====
-- A run of the grinder that ends in a deadlock.
use stratumv.Prelude.{
  ℕ, ◌<◌, ◌≤◌, ◌≡◌, refl, arith, true, some, List, [], ◌∷◌, length, replicate, All,
}
use stratumv.Binary.Failure.{ok}
use stratumv.Binary.Outcome.{returns}
use stratumv.Noise.Keys.{serialize_authority_key}
use stratumv.Noise.Ellswift.{ellswift_create}
use stratumv.Grinder.{Found, System, Step, Reach, grinders, max_results, sending, waiting, reads_as}
use stratumv.Grinder.Genuine.{IsGenuine, collected-IsGenuine}
use stratumv.Grinder.Deadlock.{jammed, deadlock_reached}
use stratumv.Tests.Handshake.Toys.{open_curve, listed_random, plain_base58}
use stratumv.Tests.Keys.{draw_of}

abbrev rand : List ℕ
rand = 5 ∷ 5 ∷ 3 ∷ []

created : ellswift_create open_curve listed_random 1 rand ≡ some (ok (draw_of 5), [])
unfolding ellswift_create
created = refl

wanted :
    reads_as (5 ∷ 5 ∷ []) (serialize_authority_key plain_base58 (replicate 32 5)) ≡ returns true
unfolding reads_as serialize_authority_key
wanted = refl

abbrev last :
    (s : System) × Reach open_curve listed_random plain_base58 (5 ∷ 5 ∷ []) grinders max_results s
last =
    jammed open_curve listed_random plain_base58 (5 ∷ 5 ∷ []) 1 rand [] (draw_of 5) created wanted

deadlock_reached_example :
    (s : System) × Reach open_curve listed_random plain_base58 (5 ∷ 5 ∷ []) grinders max_results s
    × (s.main ≡ waiting)
    × (length s.collected ≡ max_results)
    × ((i : ℕ) × (r : Found) × (i < grinders)
        × (s.workers i ≡ sending 0 r)
        × (length s.channel ≡ max_results))
    × ((t : System)
        → ¬ Step open_curve listed_random plain_base58 (5 ∷ 5 ∷ []) grinders max_results s t)
deadlock_reached_example =
    deadlock_reached open_curve listed_random plain_base58 (5 ∷ 5 ∷ []) 1 rand [] (draw_of 5)
      created wanted

collected-IsGenuine_example :
    All (IsGenuine open_curve listed_random plain_base58 (5 ∷ 5 ∷ [])) last.0.collected
    × (length last.0.collected ≤ max_results)
    × (last.0.main ≡ waiting → length last.0.collected ≡ max_results)
collected-IsGenuine_example =
    collected-IsGenuine open_curve listed_random plain_base58 (5 ∷ 5 ∷ []) (omega arith) last.1
