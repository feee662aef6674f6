-- ===== src/Grinder/Deadlock.antt =====
-- `wg.Wait()` may never return.
use mathlib.Core.Path.{subst}
use stratumv.Prelude.{
  Bool-cases, ltb, ℕ, zero, suc, ◌<◌, ◌≡◌, ◌≢◌, ◌≤◌, ◌⊎◌, inl, inr, refl, ap, arith, false, true,
  some, List, [], length,
}
use stratumv.Binary.Failure.{ok}
use stratumv.Binary.Outcome.{returns}
use stratumv.Noise.Secp256k1.{Secp256k1}
use stratumv.Noise.Ellswift.{Random, Draw, ellswift_create}
use stratumv.Noise.Keys.{Base58, serialize_authority_key}
use stratumv.Grinder.{
  Found, Worker, selecting, grinding, sending, stopped, waiting, System, grinders, max_results,
  move, reads_as, found, if_found, try, Step, stop, go_on, grind, send, receive, cancel, finish,
  Reach, start, later,
}
use stratumv.Grinder.Genuine.{IsCancelled, Reach-Inv}

is_stopped : (w : Worker) → (w ≡ stopped) ⊎ (w ≢ stopped)
is_stopped stopped = inl refl
is_stopped (selecting nonce) = inr (λ e. cc)
is_stopped (grinding nonce) = inr (λ e. cc)
is_stopped (sending nonce r) = inr (λ e. cc)

-- Some goroutine of the first `k` has not stopped, or all have.
some_left :
    (s : System) (k : ℕ)
    → ((i : ℕ) × (i < k) × (s.workers i ≢ stopped)) ⊎ ((i : ℕ) → i < k → s.workers i ≡ stopped)
some_left s zero = inr (λ i h. absurd (omega arith))
some_left s (suc k) = elim (some_left s k) [
  | inl (i, lt, left) ↦ inl (i, omega arith, left)
  | inr rest ↦ elim (is_stopped (s.workers k)) [
    | inl e ↦ inr (λ i h. ground (arith, rest i))
    | inr left ↦ inl (k, omega arith, left)
  ]
]

module _ (curve : Secp256k1) (random : Random) (base58 : Base58) (str : List ℕ) where
  module _ (fuel : ℕ) (source source' : random.Source) (d : Draw curve)
      (created : ellswift_create curve random fuel source ≡ some (ok d, source'))
      (wanted : reads_as str (serialize_authority_key base58 (curve.public_x d.private))
        ≡ returns true) where
    abbrev pub result : Found
    result = found curve random base58 str d 0 0

    pub finds : try curve random base58 str d 0 0 ≡ returns (sending 0 result)
    unfolding try
    finds = ap (if_found curve random base58 str d 0 0) wanted

    abbrev pub Reached : System → Type 0
    Reached = Reach curve random base58 str grinders max_results

    -- A goroutine goes through its loop and stands at the send.
    pub to_send :
        {s : System} (i : ℕ)
        → i < grinders
        → s.workers i ≡ selecting 0
        → s.cancelled ≡ false
        → Reached s
        → Reached (move (move s i (grinding 0)) i (sending 0 result))
    to_send i lt at e reached =
        later (later reached (go_on i 0 lt at e))
          (grind i 0 0 fuel source source' d lt (ground arith) created finds)

    -- Three goroutines find a key. The result of the first is received, that of the second fills
    -- the channel, and the third stands at the send.
    abbrev pub jammed : (s : System) × Reached s
    jammed =
        let first = to_send 0 (omega arith) refl refl start in
        let received =
          later (later first (send 0 0 result (omega arith) refl (omega arith)))
            (receive result [] refl refl) in
        let found =
          to_send 2 (omega arith) refl refl (to_send 1 (omega arith) refl refl received) in
        let filled =
          later (later found (cancel refl)) (send 1 0 result (omega arith) refl (omega arith)) in
        (
          _,
          later
              (later (later filled (stop 0 1 (omega arith) refl refl))
                (stop 1 1 (omega arith) refl refl))
              (stop 3 0 (omega arith) refl refl),
        )

    ends_of :
        (i : ℕ) → i < 4 → (jammed.0.workers i ≡ stopped) ⊎ (jammed.0.workers i ≡ sending 0 result)
    ends_of zero h = inl refl
    ends_of (suc zero) h = inl refl
    ends_of (suc (suc zero)) h = inr refl
    ends_of (suc (suc (suc zero))) h = inl refl
    ends_of (suc (suc (suc (suc i)))) h = absurd (omega arith)

    no_step : (t : System) → ¬ Step curve random base58 str grinders max_results jammed.0 t
    no_step t (stop i nonce lt at e) = ground (arith, ends_of i lt)
    no_step t (go_on i nonce lt at e) = cc
    no_step t (grind i nonce time_taken fuel source source' d {w} lt at created tried) =
        ground (arith, ends_of i lt)
    no_step t (send i nonce r lt at room) = omega arith
    no_step t (receive r rest at e) = cc
    no_step t (cancel at) = cc
    no_step t (finish at all_stopped) = ground (arith, all_stopped 2 (omega arith))

    -- If a key is drawn whose authority key reads as wanted, the grinder with its four goroutines
    -- and one result can reach a state in which `main` has its result and waits, and no step is
    -- left: a goroutine stands at the send of another result, for which the channel has no room.
    pub deadlock_reached :
        (s : System) × Reach curve random base58 str grinders max_results s
        × (s.main ≡ waiting)
        × (length s.collected ≡ max_results)
        × ((i : ℕ) × (r : Found) × (i < grinders)
            × (s.workers i ≡ sending 0 r)
            × (length s.channel ≡ max_results))
        × ((t : System) → ¬ Step curve random base58 str grinders max_results s t)
    deadlock_reached =
        (jammed.0, jammed.1, refl, refl, (2, result, omega arith, refl, refl), no_step)

  module _ (count capacity : ℕ) where
    abbrev CanStep : System → Type 0
    CanStep s = (t : System) × Step curve random base58 str count capacity s t

    -- What a goroutine that has not stopped can do, once `main` has cancelled.
    abbrev Busy : System → Type 0
    Busy s =
        CanStep s
        ⊎ ((i : ℕ) × (nonce : ℕ) × (i < count) × (s.workers i ≡ grinding nonce))
        ⊎ ((i : ℕ) × (nonce : ℕ) × (r : Found) × (i < count)
            × (s.workers i ≡ sending nonce r)
            × (capacity ≤ length s.channel))

    left_over :
        (s : System) (i : ℕ) (w : Worker)
        → i < count
        → s.cancelled ≡ true
        → s.workers i ≡ w
        → w ≢ stopped
        → Busy s
    left_over s i (selecting nonce) lt c e left = inl (_, stop i nonce lt e c)
    left_over s i (grinding nonce) lt c e left = inr (inl (i, nonce, lt, e))
    left_over s i (sending nonce r) lt c e left =
        elim (Bool-cases (ltb (length s.channel) capacity)) [
          | inl room ↦ inl (_, send i nonce r lt e (ground arith))
          | inr full ↦ inr (inr (i, nonce, r, lt, e, ground arith))
        ]
    left_over s i stopped lt c e left = absurd (left refl)

    -- While `main` waits, the program has a step to make, or a goroutine draws a key, or one stands
    -- at a send for which the channel has no room: it ends, or is stuck at such a send.
    pub waiting_progress :
        (s : System)
        → 0 < capacity
        → Reach curve random base58 str count capacity s
        → s.main ≡ waiting
        → CanStep s
          ⊎ ((i : ℕ) × (nonce : ℕ) × (i < count) × (s.workers i ≡ grinding nonce))
          ⊎ ((i : ℕ) × (nonce : ℕ) × (r : Found) × (i < count)
              × (s.workers i ≡ sending nonce r)
              × (capacity ≤ length s.channel))
    waiting_progress s h reached at =
        let v = Reach-Inv curve random base58 str h reached in
        let c : s.cancelled ≡ true =
          subst (λ m. IsCancelled curve random base58 str m s.cancelled) at v.cancelled_so_far in
        elim (some_left s count) [
          | inl (i, lt, left) ↦ left_over s i (s.workers i) lt c refl left
          | inr all_stopped ↦ inl (_, finish at all_stopped)
        ]
