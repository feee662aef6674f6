-- ===== src/Grinder/Genuine.antt =====
-- What the grinder collects: keys that can be made again and whose authority keys read as wanted.
use mathlib.Core.Path.{subst}
use stratumv.Prelude.{
  ℕ, ◌<◌, ◌≤◌, ◌≡◌, inl, inr, refl, ap, arith, Bool, Bool-cases, true, false, some, List, [], ◌∷◌,
  ◌++◌, length, length-append, All, All-append, ◌==◌,
}
use stratumv.Binary.Failure.{ok}
use stratumv.Binary.Outcome.{Outcome, returns, panics, returned}
use stratumv.Noise.Secp256k1.{Secp256k1}
use stratumv.Noise.Ellswift.{Random, Draw, ellswift_create}
use stratumv.Noise.Ellswift.Recreates.{ellswift_create-IsDraw}
use stratumv.Noise.Keys.{
  Base58, Keypair, new_keypair, new_keypair_from, recreated, serialize_authority_key,
}
use stratumv.Grinder.{
  move, Found, Worker, selecting, grinding, sending, stopped, Main, receiving, cancelling, waiting,
  finished, System, update, init, reads_as, found, if_found, try, after_receive, Step, stop, go_on,
  grind, send, receive, cancel, finish, Reach, start, later,
}

-- An update keeps what holds of every goroutine.
update_lem :
    (P : Worker → Type 0) (workers : ℕ → Worker) (i : ℕ) (w : Worker)
    → P w
    → ((j : ℕ) → P (workers j))
    → (j : ℕ) → P (update workers i w j)
update_lem P workers i w new old j = elim (Bool-cases (j == i)) [
  | inl e ↦ rw e new
  | inr e ↦ rw e (old j)
]

module _ (curve : Secp256k1) (random : Random) (base58 : Base58) (str : List ℕ) where
  -- `NewKeypairFrom` makes the keypair of a result again: its authority key is the one that was
  -- found, and reads as wanted.
  pub record IsGenuine (r : Found) : Type 0 where
    pub keypair : Keypair curve
    pub recovered : new_keypair_from curve r.priv_key r.aux_rand r.case_num ≡ ok keypair
    pub same_key : serialize_authority_key base58 keypair.public_x ≡ r.pub_key
    pub wanted : reads_as str r.pub_key ≡ returns true

  abbrev pub SendsGenuine : Worker → Type 0
  SendsGenuine (sending nonce r) = IsGenuine r
  SendsGenuine _ = Unit {0}

  module _ (fuel nonce time_taken : ℕ) (source source' : random.Source) (d : Draw curve)
      (created : ellswift_create curve random fuel source ≡ some (ok d, source')) where
    found-IsGenuine :
        reads_as str (serialize_authority_key base58 (curve.public_x d.private)) ≡ returns true
        → IsGenuine (found curve random base58 str d nonce time_taken)
    unfolding new_keypair_from new_keypair
    found-IsGenuine h = record {
      keypair = new_keypair curve d;
      recovered =
          ap (recreated curve d.aux_rand d.case_num)
            (ellswift_create-IsDraw curve random fuel source source' d created).recreates;
      same_key = refl;
      wanted = h;
    }

    if_found-SendsGenuine :
        (o : Outcome Bool) (w : Worker)
        → reads_as str (serialize_authority_key base58 (curve.public_x d.private)) ≡ o
        → if_found curve random base58 str d nonce time_taken o ≡ returns w
        → SendsGenuine w
    if_found-SendsGenuine (returns true) w e h = subst SendsGenuine (returned h) (found-IsGenuine e)
    if_found-SendsGenuine (returns false) w e h = subst SendsGenuine (returned h) tt
    if_found-SendsGenuine panics w e h = cc

    try-SendsGenuine :
        (w : Worker) → try curve random base58 str d nonce time_taken ≡ returns w → SendsGenuine w
    unfolding try
    try-SendsGenuine w h = if_found-SendsGenuine _ w refl h

  -- What `main` has collected, while it receives and after.
  abbrev pub HasCollected : ℕ → Main → ℕ → Type 0
  HasCollected max_results receiving n = n < max_results
  HasCollected max_results _ n = n ≡ max_results

  abbrev pub IsCancelled : Main → Bool → Type 0
  IsCancelled receiving b = b ≡ false
  IsCancelled cancelling b = b ≡ false
  IsCancelled _ b = b ≡ true

  pub record Inv (max_results : ℕ) (s : System) : Type 0 where
    pub workers_genuine : (i : ℕ) → SendsGenuine (s.workers i)
    pub channel_genuine : All IsGenuine s.channel
    pub channel_fits : length s.channel ≤ max_results
    pub collected_genuine : All IsGenuine s.collected
    pub collected_so_far : HasCollected max_results s.main (length s.collected)
    pub cancelled_so_far : IsCancelled s.main s.cancelled

  init-Inv : (max_results : ℕ) → 0 < max_results → Inv max_results init
  init-Inv max_results h = record {
    workers_genuine = λ i. tt;
    channel_genuine = tt;
    channel_fits = omega arith;
    collected_genuine = tt;
    collected_so_far = h;
    cancelled_so_far = refl;
  }

  moved-Inv :
      {max_results : ℕ} {s : System} (i : ℕ) (w : Worker)
      → SendsGenuine w
      → Inv max_results s
      → Inv max_results (move s i w)
  moved-Inv {s = s} i w h v = record {
    workers_genuine = update_lem SendsGenuine s.workers i w h v.workers_genuine;
    channel_genuine = v.channel_genuine;
    channel_fits = v.channel_fits;
    collected_genuine = v.collected_genuine;
    collected_so_far = v.collected_so_far;
    cancelled_so_far = v.cancelled_so_far;
  }

  after_receive-HasCollected :
      (max_results : ℕ) (rs : List Found)
      → length rs ≤ max_results
      → HasCollected max_results (after_receive curve random base58 str max_results rs) (length rs)
  after_receive-HasCollected max_results rs h = elim (Bool-cases (length rs == max_results)) [
    | inl e ↦ rw e (ground arith)
    | inr e ↦ rw e (ground arith)
  ]

  after_receive-IsCancelled :
      (max_results : ℕ) (rs : List Found) (b : Bool)
      → b ≡ false
      → IsCancelled (after_receive curve random base58 str max_results rs) b
  after_receive-IsCancelled max_results rs b h = elim (Bool-cases (length rs == max_results)) [
    | inl e ↦ rw e h
    | inr e ↦ rw e h
  ]

  Step-Inv :
      {count max_results : ℕ} {s t : System}
      → Step curve random base58 str count max_results s t
      → Inv max_results s
      → Inv max_results t
  Step-Inv (stop i nonce lt at e) v = moved-Inv i stopped tt v
  Step-Inv (go_on i nonce lt at e) v = moved-Inv i (grinding nonce) tt v
  Step-Inv (grind i nonce time_taken fuel source source' d {w} lt at created tried) v =
      moved-Inv i w (try-SendsGenuine fuel nonce time_taken source source' d created w tried) v
  Step-Inv {s = s} (send i nonce r lt at room) v = record {
    workers_genuine = (moved-Inv i (selecting _) tt v).workers_genuine;
    channel_genuine =
        All-append IsGenuine s.channel (r ∷ []) v.channel_genuine
          (subst SendsGenuine at (v.workers_genuine i), tt);
    channel_fits = omega (arith, length-append s.channel (r ∷ []), room);
    collected_genuine = v.collected_genuine;
    collected_so_far = v.collected_so_far;
    cancelled_so_far = v.cancelled_so_far;
  }
  Step-Inv {max_results = max_results} {s} (receive r rest at e) v =
      let both : All IsGenuine (r ∷ rest) = subst (All IsGenuine) e v.channel_genuine in
      let so_far : HasCollected max_results receiving (length s.collected) =
        subst (λ m. HasCollected max_results m (length s.collected)) at v.collected_so_far in
      record {
        workers_genuine = v.workers_genuine;
        channel_genuine = both.1;
        channel_fits = omega (arith, v.channel_fits, ap length e);
        collected_genuine =
            All-append IsGenuine s.collected (r ∷ []) v.collected_genuine (both.0, tt);
        collected_so_far =
            after_receive-HasCollected max_results (s.collected ++ r ∷ [])
              (omega (arith, length-append s.collected (r ∷ []), so_far));
        cancelled_so_far =
            after_receive-IsCancelled max_results (s.collected ++ r ∷ []) s.cancelled
              (subst (λ m. IsCancelled m s.cancelled) at v.cancelled_so_far);
      }
  Step-Inv {max_results = max_results} {s} (cancel at) v = record {
    workers_genuine = v.workers_genuine;
    channel_genuine = v.channel_genuine;
    channel_fits = v.channel_fits;
    collected_genuine = v.collected_genuine;
    collected_so_far =
        subst (λ m. HasCollected max_results m (length s.collected)) at v.collected_so_far;
    cancelled_so_far = refl;
  }
  Step-Inv {max_results = max_results} {s} (finish at all_stopped) v = record {
    workers_genuine = v.workers_genuine;
    channel_genuine = v.channel_genuine;
    channel_fits = v.channel_fits;
    collected_genuine = v.collected_genuine;
    collected_so_far =
        subst (λ m. HasCollected max_results m (length s.collected)) at v.collected_so_far;
    cancelled_so_far = subst (λ m. IsCancelled m s.cancelled) at v.cancelled_so_far;
  }

  pub Reach-Inv :
      {count max_results : ℕ} {s : System}
      → 0 < max_results
      → Reach curve random base58 str count max_results s
      → Inv max_results s
  Reach-Inv h start = init-Inv _ h
  Reach-Inv h (later before step) = Step-Inv step (Reach-Inv h before)

  -- In every state that the grinder reaches, `main` has collected at most the wanted number of
  -- results, and once it waits for the goroutines exactly that number; and from each result
  -- `NewKeypairFrom` makes a keypair whose authority key is the one of the result and reads as
  -- wanted.
  pub collected-IsGenuine :
      {count max_results : ℕ} {s : System}
      → 0 < max_results
      → Reach curve random base58 str count max_results s
      → All IsGenuine s.collected
        × (length s.collected ≤ max_results)
        × (s.main ≡ waiting → length s.collected ≡ max_results)
  collected-IsGenuine {max_results = max_results} {s} h reached =
      let v = Reach-Inv h reached in
      (
        v.collected_genuine,
        at_most s.main v.collected_so_far,
        λ e. subst (λ m. HasCollected max_results m (length s.collected)) e v.collected_so_far,
      )
    where
      at_most :
          (m : Main)
          → HasCollected max_results m (length s.collected)
          → length s.collected ≤ max_results
      at_most receiving e = omega arith
      at_most cancelling e = omega arith
      at_most waiting e = omega arith
      at_most finished e = omega arith
