-- ===== src/Noise/Cipher/Concurrent.antt =====
-- Two goroutines that call `EncryptWithAd` of one `CipherState` at the same time. The counter is an
-- atomic.Uint64: each of its `Load` and `Add` is one step, and `getNonce` is two.
use stratumv.Prelude.{
  ℕ, ◌+◌, ◌%◌, ◌^◌, ◌<◌, ◌≡◌, ◌≢◌, ◌≤◌, refl, arith, List, [], ◌∷◌, length, ◌==◌, if◌then◌else◌,
}
use stratumv.Binary.Failure.{Result, ok, err, nonce_exhausted}
use stratumv.Noise.Aead.{Aead}
use stratumv.Noise.Cipher.{CipherState, encrypt_with_ad}
use stratumv.Noise.Cipher.Laws.{nonce_bytes}
use stratumv.Noise.Proc.{Side, lhs, rhs}

-- Where a call is: at its beginning, behind the test of the counter, between the `Load` and the `Add`
-- of `getNonce`, or at its end.
pub data Call : Type 0 where
  entered : Call
  tested : Call
  loaded : ℕ → Call
  ended : Result (List ℕ) → Call

-- What the two goroutines share, and their calls.
pub record Calls : Type 0 where
  pub counter : ℕ
  pub left : Call
  pub right : Call

abbrev pub both_enter : ℕ → Calls
both_enter n = record { counter = n; left = entered; right = entered }

module _ (aead : Aead) (max_noise_nonce : ℕ) (k : List ℕ) where
  -- One step of a call, with the counter: `Seal` uses the nonce that was loaded.
  unfoldable pub step_call : List ℕ → List ℕ → Call → ℕ → Call × ℕ
  step_call ad plaintext entered n =
      if length k == 0
      then (ended (ok plaintext), n)
      else if n == max_noise_nonce
      then (ended (err nonce_exhausted), n)
      else (tested, n)
  step_call ad plaintext tested n = (loaded n, n)
  step_call ad plaintext (loaded v) n =
      (ended (ok (aead.seal k (nonce_bytes v) plaintext ad)), (n + 1) % 2 ^ 64)
  step_call ad plaintext (ended r) n = (ended r, n)

  -- What the left call and the right call encrypt.
  module _ (left_ad left_text right_ad right_text : List ℕ) where
    unfoldable pub step : Side → Calls → Calls
    unfolding step_call
    step lhs calls =
        let (left, counter) = step_call left_ad left_text calls.left calls.counter in
        record { counter = counter; left = left; right = calls.right }
    step rhs calls =
        let (right, counter) = step_call right_ad right_text calls.right calls.counter in
        record { counter = counter; left = calls.left; right = right }

    unfoldable pub run : List Side → Calls → Calls
    unfolding step
    run [] calls = calls
    run (side ∷ sides) calls = run sides (step side calls)

    -- The right call as the left one leaves the state.
    abbrev pub in_turn : CipherState × Result (List ℕ) → CipherState × Result (List ℕ) → Calls
    in_turn (cs₁, r₁) (cs₂, r₂) = record { counter = cs₂.n; left = ended r₁; right = ended r₂ }

module _ (aead : Aead) (max_noise_nonce : ℕ) (cs : CipherState)
    (left_ad left_text right_ad right_text : List ℕ) where
  -- Where one call has ended before the other begins, the steps come to what `EncryptWithAd`, called
  -- twice, returns and leaves.
  pub run-in_turn :
      run aead max_noise_nonce cs.k left_ad left_text right_ad right_text
        (lhs ∷ lhs ∷ lhs ∷ rhs ∷ rhs ∷ rhs ∷ [])
        (both_enter cs.n)
      ≡ (let first = encrypt_with_ad aead max_noise_nonce left_ad left_text cs in
          in_turn aead max_noise_nonce cs.k left_ad left_text right_ad right_text first
            (encrypt_with_ad aead max_noise_nonce right_ad right_text first.0))
  unfolding run encrypt_with_ad
  run-in_turn = ground arith

  -- With a key, and a nonce left, two calls that go on by turns both end with no error, and have
  -- sealed their texts with the same key at the same nonce, while the counter has gone up by two.
  pub nonce_reused :
      0 < length cs.k
      → cs.n ≢ max_noise_nonce
      → run aead max_noise_nonce cs.k left_ad left_text right_ad right_text
          (lhs ∷ rhs ∷ lhs ∷ rhs ∷ lhs ∷ rhs ∷ [])
          (both_enter cs.n)
        ≡ record {
          counter = ((cs.n + 1) % 2 ^ 64 + 1) % 2 ^ 64;
          left = ended (ok (aead.seal cs.k (nonce_bytes cs.n) left_text left_ad));
          right = ended (ok (aead.seal cs.k (nonce_bytes cs.n) right_text right_ad));
        }
  unfolding run
  nonce_reused keyed more = ground arith

module _ (aead : Aead) (max_noise_nonce : ℕ) (k : List ℕ) (n : ℕ) where
  abbrev pub ended_count : Call → ℕ
  ended_count (ended r) = 1
  ended_count entered = 0
  ended_count tested = 0
  ended_count (loaded v) = 0

  -- A call that began when the counter was `n`, beside one other: it has no error, and its nonce is
  -- one of the two next ones.
  abbrev pub IsSealing : List ℕ → List ℕ → Call → Type 0
  IsSealing ad plaintext (loaded v) = (n ≤ v) × (v ≤ n + 1)
  IsSealing ad plaintext (ended (ok out)) =
      (v : ℕ) × (n ≤ v) × (v ≤ n + 1) × (out ≡ aead.seal k (nonce_bytes v) plaintext ad)
  IsSealing ad plaintext (ended (err e)) = ⊥
  IsSealing ad plaintext entered = Unit
  IsSealing ad plaintext tested = Unit

  -- The two calls and the counter, after some steps.
  pub record AreCounted (left_ad left_text right_ad right_text : List ℕ) (calls : Calls)
      : Type 0 where
    pub counted : calls.counter ≡ n + ended_count calls.left + ended_count calls.right
    pub left_seals : IsSealing left_ad left_text calls.left
    pub right_seals : IsSealing right_ad right_text calls.right

  ended_count_small : (c : Call) → ended_count c ≤ 1
  ended_count_small entered = omega arith
  ended_count_small tested = omega arith
  ended_count_small (loaded v) = omega arith
  ended_count_small (ended r) = omega arith

  module _ (keyed : 0 < length k) (more : n + 1 < max_noise_nonce)
      (end_fits : max_noise_nonce < 2 ^ 64) where
    step_call-IsSealing :
        (ad plaintext : List ℕ) (c : Call) (m others : ℕ)
        → IsSealing ad plaintext c
        → m ≡ n + ended_count c + others
        → others ≤ 1
        → IsSealing ad plaintext (step_call aead max_noise_nonce k ad plaintext c m).0
          × ((step_call aead max_noise_nonce k ad plaintext c m).1
              ≡ n + ended_count (step_call aead max_noise_nonce k ad plaintext c m).0 + others)
    unfolding step_call
    step_call-IsSealing ad plaintext entered m others s total few = ground arith
    step_call-IsSealing ad plaintext tested m others s total few =
        (omega (arith, total, few), omega (arith, total))
    step_call-IsSealing ad plaintext (loaded v) m others s total few =
        ((v, s.0, s.1, refl), omega (arith, total, few, more, end_fits))
    step_call-IsSealing ad plaintext (ended (ok out)) m others s total few = (s, total)
    step_call-IsSealing ad plaintext (ended (err e)) m others s total few = absurd s

    module _ (left_ad left_text right_ad right_text : List ℕ) where
      step-AreCounted :
          (side : Side) (calls : Calls)
          → AreCounted left_ad left_text right_ad right_text calls
          → AreCounted left_ad left_text right_ad right_text
              (step aead max_noise_nonce k left_ad left_text right_ad right_text side calls)
      unfolding step
      step-AreCounted lhs calls c =
          let (seals, counted) =
            step_call-IsSealing left_ad left_text calls.left calls.counter (ended_count calls.right)
              c.left_seals c.counted (ended_count_small calls.right) in
          record { counted = counted; left_seals = seals; right_seals = c.right_seals }
      step-AreCounted rhs calls c =
          let (seals, counted) =
            step_call-IsSealing right_ad right_text calls.right calls.counter
              (ended_count calls.left) c.right_seals (omega (arith, c.counted))
              (ended_count_small calls.left) in
          record {
            counted = omega (arith, counted);
            left_seals = c.left_seals;
            right_seals = seals;
          }

      run-AreCounted_from :
          (sides : List Side) (calls : Calls)
          → AreCounted left_ad left_text right_ad right_text calls
          → AreCounted left_ad left_text right_ad right_text
              (run aead max_noise_nonce k left_ad left_text right_ad right_text sides calls)
      unfolding run
      run-AreCounted_from [] calls c = c
      run-AreCounted_from (side ∷ sides) calls c =
          run-AreCounted_from sides _ (step-AreCounted side calls c)

      -- With a key, and two nonces left, neither call fails in any order of the steps: the counter has
      -- gone up by the number of the calls that have ended, and a call that has ended has sealed its
      -- text at one of the two next nonces.
      pub run-AreCounted :
          (sides : List Side)
          → AreCounted left_ad left_text right_ad right_text (
              run aead max_noise_nonce k left_ad left_text right_ad right_text sides (both_enter n))
      run-AreCounted sides =
          run-AreCounted_from sides (both_enter n)
            (record { counted = omega arith; left_seals = tt; right_seals = tt })
