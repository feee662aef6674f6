-- ===== src/Grinder.antt =====
-- examples/grinder/pubkeygrinder.go: goroutines that draw keys until the authority key of one reads
-- as wanted, and `main`, which collects what they find over a channel and then waits for them.
pub mod Genuine
pub mod Deadlock
use stratumv.Prelude.{
  ℕ, suc, ◌+◌, ◌%◌, ◌^◌, ◌<◌, ◌≡◌, Bool, true, false, some, List, [], ◌∷◌, ◌++◌, length, take, drop,
  ltb, ◌==◌, if◌then◌else◌,
}
use stratumv.Binary.Failure.{ok}
use stratumv.Binary.Outcome.{Outcome, returns, panics}
use stratumv.U256.{equal_bytes}
use stratumv.Noise.Secp256k1.{Secp256k1}
use stratumv.Noise.Ellswift.{Random, Draw, ellswift_create}
use stratumv.Noise.Keys.{Base58, serialize_authority_key}

-- `result`
pub record Found : Type 0 where
  pub pub_key : List ℕ
  pub priv_key : List ℕ
  pub aux_rand : List ℕ
  pub case_num : ℕ
  pub nonce : ℕ
  pub time_taken : ℕ

-- Where a goroutine of `grinder` is, with its nonce: at the `select`, behind it, at the send of a
-- result, or at its end.
pub data Worker : Type 0 where
  selecting : ℕ → Worker
  grinding : ℕ → Worker
  sending : ℕ → Found → Worker
  stopped : Worker

-- Where `main` is: at the receive, at `cancel()`, at `wg.Wait()`, or at its end.
pub data Main : Type 0 where
  receiving : Main
  cancelling : Main
  waiting : Main
  finished : Main

pub record System : Type 0 where
  pub workers : ℕ → Worker
  pub channel : List Found
  pub cancelled : Bool
  pub main : Main
  pub collected : List Found

abbrev pub update : (ℕ → Worker) → ℕ → Worker → ℕ → Worker
update workers i w j = if j == i then w else workers j

abbrev pub move : System → ℕ → Worker → System
move s i w = record s { workers = update s.workers i w }

abbrev pub init : System
init = record {
  workers = λ i. selecting 0;
  channel = [];
  cancelled = false;
  main = receiving;
  collected = [];
}

-- `main` starts four goroutines and wants one result.
abbrev pub grinders : ℕ
grinders = 4

abbrev pub max_results : ℕ
max_results = 1

-- The nonce is a uint64.
abbrev pub next_nonce : ℕ → ℕ
next_nonce nonce = (nonce + 1) % 2 ^ 64

-- `enc[2:2+strLen] == str`
unfoldable pub reads_as : List ℕ → List ℕ → Outcome Bool
reads_as str enc =
    if ltb (length enc) (2 + length str)
    then panics
    else returns (equal_bytes (take (length str) (drop 2 enc)) str)

module _ (curve : Secp256k1) (random : Random) (base58 : Base58) (str : List ℕ) where
  abbrev pub found : Draw curve → ℕ → ℕ → Found
  found d nonce time_taken = record {
    pub_key = serialize_authority_key base58 (curve.public_x d.private);
    priv_key = curve.serialize d.private;
    aux_rand = d.aux_rand;
    case_num = d.case_num;
    nonce = nonce;
    time_taken = time_taken;
  }

  abbrev pub if_found : Draw curve → ℕ → ℕ → Outcome Bool → Outcome Worker
  if_found d nonce time_taken (returns true) = returns (sending nonce (found d nonce time_taken))
  if_found d nonce time_taken (returns false) = returns (selecting (next_nonce nonce))
  if_found d nonce time_taken panics = panics

  -- What a goroutine does with the key that it has drawn.
  unfoldable pub try : Draw curve → ℕ → ℕ → Outcome Worker
  unfolding reads_as serialize_authority_key
  try d nonce time_taken =
      if_found d nonce time_taken
        (reads_as str (serialize_authority_key base58 (curve.public_x d.private)))

  -- `main` after a receive.
  abbrev pub after_receive : ℕ → List Found → Main
  after_receive capacity collected = if length collected == capacity then cancelling else receiving

  -- One step of one goroutine, of `count` that grind, or of `main`. The channel and the
  -- collection have room for `capacity` results. A panic ends the program: there is
  -- no step for it.
  pub data Step (count capacity : ℕ) (s : System) : System → Type 0 where
    stop :
        (i nonce : ℕ)
        → i < count
        → s.workers i ≡ selecting nonce
        → s.cancelled ≡ true
        → Step count capacity s (move s i stopped)
    go_on :
        (i nonce : ℕ)
        → i < count
        → s.workers i ≡ selecting nonce
        → s.cancelled ≡ false
        → Step count capacity s (move s i (grinding nonce))
    grind :
        (i nonce time_taken fuel : ℕ) (source source' : random.Source) (d : Draw curve) {w : Worker}
        → i < count
        → s.workers i ≡ grinding nonce
        → ellswift_create curve random fuel source ≡ some (ok d, source')
        → try d nonce time_taken ≡ returns w
        → Step count capacity s (move s i w)
    send :
        (i nonce : ℕ) (r : Found)
        → i < count
        → s.workers i ≡ sending nonce r
        → length s.channel < capacity
        → Step count capacity s
            (record (move s i (selecting (next_nonce nonce))) { channel = s.channel ++ r ∷ [] })
    receive :
        (r : Found) (rest : List Found)
        → s.main ≡ receiving
        → s.channel ≡ r ∷ rest
        → Step count capacity s (record s {
          channel = rest;
          collected = s.collected ++ r ∷ [];
          main = after_receive capacity (s.collected ++ r ∷ []);
        })
    cancel :
        s.main ≡ cancelling → Step count capacity s (record s { cancelled = true; main = waiting })
    finish :
        s.main ≡ waiting
        → ((i : ℕ) → i < count → s.workers i ≡ stopped)
        → Step count capacity s (record s { main = finished })

  pub data Reach (count capacity : ℕ) : System → Type 0 where
    start : Reach count capacity init
    later :
        {s t : System} → Reach count capacity s → Step count capacity s t → Reach count capacity t
