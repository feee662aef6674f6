-- ===== src/Noise/Handshake/Schedules.antt =====
-- A party that writes a message and waits for the answer, and a party that answers, on a
-- connection, with their steps in any order.
use stratumv.Prelude.{
  ℕ, ◌<◌, ◌≡◌, refl, sym, ap, ◌∙◌, arith, true, false, List, [], ◌∷◌, length, take, drop, take_all,
  ltb,
}
use stratumv.Binary.Failure.{Result, ok}
use stratumv.Noise.Proc.{Proc, done, write, read, Network, Side, lhs, rhs, step, run}

-- `xs` is a schedule from which steps of `ys` have been left out.
pub data Embeds : List Side → List Side → Type 0 where
  empty : Embeds [] []
  skip : {s : Side} {xs ys : List Side} → Embeds xs ys → Embeds xs (s ∷ ys)
  keep : {s : Side} {xs ys : List Side} → Embeds xs ys → Embeds (s ∷ xs) (s ∷ ys)

Embeds-tail : {s : Side} {xs ys : List Side} → Embeds (s ∷ xs) ys → Embeds xs ys
Embeds-tail (skip e) = skip (Embeds-tail e)
Embeds-tail (keep e) = skip e

-- How far the two parties are.
pub data Stage : Type 0 where
  begun offered received answered ended : Stage

abbrev pub next : Side → Stage → Stage
next lhs begun = offered
next rhs begun = begun
next lhs offered = offered
next rhs offered = received
next lhs received = received
next rhs received = answered
next lhs answered = ended
next rhs answered = answered
next _ ended = ended

abbrev pub after : List Side → Stage → Stage
after [] stage = stage
after (side ∷ sides) stage = after sides (next side stage)

-- The steps that are missing.
abbrev todo : Stage → List Side
todo begun = lhs ∷ rhs ∷ rhs ∷ lhs ∷ []
todo offered = rhs ∷ rhs ∷ lhs ∷ []
todo received = rhs ∷ lhs ∷ []
todo answered = lhs ∷ []
todo ended = []

-- Any step leaves the steps that are missing, or does the first of them.
todo-next :
    (s : Side) (stage : Stage) {sides : List Side}
    → Embeds (todo stage) (s ∷ sides)
    → Embeds (todo (next s stage)) sides
todo-next lhs begun (skip e) = Embeds-tail e
todo-next lhs begun (keep e) = e
todo-next rhs begun (skip e) = e
todo-next lhs offered (skip e) = e
todo-next rhs offered (skip e) = Embeds-tail e
todo-next rhs offered (keep e) = e
todo-next lhs received (skip e) = e
todo-next rhs received (skip e) = Embeds-tail e
todo-next rhs received (keep e) = e
todo-next lhs answered (skip e) = Embeds-tail e
todo-next lhs answered (keep e) = e
todo-next rhs answered (skip e) = e
todo-next s ended (skip e) = e

pub after-ended :
    (sides : List Side) (stage : Stage) → Embeds (todo stage) sides → after sides stage ≡ ended
after-ended [] ended e = refl
after-ended [] begun e = elim e [ ]
after-ended [] offered e = elim e [ ]
after-ended [] received e = elim e [ ]
after-ended [] answered e = elim e [ ]
after-ended (s ∷ sides) stage e = after-ended sides (next s stage) (todo-next s stage e)

module _ {A B : Type 0} (message answer : List ℕ) (message_size answer_size : ℕ) (a : A) (b : B)
    (ask : Result (List ℕ) → Proc A) (reply : Result (List ℕ) → Proc B) where
  -- The network at a stage.
  abbrev pub at : Stage → Network A B
  at begun = record {
    left = write message (read answer_size ask);
    to_left = [];
    right = read message_size reply;
    to_right = [];
  }
  at offered = record {
    left = read answer_size ask;
    to_left = [];
    right = read message_size reply;
    to_right = message;
  }
  at received = record {
    left = read answer_size ask;
    to_left = [];
    right = write answer (done b);
    to_right = [];
  }
  at answered = record {
    left = read answer_size ask;
    to_left = answer;
    right = done b;
    to_right = [];
  }
  at ended = record { left = done a; to_left = []; right = done b; to_right = [] }

  -- The first party has ended only at the last stage.
  pub left_done : (stage : Stage) {a' : A} → (at stage).left ≡ done a' → at stage ≡ at ended
  left_done begun h = cc
  left_done offered h = cc
  left_done received h = cc
  left_done answered h = cc
  left_done ended h = refl

  module _ (some_message : 0 < message_size) (some_answer : 0 < answer_size)
      (message_fits : length message ≡ message_size) (answer_fits : length answer ≡ answer_size)
      (replies : reply (ok message) ≡ write answer (done b)) (ends : ask (ok answer) ≡ done a) where
    blocked : (n : ℕ) → 0 < n → ltb 0 n ≡ true
    blocked n h = ground arith

    drop_all : (bs : List ℕ) → drop (length bs) bs ≡ []
    drop_all [] = refl
    drop_all (x ∷ bs) = drop_all bs

    all_there :
        (bs : List ℕ) (n : ℕ)
        → length bs ≡ n
        → (ltb (length bs) n ≡ false) × (take n bs ≡ bs) × (drop n bs ≡ [])
    all_there bs n h = (
      ground arith,
      ap (λ m. take m bs) (sym h) ∙ take_all bs,
      ap (λ m. drop m bs) (sym h) ∙ drop_all bs,
    )

    message_there :
        (ltb (length message) message_size ≡ false)
        × (take message_size message ≡ message)
        × (drop message_size message ≡ [])
    message_there = all_there message message_size message_fits

    answer_there :
        (ltb (length answer) answer_size ≡ false)
        × (take answer_size answer ≡ answer)
        × (drop answer_size answer ≡ [])
    answer_there = all_there answer answer_size answer_fits

    step-at : (s : Side) (stage : Stage) → step s (at stage) ≡ at (next s stage)
    step-at lhs begun = refl
    step-at rhs begun = rw (blocked message_size some_message) refl
    step-at lhs offered = rw (blocked answer_size some_answer) refl
    step-at rhs offered = rw (message_there.0, message_there.1, message_there.2, replies) refl
    step-at lhs received = rw (blocked answer_size some_answer) refl
    step-at rhs received = refl
    step-at lhs answered = rw (answer_there.0, answer_there.1, answer_there.2, ends) refl
    step-at rhs answered = refl
    step-at lhs ended = refl
    step-at rhs ended = refl

    -- Every schedule leads to one of the stages.
    pub run-at : (sides : List Side) (stage : Stage) → run sides (at stage) ≡ at (after sides stage)
    unfolding run
    run-at [] stage = refl
    run-at (s ∷ sides) stage = ap (run sides) (step-at s stage) ∙ run-at sides (next s stage)
