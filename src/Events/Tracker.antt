-- ===== src/Events/Tracker.antt =====
-- app/events/idempotency.py: what a consumer asks of a tracker, and the tracker in memory.
pub mod Redis
pub mod Refinement
use be25_fin_thanos_meetbowl.Prelude.{
  ℕ, ◌+◌, ◌≡◌, refl, Bool, true, false, Option, none, some, List, [], ◌∷◌, arith, nat_beq, nat_eq,
  contains, if◌then◌else◌,
}
use be25_fin_thanos_meetbowl.Prelude.Dict.{
  Dict, lookup, insert, remove, lookup-insert, lookup-remove,
}
use be25_fin_thanos_meetbowl.Schemas.{Uuid}

-- The operations of a tracker with what a consumer relies on. `retries` is the number of failed
-- attempts that the tracker remembers; no operation of the program reads it directly.
pub record Tracker : Type 1 where
  pub State : Type 0
  pub is_completed : Uuid → State → Bool
  pub mark_completed : Uuid → State → State
  pub increment_retry : Uuid → State → ℕ × State
  pub retries : Uuid → State → ℕ
  pub completed-mark :
      (e f : Uuid) (s : State)
      → is_completed f (mark_completed e s) ≡ (if nat_beq e f then true else is_completed f s)
  pub retries-mark :
      (e f : Uuid) (s : State)
      → retries f (mark_completed e s) ≡ (if nat_beq e f then 0 else retries f s)
  pub completed-increment :
      (e f : Uuid) (s : State) → is_completed f (increment_retry e s).1 ≡ is_completed f s
  pub increment-count : (e : Uuid) (s : State) → (increment_retry e s).0 ≡ retries e s + 1
  pub retries-increment :
      (e f : Uuid) (s : State)
      → retries f (increment_retry e s).1 ≡ (if nat_beq e f then retries e s + 1 else retries f s)

-- `InMemoryEventTracker`
pub record InMemory : Type 0 where
  pub completed : List Uuid
  pub retry_counts : Dict Uuid ℕ

abbrev pub count_or_zero : Option ℕ → ℕ
count_or_zero none = 0
count_or_zero (some n) = n

-- `set.add`
abbrev pub add : Uuid → List Uuid → List Uuid
add e es = if contains e es then es else e ∷ es

unfoldable pub is_completed : Uuid → InMemory → Bool
is_completed e t = contains e t.completed

unfoldable pub mark_completed : Uuid → InMemory → InMemory
mark_completed e t = record {
  completed = add e t.completed;
  retry_counts = remove e t.retry_counts;
}

unfoldable pub increment_retry : Uuid → InMemory → ℕ × InMemory
increment_retry e t =
    let count = count_or_zero (lookup e t.retry_counts) + 1 in
    (count, record t { retry_counts = insert e count t.retry_counts })

unfoldable pub retries : Uuid → InMemory → ℕ
retries e t = count_or_zero (lookup e t.retry_counts)

abbrev pub fresh : InMemory
fresh = record { completed = []; retry_counts = [] }

module _ (e f : Uuid) (t : InMemory) where
  pub completed-mark :
      is_completed f (mark_completed e t) ≡ (if nat_beq e f then true else is_completed f t)
  unfolding is_completed mark_completed
  completed-mark = ground arith

  pub retries-mark : retries f (mark_completed e t) ≡ (if nat_beq e f then 0 else retries f t)
  unfolding retries mark_completed
  retries-mark = rw (lookup-remove e f t.retry_counts) (ground arith)

  pub completed-increment : is_completed f (increment_retry e t).1 ≡ is_completed f t
  unfolding is_completed increment_retry
  completed-increment = refl

  pub increment-count : (increment_retry e t).0 ≡ retries e t + 1
  unfolding retries increment_retry
  increment-count = refl

  pub retries-increment :
      retries f (increment_retry e t).1 ≡ (if nat_beq e f then retries e t + 1 else retries f t)
  unfolding retries increment_retry
  retries-increment =
      rw (lookup-insert e f (count_or_zero (lookup e t.retry_counts) + 1) t.retry_counts)
        (ground arith)

abbrev pub in_memory : Tracker
in_memory = record {
  State = InMemory;
  is_completed = is_completed;
  mark_completed = mark_completed;
  increment_retry = increment_retry;
  retries = retries;
  completed-mark = completed-mark;
  retries-mark = retries-mark;
  completed-increment = completed-increment;
  increment-count = λ e t. increment-count e e t;
  retries-increment = retries-increment;
}
