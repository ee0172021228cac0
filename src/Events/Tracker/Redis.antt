-- ===== src/Events/Tracker/Redis.antt =====
-- `RedisEventTracker` of app/events/idempotency.py. The Redis server is a parameter: its commands with
-- the documented behaviour that the tracker needs. Only the passing of time ends a key.
use be25_fin_thanos_meetbowl.Prelude.{
  ℕ, ◌+◌, ◌≤◌, ◌≡◌, refl, ap, ◌∙◌, Bool, true, false, ◌&&◌, and-false, ltb, Option, none, some,
  ◌++◌, arith, nat_beq, if◌then◌else◌, nat_beq_iff, Bool-ext, ◌==◌, nat_eq, list_eq, option_eq,
  pair_eq, list_beq_iff, list_beq-append,
}
use be25_fin_thanos_meetbowl.Text.{Text, codes}
use be25_fin_thanos_meetbowl.Schemas.{Uuid}
use be25_fin_thanos_meetbowl.Events.Tracker.{Tracker}

-- Whether a key with so many seconds left is still there after `n` seconds; `none` is a key without an end.
abbrev pub outlives : ℕ → Option ℕ → Bool
outlives n none = true
outlives n (some left) = ltb n left

-- `left` is the time to live of a key in seconds, and `elapse` what is left of the state some seconds later.
-- `value` is the integer that a key holds, 0 if it holds none.
pub record Redis : Type 1 where
  pub State : Type 0
  pub exists : Text → State → Bool
  pub value : Text → State → ℕ
  pub set_ex : Text → ℕ → State → State
  pub delete : Text → State → State
  pub incr : Text → State → ℕ × State
  pub expire : Text → ℕ → State → State
  pub exists-set_ex :
      (k j : Text) (ttl : ℕ) (s : State)
      → 1 ≤ ttl
      → exists j (set_ex k ttl s) ≡ (if k == j then true else exists j s)
  pub exists-delete :
      (k j : Text) (s : State) → exists j (delete k s) ≡ (if k == j then false else exists j s)
  pub exists-incr :
      (k j : Text) (s : State) → exists j (incr k s).1 ≡ (if k == j then true else exists j s)
  pub exists-expire :
      (k j : Text) (ttl : ℕ) (s : State) → 1 ≤ ttl → exists j (expire k ttl s) ≡ exists j s
  pub value-set_ex :
      (k j : Text) (ttl : ℕ) (s : State)
      → 1 ≤ ttl
      → value j (set_ex k ttl s) ≡ (if k == j then 1 else value j s)
  pub value-delete :
      (k j : Text) (s : State) → value j (delete k s) ≡ (if k == j then 0 else value j s)
  pub incr-count : (k : Text) (s : State) → (incr k s).0 ≡ value k s + 1
  pub value-incr :
      (k j : Text) (s : State)
      → value j (incr k s).1 ≡ (if k == j then value k s + 1 else value j s)
  pub value-expire :
      (k j : Text) (ttl : ℕ) (s : State) → 1 ≤ ttl → value j (expire k ttl s) ≡ value j s
  pub left : Text → State → Option ℕ
  pub elapse : ℕ → State → State
  pub left-set_ex :
      (k j : Text) (ttl : ℕ) (s : State)
      → 1 ≤ ttl
      → left j (set_ex k ttl s) ≡ (if k == j then some ttl else left j s)
  pub left-delete :
      (k j : Text) (s : State) → left j (delete k s) ≡ (if k == j then none else left j s)
  pub exists-elapse :
      (n : ℕ) (j : Text) (s : State) → exists j (elapse n s) ≡ (exists j s && outlives n (left j s))
  pub value-elapse :
      (n : ℕ) (j : Text) (s : State)
      → value j (elapse n s) ≡ (if outlives n (left j s) then value j s else 0)

not-ltb_self : (n : ℕ) → ltb n n ≡ false
not-ltb_self n = ground arith

module _ (redis : Redis) (uuid_text : Uuid → Text) (namespace : Text) (ttl : ℕ) where
  open redis use {State, exists, value, set_ex, delete, incr, expire}

  unfoldable pub completed_key : Uuid → Text
  completed_key e = namespace ++ (codes ":completed:" ++ uuid_text e)

  unfoldable pub retry_key : Uuid → Text
  retry_key e = namespace ++ (codes ":retry:" ++ uuid_text e)

  unfoldable pub is_completed : Uuid → State → Bool
  is_completed e s = exists (completed_key e) s

  unfoldable pub mark_completed : Uuid → State → State
  mark_completed e s = delete (retry_key e) (set_ex (completed_key e) ttl s)

  unfoldable pub increment_retry : Uuid → State → ℕ × State
  increment_retry e s =
      let (count, s') = incr (retry_key e) s in
      if nat_beq count 1 then (count, expire (retry_key e) ttl s') else (count, s')

  unfoldable pub retries : Uuid → State → ℕ
  retries e s = value (retry_key e) s

  -- A retry key is no completion key: the letters after the namespace differ.
  retry-ne-completed : (e f : Uuid) → (retry_key e == completed_key f) ≡ false
  unfolding completed_key retry_key
  retry-ne-completed e f = list_beq-append namespace _ _

  completed-ne-retry : (e f : Uuid) → (completed_key e == retry_key f) ≡ false
  unfolding completed_key retry_key
  completed-ne-retry e f = list_beq-append namespace _ _

  module _ (injective : (e f : Uuid) → uuid_text e ≡ uuid_text f → e ≡ f) where
    same_text : (e f : Uuid) → (uuid_text e == uuid_text f) ≡ nat_beq e f
    same_text e f =
        Bool-ext (uuid_text e == uuid_text f) (nat_beq e f)
          (λ h. (nat_beq_iff e f).1 (injective e f ((list_beq_iff _ _).0 h)))
          (λ h. (list_beq_iff _ _).1 (ap uuid_text ((nat_beq_iff e f).0 h)))

    same_completed_key : (e f : Uuid) → (completed_key e == completed_key f) ≡ nat_beq e f
    unfolding completed_key
    same_completed_key e f = list_beq-append namespace _ _ ∙ same_text e f

    same_retry_key : (e f : Uuid) → (retry_key e == retry_key f) ≡ nat_beq e f
    unfolding retry_key
    same_retry_key e f = list_beq-append namespace _ _ ∙ same_text e f

    module _ (lasting : 1 ≤ ttl) where
      pub completed-mark :
          (e f : Uuid) (s : State)
          → is_completed f (mark_completed e s) ≡ (if nat_beq e f then true else is_completed f s)
      unfolding is_completed mark_completed
      completed-mark e f s =
          rw
            (
              redis.exists-delete (retry_key e) (completed_key f) (set_ex (completed_key e) ttl s),
              redis.exists-set_ex (completed_key e) (completed_key f) ttl s lasting,
              retry-ne-completed e f,
              same_completed_key e f,
            )
            refl

      pub retries-mark :
          (e f : Uuid) (s : State)
          → retries f (mark_completed e s) ≡ (if nat_beq e f then 0 else retries f s)
      unfolding retries mark_completed
      retries-mark e f s =
          rw
            (
              redis.value-delete (retry_key e) (retry_key f) (set_ex (completed_key e) ttl s),
              redis.value-set_ex (completed_key e) (retry_key f) ttl s lasting,
              completed-ne-retry e f,
              same_retry_key e f,
            )
            refl

      pub completed-increment :
          (e f : Uuid) (s : State) → is_completed f (increment_retry e s).1 ≡ is_completed f s
      unfolding is_completed increment_retry
      completed-increment e f s = ground (
        arith,
        redis.exists-expire (retry_key e) (completed_key f) ttl (incr (retry_key e) s).1 lasting,
        redis.exists-incr (retry_key e) (completed_key f) s,
        retry-ne-completed e f,
      )

      pub increment-count : (e : Uuid) (s : State) → (increment_retry e s).0 ≡ retries e s + 1
      unfolding retries increment_retry
      increment-count e s = ground (arith, redis.incr-count (retry_key e) s)

      pub retries-increment :
          (e f : Uuid) (s : State)
          → retries f (increment_retry e s).1
            ≡ (if nat_beq e f then retries e s + 1 else retries f s)
      unfolding retries increment_retry
      retries-increment e f s = ground (
        arith,
        redis.value-expire (retry_key e) (retry_key f) ttl (incr (retry_key e) s).1 lasting,
        redis.value-incr (retry_key e) (retry_key f) s,
        same_retry_key e f,
      )

      -- After its time to live a mark is gone.
      pub completed-elapse :
          (e : Uuid) (s : State) → is_completed e (redis.elapse ttl (mark_completed e s)) ≡ false
      unfolding is_completed mark_completed
      completed-elapse e s =
          rw
            (
              redis.exists-elapse ttl (completed_key e)
                  (delete (retry_key e) (set_ex (completed_key e) ttl s)),
              redis.left-delete (retry_key e) (completed_key e) (set_ex (completed_key e) ttl s),
              retry-ne-completed e e,
              redis.left-set_ex (completed_key e) (completed_key e) ttl s lasting,
              same_completed_key e e,
              (nat_beq_iff e e).1 refl,
              not-ltb_self ttl,
            )
            (and-false _)

      -- Both trackers offer the same interface, so that what holds of a consumer holds with either.
      pub in_redis : Tracker
      in_redis = record {
        State = State;
        is_completed = is_completed;
        mark_completed = mark_completed;
        increment_retry = increment_retry;
        retries = retries;
        completed-mark = completed-mark;
        retries-mark = retries-mark;
        completed-increment = completed-increment;
        increment-count = increment-count;
        retries-increment = retries-increment;
      }
