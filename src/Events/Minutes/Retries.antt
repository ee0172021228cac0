-- ===== src/Events/Minutes/Retries.antt =====
-- A message that keeps failing is delivered a bounded number of times.
use be25_fin_thanos_meetbowl.Prelude.{
  ℕ, zero, suc, ◌+◌, ◌-◌, ◌≤◌, ◌<◌, ◌≡◌, refl, sym, ◌∙◌, inl, inr, Bool, true, false, Option, none,
  some, List, [], ◌∷◌, ◌++◌, arith, ltb, if◌then◌else◌, nat_beq_iff, Bool-cases, nat_eq, list_eq,
  option_eq, pair_eq,
}
use be25_fin_thanos_meetbowl.Errors.{Raises, returned, raised}
use be25_fin_thanos_meetbowl.Schemas.{Uuid}
use be25_fin_thanos_meetbowl.Schemas.Minutes.{MinutesGenerationCommand, MinutesGenerationResult}
use be25_fin_thanos_meetbowl.Events.Tracker.{Tracker}
use be25_fin_thanos_meetbowl.Events.Effect.{Effect, slept, rejected, is_requeued}
use be25_fin_thanos_meetbowl.Events.Mapper.{Codec, command_from_event}
use be25_fin_thanos_meetbowl.Events.Minutes.{
  RetryPolicy, Attempt, Event, retryable, handle_failure, publish_result, run_command, settle,
  process, retry_delay,
}

module _ (codec : Codec) (tracker : Tracker) (policy : RetryPolicy) where
  open tracker use {
    State, is_completed, increment_retry, retries, increment-count, retries-increment,
  }

  -- The broker delivers a requeued message again; attempt `n` is the behaviour of the workflow and
  -- the publisher at the nth delivery. `none` means that the fuel ran out.
  unfoldable pub deliver :
      ℕ → ℕ → (ℕ → Attempt codec.Json) → Event codec tracker policy → State → Option (ℕ × State)
  deliver zero n attempts envelope s = none
  deliver (suc fuel) n attempts envelope s =
      let (s', effects) = process codec tracker policy (attempts n) (some envelope) s in
      let again = deliver fuel (n + 1) attempts envelope s' in
      if is_requeued effects then again else some (n + 1, s')

  -- A failure that can be retried: the retry count goes up by one, and the message goes back to the
  -- queue after the delay, or to the dead letters once the count passes the maximum.
  pub handle_failure_lem :
      (e : Uuid) (s : State)
      → (retries e (handle_failure codec tracker policy e true s).0 ≡ retries e s + 1)
        × ((handle_failure codec tracker policy e true s).1 ≡ (
            if ltb policy.max_retries (retries e s + 1)
            then rejected false ∷ []
            else slept (retry_delay policy (retries e s + 1)) ∷ rejected true ∷ []))
  unfolding handle_failure
  handle_failure_lem e s = (
    ground (arith, increment-count e s, retries-increment e e s, (nat_beq_iff e e).1 refl),
    ground (arith, increment-count e s),
  )

  is_requeued-publish_result :
      (attempt : Attempt codec.Json) (envelope : Event codec tracker policy)
      (r : Raises MinutesGenerationResult) (after : List (Effect (Event codec tracker policy)))
      → is_requeued ((publish_result codec tracker policy attempt envelope r).1 ++ after)
        ≡ is_requeued after
  unfolding publish_result
  is_requeued-publish_result attempt envelope (raised x) after = refl
  is_requeued-publish_result attempt envelope (returned r) after = refl

  is_requeued-run_command :
      (attempt : Attempt codec.Json) (envelope : Event codec tracker policy)
      (c : Raises MinutesGenerationCommand) (after : List (Effect (Event codec tracker policy)))
      → is_requeued ((run_command codec tracker policy attempt envelope c).1 ++ after)
        ≡ is_requeued after
  unfolding run_command
  is_requeued-run_command attempt envelope (raised x) after = refl
  is_requeued-run_command attempt envelope (returned c) after =
      is_requeued-publish_result attempt envelope (attempt.execute c) after

  requeued_failure :
      (e : Uuid) (again : Bool) (s : State)
      → is_requeued (handle_failure codec tracker policy e again s).1 ≡ true
      → (retries e (handle_failure codec tracker policy e again s).0 ≡ retries e s + 1)
        × (retries e s + 1 ≤ policy.max_retries)
  unfolding handle_failure
  requeued_failure e false s h = cc
  requeued_failure e true s h = ((handle_failure_lem e s).0, ground (arith, increment-count e s))

  requeued_settle :
      (envelope : Event codec tracker policy) (r : Raises (Unit {0})) (s : State)
      → is_requeued (settle codec tracker policy envelope r s).1 ≡ true
      → (retries envelope.event_id (settle codec tracker policy envelope r s).0
          ≡ retries envelope.event_id s + 1)
        × (retries envelope.event_id s + 1 ≤ policy.max_retries)
  unfolding settle
  requeued_settle envelope (returned _) s h = cc
  requeued_settle envelope (raised x) s h = requeued_failure envelope.event_id (retryable x) s h

  requeued_process :
      (attempt : Attempt codec.Json) (envelope : Event codec tracker policy) (s : State)
      → is_requeued (process codec tracker policy attempt (some envelope) s).1 ≡ true
      → (retries envelope.event_id (process codec tracker policy attempt (some envelope) s).0
          ≡ retries envelope.event_id s + 1)
        × (retries envelope.event_id s + 1 ≤ policy.max_retries)
  unfolding process
  requeued_process attempt envelope s h = elim (Bool-cases (is_completed envelope.event_id s)) [
    | inl done ↦ cc (rw done at h)
    | inr new ↦ rw new (
        requeued_settle envelope _ s (
          sym (is_requeued-run_command attempt envelope (command_from_event codec envelope) _)
          ∙ (rw new at h)))
  ]

  -- Whatever the workflow and the publisher do, the broker delivers a message a bounded number of
  -- times: a message with `k` failed attempts leaves the queue after at most `max_retries - k + 1` more
  -- deliveries. That many rounds of fuel are enough.
  pub deliver_bound :
      (fuel n : ℕ) (attempts : ℕ → Attempt codec.Json) (envelope : Event codec tracker policy)
      (s : State)
      → policy.max_retries < retries envelope.event_id s + fuel
      → 0 < fuel
      → (m : ℕ) × (s' : State) × (deliver fuel n attempts envelope s ≡ some (m, s'))
        × (m ≤ n + (policy.max_retries - retries envelope.event_id s) + 1)
  unfolding deliver
  deliver_bound zero n attempts envelope s h k = elim k [ ]
  deliver_bound (suc fuel) n attempts envelope s h k =
      elim (Bool-cases
        (is_requeued (process codec tracker policy (attempts n) (some envelope) s).1)) [
          | inl again ↦
              let (counted, within) = requeued_process (attempts n) envelope s again in
              let (m, left, same, bound) =
                deliver_bound fuel (n + 1) attempts envelope
                  (process codec tracker policy (attempts n) (some envelope) s).0
                  (omega (arith, counted)) (omega (arith, within)) in
              (m, left, rw again same, omega (arith, counted, within))
          | inr gone ↦ (
            n + 1,
            (process codec tracker policy (attempts n) (some envelope) s).0,
            rw gone refl,
            omega arith,
          )
        ]
