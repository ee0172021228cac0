-- ===== src/Events/Minutes/Delivery.antt =====
-- Every delivery settles its message once, and a completed event is never worked on again.
use be25_fin_thanos_meetbowl.Prelude.{
  ◌≡◌, refl, ◌∙◌, inl, inr, Bool, true, false, Option, none, some, List, [], ◌∷◌, ◌++◌, arith,
  nat_beq_iff, Bool-cases, nat_eq, list_eq, option_eq, pair_eq,
}
use be25_fin_thanos_meetbowl.Errors.{Raises, returned, raised}
use be25_fin_thanos_meetbowl.Schemas.{Uuid}
use be25_fin_thanos_meetbowl.Events.Tracker.{Tracker}
use be25_fin_thanos_meetbowl.Events.Effect.{Effect, acked, SettlesOnce}
use be25_fin_thanos_meetbowl.Events.Mapper.{Codec, command_from_event}
use be25_fin_thanos_meetbowl.Events.Minutes.{
  RetryPolicy, Attempt, Event, retryable, handle_failure, publish_result, run_command, settle,
  process, MinutesGenerationResult, MinutesGenerationCommand,
}

module _ (codec : Codec) (tracker : Tracker) (policy : RetryPolicy) where
  open tracker use {
    State, is_completed, mark_completed, increment_retry, completed-mark, completed-increment,
  }

  handle_failure-SettlesOnce :
      (e : Uuid) (r : Bool) (s : State) → SettlesOnce (handle_failure codec tracker policy e r s).1
  unfolding handle_failure
  handle_failure-SettlesOnce e false s = refl
  handle_failure-SettlesOnce e true s = ground arith

  settle-SettlesOnce :
      (envelope : Event codec tracker policy) (r : Raises (Unit {0})) (s : State)
      → SettlesOnce (settle codec tracker policy envelope r s).1
  unfolding settle
  settle-SettlesOnce envelope (returned _) s = refl
  settle-SettlesOnce envelope (raised x) s =
      handle_failure-SettlesOnce envelope.event_id (retryable x) s

  publish_result-settle :
      (attempt : Attempt codec.Json) (envelope : Event codec tracker policy)
      (r : Raises MinutesGenerationResult) (after : List (Effect (Event codec tracker policy)))
      → SettlesOnce after
      → SettlesOnce ((publish_result codec tracker policy attempt envelope r).1 ++ after)
  unfolding publish_result
  publish_result-settle attempt envelope r [] h = absurd h
  publish_result-settle attempt envelope (raised x) (a ∷ after) h = (refl, h)
  publish_result-settle attempt envelope (returned _) (a ∷ after) h = (refl, (refl, h))

  run_command-settle :
      (attempt : Attempt codec.Json) (envelope : Event codec tracker policy)
      (c : Raises MinutesGenerationCommand) (after : List (Effect (Event codec tracker policy)))
      → SettlesOnce after
      → SettlesOnce ((run_command codec tracker policy attempt envelope c).1 ++ after)
  unfolding run_command
  run_command-settle attempt envelope (raised x) after h = h
  run_command-settle attempt envelope (returned c) after h =
      publish_result-settle attempt envelope (attempt.execute c) after h

  -- Whatever the message, the state and the behaviour of the workflow and the publisher, one delivery
  -- acknowledges or rejects its message exactly once, as its last effect.
  pub process-SettlesOnce :
      (attempt : Attempt codec.Json) (message : Option (Event codec tracker policy)) (s : State)
      → SettlesOnce (process codec tracker policy attempt message s).1
  unfolding process
  process-SettlesOnce attempt none s = refl
  process-SettlesOnce attempt (some envelope) s =
      elim (Bool-cases (is_completed envelope.event_id s)) [
        | inl done ↦ rw done refl
        | inr new ↦ rw new (
            run_command-settle attempt envelope (command_from_event codec envelope) _
              (settle-SettlesOnce envelope _ s))
      ]

  handle_failure-completed :
      (e f : Uuid) (r : Bool) (s : State)
      → is_completed f (handle_failure codec tracker policy e r s).0 ≡ is_completed f s
  unfolding handle_failure
  handle_failure-completed e f false s = refl
  handle_failure-completed e f true s = ground (arith, completed-increment e f s)

  settle-completed :
      (f : Uuid) (envelope : Event codec tracker policy) (r : Raises (Unit {0})) (s : State)
      → is_completed f s ≡ true
      → is_completed f (settle codec tracker policy envelope r s).0 ≡ true
  unfolding settle
  settle-completed f envelope (returned _) s h =
      ground (arith, completed-mark envelope.event_id f s)
  settle-completed f envelope (raised x) s h =
      handle_failure-completed envelope.event_id f (retryable x) s ∙ h

  process-completed :
      (f : Uuid) (attempt : Attempt codec.Json) (message : Option (Event codec tracker policy))
      (s : State)
      → is_completed f s ≡ true
      → is_completed f (process codec tracker policy attempt message s).0 ≡ true
  unfolding process
  process-completed f attempt none s h = h
  process-completed f attempt (some envelope) s h =
      elim (Bool-cases (is_completed envelope.event_id s)) [
        | inl done ↦ rw done h
        | inr new ↦ rw new (settle-completed f envelope _ s h)
      ]

  -- The deliveries of a queue, one after the other.
  unfoldable pub process_all :
      List (Attempt codec.Json × Option (Event codec tracker policy)) → State → State
  process_all [] s = s
  process_all ((attempt, message) ∷ rest) s =
      process_all rest (process codec tracker policy attempt message s).0

  process_all-completed :
      (f : Uuid) (deliveries : List (Attempt codec.Json × Option (Event codec tracker policy)))
      (s : State)
      → is_completed f s ≡ true
      → is_completed f (process_all deliveries s) ≡ true
  unfolding process_all
  process_all-completed f [] s h = h
  process_all-completed f ((attempt, message) ∷ rest) s h =
      process_all-completed f rest _ (process-completed f attempt message s h)

  completed_is_acked :
      (attempt : Attempt codec.Json) (envelope : Event codec tracker policy) (s : State)
      → is_completed envelope.event_id s ≡ true
      → process codec tracker policy attempt (some envelope) s ≡ (s, acked ∷ [])
  unfolding process
  completed_is_acked attempt envelope s h = rw h refl

  settle-marks :
      (envelope : Event codec tracker policy) (s : State)
      → is_completed envelope.event_id (settle codec tracker policy envelope (returned tt) s).0
        ≡ true
  unfolding settle
  settle-marks envelope s = ground (
    arith,
    completed-mark envelope.event_id envelope.event_id s,
    (nat_beq_iff envelope.event_id envelope.event_id).1 refl,
  )

  process-marks :
      (attempt : Attempt codec.Json) (envelope : Event codec tracker policy) (s : State)
      → (run_command codec tracker policy attempt envelope (command_from_event codec envelope)).0
        ≡ returned tt
      → is_completed envelope.event_id (process codec tracker policy attempt (some envelope) s).0
        ≡ true
  unfolding process
  process-marks attempt envelope s ran = elim (Bool-cases (is_completed envelope.event_id s)) [
    | inl done ↦ rw done done
    | inr new ↦ rw (new, ran) (settle-marks envelope s)
  ]

  -- Once a delivery that ran the command has returned, any later delivery of an event with the same
  -- id only acknowledges: the workflow does not run, nothing is published, the tracker does not
  -- change. This holds after any deliveries of any messages in between.
  pub redelivery_is_acked :
      (attempt : Attempt codec.Json) (envelope : Event codec tracker policy) (s : State)
      (between : List (Attempt codec.Json × Option (Event codec tracker policy)))
      (later : Attempt codec.Json) (again : Event codec tracker policy)
      → (run_command codec tracker policy attempt envelope (command_from_event codec envelope)).0
        ≡ returned tt
      → again.event_id ≡ envelope.event_id
      → let s' = process_all between (process codec tracker policy attempt (some envelope) s).0 in
        process codec tracker policy later (some again) s' ≡ (s', acked ∷ [])
  redelivery_is_acked attempt envelope s between later again ran same =
      completed_is_acked later again _ (
        rw same (
          process_all-completed envelope.event_id between _ (process-marks attempt envelope s ran)))
