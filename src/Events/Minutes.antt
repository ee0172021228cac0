-- ===== src/Events/Minutes.antt =====
-- app/events/rabbit.py: `MinutesEventProcessor`.
pub mod Delivery
pub mod Delay
pub mod Retries
use be25_fin_thanos_meetbowl.Prelude.{
  ℕ, ◌-◌, ◌*◌, ◌^◌, Bool, true, false, Option, none, some, List, [], ◌∷◌, ◌++◌, ltb, min,
  if◌then◌else◌,
}
use be25_fin_thanos_meetbowl.Errors.{Exception, Raises, returned, raised, ai, other}
use be25_fin_thanos_meetbowl.Schemas.{Uuid, Moment}
use be25_fin_thanos_meetbowl.Schemas.Minutes.{MinutesGenerationCommand, MinutesGenerationResult}
use be25_fin_thanos_meetbowl.Schemas.Events.{EventEnvelope}
use be25_fin_thanos_meetbowl.Events.Tracker.{Tracker}
use be25_fin_thanos_meetbowl.Events.Effect.{Effect, executed, published, slept, acked, rejected}
use be25_fin_thanos_meetbowl.Events.Mapper.{Codec, command_from_event, generated_event}

-- The settings; delays are in milliseconds.
pub record RetryPolicy : Type 0 where
  pub max_retries : ℕ
  pub retry_delay_base : ℕ
  pub retry_delay_max : ℕ

-- `max(retry_count - 1, 0)` is the truncated difference.
unfoldable pub retry_delay : RetryPolicy → ℕ → ℕ
retry_delay policy retry_count =
    min (policy.retry_delay_base * 2 ^ (retry_count - 1)) policy.retry_delay_max

-- How the workflow and the publisher behave during one delivery; they may differ at the next.
pub record Attempt (Json : Type 0) : Type 0 where
  pub execute : MinutesGenerationCommand → Raises MinutesGenerationResult
  pub publish : EventEnvelope Json → Raises (Unit {0})
  pub now : Moment

-- An `AiError` says itself whether it can be retried; any other exception can.
unfoldable pub retryable : Exception → Bool
retryable (ai error) = error.retryable
retryable (other name) = true

module _ (codec : Codec) (tracker : Tracker) (policy : RetryPolicy) where
  open codec use {Json}
  open tracker use {State, is_completed, mark_completed, increment_retry}

  abbrev pub Event : Type 0
  Event = EventEnvelope Json

  unfoldable pub handle_failure : Uuid → Bool → State → State × List (Effect Event)
  unfolding retry_delay
  handle_failure event_id false s = (s, rejected false ∷ [])
  handle_failure event_id true s =
      let (retry_count, s') = increment_retry event_id s in
      if ltb policy.max_retries retry_count
      then (s', rejected false ∷ [])
      else (s', slept (retry_delay policy retry_count) ∷ rejected true ∷ [])

  -- The calls of the `try` block after the command: the effects, and whether one raised.
  unfoldable pub publish_result :
      Attempt Json
      → Event
      → Raises MinutesGenerationResult
      → Raises (Unit {0}) × List (Effect Event)
  publish_result attempt envelope (raised x) = (raised x, executed ∷ [])
  publish_result attempt envelope (returned result) =
      let event =
        generated_event codec attempt.now result envelope.correlation_id envelope.event_id in
      (attempt.publish event, executed ∷ published event ∷ [])

  unfoldable pub run_command :
      Attempt Json
      → Event
      → Raises MinutesGenerationCommand
      → Raises (Unit {0}) × List (Effect Event)
  unfolding publish_result
  run_command attempt envelope (raised x) = (raised x, [])
  run_command attempt envelope (returned command) =
      publish_result attempt envelope (attempt.execute command)

  -- What follows the `try` block, in the two `except` clauses and after them.
  unfoldable pub settle : Event → Raises (Unit {0}) → State → State × List (Effect Event)
  unfolding handle_failure retryable
  settle envelope (returned _) s = (mark_completed envelope.event_id s, acked ∷ [])
  settle envelope (raised x) s = handle_failure envelope.event_id (retryable x) s

  -- A message is given by what `EventEnvelope.model_validate_json` makes of its body.
  unfoldable pub process : Attempt Json → Option Event → State → State × List (Effect Event)
  unfolding run_command settle
  process attempt none s = (s, rejected false ∷ [])
  process attempt (some envelope) s =
      if is_completed envelope.event_id s
      then (s, acked ∷ [])
      else let (result, before) =
          run_command attempt envelope (command_from_event codec envelope) in
        let (s', after) = settle envelope result s in (s', before ++ after)
