-- ===== src/Events/Documents.antt =====
-- app/events/rabbit.py: `DocumentIndexEventProcessor` and `DocumentIndexRemovedEventProcessor`.
pub mod Delivery
pub mod Outage
use be25_fin_thanos_meetbowl.Prelude.{
  ℕ, Bool, true, false, ◌&&◌, Option, none, some, List, [], ◌∷◌, ◌++◌, leb, if◌then◌else◌,
}
use be25_fin_thanos_meetbowl.Text.{Text}
use be25_fin_thanos_meetbowl.Errors.{Exception, Raises, returned, raised, ai, other}
use be25_fin_thanos_meetbowl.Schemas.{Uuid}
use be25_fin_thanos_meetbowl.Schemas.Indexing.{IndexDocumentCommand, DocumentIndexingResult}
use be25_fin_thanos_meetbowl.Schemas.Events.{EventEnvelope}
use be25_fin_thanos_meetbowl.Events.Tracker.{Tracker}
use be25_fin_thanos_meetbowl.Events.Effect.{Effect, executed, acked, rejected}
use be25_fin_thanos_meetbowl.Events.Mapper.{
  Codec, index_command_from_event, removed_document_id_from_event,
}

-- These consumers publish no event.
abbrev pub Log : Type 0
Log = List (Effect (Unit {0}))

unfoldable pub retryable : Exception → Bool
retryable (ai error) = error.retryable
retryable (other name) = true

module _ (codec : Codec) (tracker : Tracker) (max_retries : ℕ) where
  open codec use {Json}
  open tracker use {State, is_completed, mark_completed, increment_retry}

  -- `retry_count` is 0 for an error that is not retried.
  unfoldable pub handle_failure : Uuid → Bool → State → State × Log
  handle_failure event_id again s =
      let (retry_count, s') : ℕ × State = if again then increment_retry event_id s else (0, s) in
      let requeue = again && leb retry_count max_retries in (s', rejected requeue ∷ [])

  unfoldable pub run_index :
      (IndexDocumentCommand → Raises DocumentIndexingResult)
      → Raises IndexDocumentCommand
      → Raises DocumentIndexingResult × Log
  run_index execute (raised x) = (raised x, [])
  run_index execute (returned command) = (execute command, executed ∷ [])

  unfoldable pub settle_index : Uuid → Raises DocumentIndexingResult → State → State × Log
  unfolding handle_failure retryable
  settle_index event_id (returned _) s = (mark_completed event_id s, acked ∷ [])
  settle_index event_id (raised x) s = handle_failure event_id (retryable x) s

  -- `DocumentIndexEventProcessor.process`
  unfoldable pub process_index :
      (IndexDocumentCommand → Raises DocumentIndexingResult)
      → Option (EventEnvelope Json)
      → State
      → State × Log
  unfolding run_index settle_index
  process_index execute none s = (s, rejected false ∷ [])
  process_index execute (some envelope) s =
      if is_completed envelope.event_id s
      then (s, acked ∷ [])
      else let (result, before) = run_index execute (index_command_from_event codec envelope) in
        let (s', after) = settle_index envelope.event_id result s in (s', before ++ after)

  unfoldable pub run_removal : (Text → Raises (Unit {0})) → Raises Text → Raises (Unit {0}) × Log
  run_removal remove_document (raised x) = (raised x, [])
  run_removal remove_document (returned document_id) = (remove_document document_id, executed ∷ [])

  -- An `AiError` goes to the dead letters, any other exception is retried.
  unfoldable pub settle_removal : Uuid → Raises (Unit {0}) → State → State × Log
  settle_removal event_id (returned _) s = (mark_completed event_id s, acked ∷ [])
  settle_removal event_id (raised (ai error)) s = (s, rejected false ∷ [])
  settle_removal event_id (raised (other name)) s =
      let (retry_count, s') = increment_retry event_id s in
      if leb retry_count max_retries then (s', rejected true ∷ []) else (s', rejected false ∷ [])

  -- `DocumentIndexRemovedEventProcessor.process`
  unfoldable pub process_removal :
      (Text → Raises (Unit {0})) → Option (EventEnvelope Json) → State → State × Log
  unfolding run_removal settle_removal
  process_removal remove_document none s = (s, rejected false ∷ [])
  process_removal remove_document (some envelope) s =
      if is_completed envelope.event_id s
      then (s, acked ∷ [])
      else let (result, before) =
          run_removal remove_document (removed_document_id_from_event codec envelope) in
        let (s', after) = settle_removal envelope.event_id result s in (s', before ++ after)
