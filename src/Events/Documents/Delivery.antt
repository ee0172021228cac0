-- ===== src/Events/Documents/Delivery.antt =====
-- How the two document consumers settle their messages.
use be25_fin_thanos_meetbowl.Prelude.{
  ℕ, ◌≡◌, refl, sym, inl, inr, false, some, [], ◌∷◌, ◌++◌, arith, nat_beq_iff, Bool-cases, nat_eq,
  list_eq, option_eq, pair_eq,
}
use be25_fin_thanos_meetbowl.Text.{Text}
use be25_fin_thanos_meetbowl.Errors.{Raises, returned, raised, ai, other}
use be25_fin_thanos_meetbowl.Schemas.{Uuid}
use be25_fin_thanos_meetbowl.Schemas.Indexing.{IndexDocumentCommand, DocumentIndexingResult}
use be25_fin_thanos_meetbowl.Schemas.Events.{EventEnvelope}
use be25_fin_thanos_meetbowl.Events.Tracker.{Tracker}
use be25_fin_thanos_meetbowl.Events.Effect.{executed, SettlesOnce, is_acked}
use be25_fin_thanos_meetbowl.Events.Mapper.{
  Codec, index_command_from_event, removed_document_id_from_event,
}
use be25_fin_thanos_meetbowl.Events.Documents.{
  Log, run_index, settle_index, process_index, run_removal, settle_removal, process_removal,
}

module _ (codec : Codec) (tracker : Tracker) (max_retries : ℕ) where
  open tracker use {
    State, is_completed, mark_completed, increment_retry, completed-mark, completed-increment,
  }

  -- The message is settled once, at the end, and it is acknowledged exactly if its event is completed.
  abbrev pub IsSettled : Uuid → State × Log → Type 0
  IsSettled e outcome = SettlesOnce outcome.1 × (is_acked outcome.1 ≡ is_completed e outcome.0)

  settle_index-IsSettled :
      (e : Uuid) (r : Raises DocumentIndexingResult) (s : State)
      → is_completed e s ≡ false
      → IsSettled e (settle_index codec tracker max_retries e r s)
  unfolding settle_index
  settle_index-IsSettled e (returned r) s h =
      (refl, ground (arith, completed-mark e e s, (nat_beq_iff e e).1 refl))
  settle_index-IsSettled e (raised x) s h =
      (ground (arith, completed-increment e e s), ground (arith, completed-increment e e s))

  settle_removal-IsSettled :
      (e : Uuid) (r : Raises (Unit {0})) (s : State)
      → is_completed e s ≡ false
      → IsSettled e (settle_removal codec tracker max_retries e r s)
  unfolding settle_removal
  settle_removal-IsSettled e (returned _) s h =
      (refl, ground (arith, completed-mark e e s, (nat_beq_iff e e).1 refl))
  settle_removal-IsSettled e (raised (ai error)) s h = (refl, sym h)
  settle_removal-IsSettled e (raised (other name)) s h =
      (ground (arith, completed-increment e e s), ground (arith, completed-increment e e s))

  IsSettled-executed :
      (e : Uuid) (s : State) (effects : Log)
      → IsSettled e (s, effects)
      → IsSettled e (s, executed ∷ effects)
  IsSettled-executed e s [] h = absurd h.0
  IsSettled-executed e s (a ∷ effects) h = ((refl, h.0), h.1)

  run_index-IsSettled :
      (e : Uuid) (execute : IndexDocumentCommand → Raises DocumentIndexingResult)
      (c : Raises IndexDocumentCommand) (s : State) (after : Log)
      → IsSettled e (s, after)
      → IsSettled e (s, (run_index codec tracker max_retries execute c).1 ++ after)
  unfolding run_index
  run_index-IsSettled e execute (raised x) s after h = h
  run_index-IsSettled e execute (returned c) s after h = IsSettled-executed e s after h

  run_removal-IsSettled :
      (e : Uuid) (remove_document : Text → Raises (Unit {0})) (c : Raises Text) (s : State)
      (after : Log)
      → IsSettled e (s, after)
      → IsSettled e (s, (run_removal codec tracker max_retries remove_document c).1 ++ after)
  unfolding run_removal
  run_removal-IsSettled e remove_document (raised x) s after h = h
  run_removal-IsSettled e remove_document (returned c) s after h = IsSettled-executed e s after h

  process_index-IsSettled :
      (execute : IndexDocumentCommand → Raises DocumentIndexingResult)
      (envelope : EventEnvelope codec.Json) (s : State)
      → IsSettled envelope.event_id
          (process_index codec tracker max_retries execute (some envelope) s)
  unfolding process_index
  process_index-IsSettled execute envelope s =
      elim (Bool-cases (is_completed envelope.event_id s)) [
        | inl done ↦ rw done (refl, sym done)
        | inr new ↦ rw new (
            run_index-IsSettled envelope.event_id execute (index_command_from_event codec envelope)
              _ _ (settle_index-IsSettled envelope.event_id _ s new))
      ]

  process_removal-IsSettled :
      (remove_document : Text → Raises (Unit {0})) (envelope : EventEnvelope codec.Json) (s : State)
      → IsSettled envelope.event_id
          (process_removal codec tracker max_retries remove_document (some envelope) s)
  unfolding process_removal
  process_removal-IsSettled remove_document envelope s =
      elim (Bool-cases (is_completed envelope.event_id s)) [
        | inl done ↦ rw done (refl, sym done)
        | inr new ↦ rw new (
            run_removal-IsSettled envelope.event_id remove_document
              (removed_document_id_from_event codec envelope) _ _
              (settle_removal-IsSettled envelope.event_id _ s new))
      ]

  -- One delivery of an index request, and one of a removal, acknowledges or rejects the message exactly
  -- once, as its last effect, and acknowledges it exactly if the event is completed afterwards.
  pub process_documents-IsSettled :
      (execute : IndexDocumentCommand → Raises DocumentIndexingResult)
      (remove_document : Text → Raises (Unit {0})) (envelope : EventEnvelope codec.Json) (s : State)
      → IsSettled envelope.event_id
          (process_index codec tracker max_retries execute (some envelope) s)
        × IsSettled envelope.event_id
            (process_removal codec tracker max_retries remove_document (some envelope) s)
  process_documents-IsSettled execute remove_document envelope s = (
    process_index-IsSettled execute envelope s,
    process_removal-IsSettled remove_document envelope s,
  )
