-- ===== src/Events/Documents/Outage.antt =====
-- A removal that fails because the vector store is out of order.
use be25_fin_thanos_meetbowl.Prelude.{
  ℕ, ◌≤◌, ◌≡◌, refl, true, false, Option, none, some, [], ◌∷◌, arith, nat_eq, list_eq, option_eq,
  pair_eq,
}
use be25_fin_thanos_meetbowl.Text.{Text, codes}
use be25_fin_thanos_meetbowl.Errors.{AiError, returned, raised, ai, document_index_failed_error}
use be25_fin_thanos_meetbowl.Schemas.Events.{EventEnvelope}
use be25_fin_thanos_meetbowl.Events.Tracker.{Tracker}
use be25_fin_thanos_meetbowl.Events.Effect.{executed, rejected}
use be25_fin_thanos_meetbowl.Events.Mapper.{Codec, removed_document_id_from_event}
use be25_fin_thanos_meetbowl.Events.Documents.{process_removal}
use be25_fin_thanos_meetbowl.Rag.VectorStore.{
  Client, Store, delete_points, Response, checked, delete_document,
}

-- The store fails to answer, or answers with a server error.
abbrev pub IsOutage : Option Response → Type 0
IsOutage none = Unit
IsOutage (some response) = 500 ≤ response.status_code

checked_outage :
    (response : Option Response)
    → IsOutage response
    → (error : AiError) × (checked true response ≡ raised (ai error)) × (error.retryable ≡ true)
unfolding checked
checked_outage none h = (document_index_failed_error (codes "Qdrant 요청에 실패했습니다.") true, refl, refl)
checked_outage (some response) h =
    (document_index_failed_error (codes "Qdrant 서버 오류가 발생했습니다.") true, ground arith, refl)

module _ (codec : Codec) (tracker : Tracker) (max_retries : ℕ) (http : Client) where
  open tracker use {State, is_completed}

  -- If the store does not answer the delete request of a removal, or answers with a server error, the
  -- workflow raises an error that says it can be retried, and the consumer sends the message to the
  -- dead letters all the same: no retry is counted and the message does not go back to the queue.
  pub removal_outage :
      (store : Store http) (envelope : EventEnvelope codec.Json) (s : State) (document_id : Text)
      → removed_document_id_from_event codec envelope ≡ returned document_id
      → is_completed envelope.event_id s ≡ false
      → IsOutage (http.send (delete_points document_id) store.client).0
      → (error : AiError) × ((delete_document http document_id store).0 ≡ raised (ai error))
        × (error.retryable ≡ true)
        × (process_removal codec tracker max_retries
              (λ id. (delete_document http id store).0)
              (some envelope)
              s
            ≡ (s, executed ∷ rejected false ∷ []))
  unfolding process_removal delete_document
  removal_outage store envelope s document_id valid new outage =
      let (error, eq₁, again) =
        checked_outage (http.send (delete_points document_id) store.client).0 outage in
      (error, rw eq₁ refl, again, rw (new, valid, eq₁) refl)
