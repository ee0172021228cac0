-- ===== src/Tests/Rag.antt =====
-- The vector store with a server that answers every request, and removals while it is down.
use be25_fin_thanos_meetbowl.Prelude.{
  ◌↔◌, ℕ, ◌+◌, ◌≡◌, refl, true, false, none, some, [], ◌∷◌, arith, null, nat_eq, list_eq, option_eq,
  pair_eq,
}
use be25_fin_thanos_meetbowl.Errors.{returned, raised, ai, AiError}
use be25_fin_thanos_meetbowl.Rag.VectorStore.{
  Response, Client, Store, ReplaceDocumentRequest, replace_document, ensure_collection,
  delete_document,
}
use be25_fin_thanos_meetbowl.Rag.VectorStore.Replace.{replace_returned, replace_mismatch}
use be25_fin_thanos_meetbowl.Schemas.Events.{EventEnvelope}
use be25_fin_thanos_meetbowl.Events.Tracker.{fresh, in_memory, is_completed}
use be25_fin_thanos_meetbowl.Events.Mapper.{removed_document_id_from_event, document_index_removed}
use be25_fin_thanos_meetbowl.Events.Effect.{executed, rejected}
use be25_fin_thanos_meetbowl.Events.Documents.{process_removal}
use be25_fin_thanos_meetbowl.Events.Documents.Outage.{removal_outage}
use be25_fin_thanos_meetbowl.Rag.VectorStore.Delete.{delete_document_lem}
use be25_fin_thanos_meetbowl.Tests.Events.{codec, envelope}

-- The server counts the requests, and has a collection of dimension 3.
abbrev server : ℕ → Client
server status = record {
  State = ℕ;
  send = λ request n. (some (record { status_code = status; dense_size = some 3 }), n + 1);
}

abbrev store : Store (server 200)
store = record { ensured_dimensions = none; client = 0 }

abbrev document : ℕ → ReplaceDocumentRequest
document size = record { document_id = 1 ∷ []; vector_size = size; points = (2 ∷ []) ∷ [] }

abbrev down : Store (server 503)
down = record { ensured_dimensions = some 3; client = 0 }

replace_mismatch_example :
    (error : AiError) × (replace_document (server 200) (document 4) store
      ≡ (raised (ai error), record store { client = 1 }))
    × (error.retryable ≡ false)
replace_mismatch_example =
    replace_mismatch (server 200) (document 4) store
      (record { status_code = 200; dense_size = some 3 }) 3 refl (λ h. cc) refl refl refl
      (λ h. omega (arith, h))

abbrev replaced : Store (server 200)
replaced = record { ensured_dimensions = some 3; client = 7 }

replace_returned_example :
    (null (document 3).points ≡ false)
    × (s₁ : Store (server 200)) × (ensure_collection (server 200) 3 store ≡ (returned tt, s₁))
    × (s₁.ensured_dimensions ≡ some 3)
    × (deleted : Response) × (some (record { status_code = 200; dense_size = some 3 })
        ≡ some deleted)
    × (deleted.status_code ≡ 200)
    × (written : Response) × (some (record { status_code = 200; dense_size = some 3 })
        ≡ some written)
    × (written.status_code ≡ 200)
    × (replaced ≡ record s₁ { client = s₁.client + 1 + 1 })
unfolding replace_document
replace_returned_example = replace_returned (server 200) (document 3) store replaced refl

-- An event that removes document 7.
abbrev removal : EventEnvelope ℕ
removal = envelope document_index_removed

removal_outage_example :
    (error : AiError) × ((delete_document (server 503) (7 ∷ []) down).0 ≡ raised (ai error))
    × (error.retryable ≡ true)
    × (process_removal codec in_memory 3
          (λ id. (delete_document (server 503) id down).0)
          (some removal)
          fresh
        ≡ (fresh, executed ∷ rejected false ∷ []))
unfolding removed_document_id_from_event is_completed
removal_outage_example =
    removal_outage codec in_memory 3 (server 503) down removal fresh (7 ∷ []) refl refl
      (omega arith)

-- A server that is down makes the deletion fail.
delete_document_lem_example :
    (((delete_document (server 503) (7 ∷ []) down).0 ≡ returned tt) ↔ (
      (response : Response) × (some (record { status_code = 503; dense_size = some 3 })
        ≡ some response)
      × (response.status_code ≡ 200)))
    × ((delete_document (server 503) (7 ∷ []) down).1 ≡ record down { client = 1 })
delete_document_lem_example = delete_document_lem (server 503) (7 ∷ []) down
