-- ===== src/Rag/VectorStore/Delete.antt =====
-- When the deletion of a document's points succeeds.
use be25_fin_thanos_meetbowl.Prelude.{◌≡◌, ◌↔◌, some, arith}
use be25_fin_thanos_meetbowl.Text.{Text}
use be25_fin_thanos_meetbowl.Errors.{returned}
use be25_fin_thanos_meetbowl.Rag.VectorStore.{
  delete_points, Response, Client, Store, delete_document,
}

module _ (http : Client) where
  open http use {send}

  -- A deletion sends one request, and it succeeds exactly if the server answers 200; so it fails if the
  -- collection does not exist and the server answers 404. The state that remains is the client's after
  -- the request.
  pub delete_document_lem :
      (document_id : Text) (s : Store http)
      → (((delete_document http document_id s).0 ≡ returned tt) ↔ (
          (response : Response) × ((send (delete_points document_id) s.client).0 ≡ some response)
          × (response.status_code ≡ 200)))
        × ((delete_document http document_id s).1
            ≡ record s { client = (send (delete_points document_id) s.client).1 })
  unfolding delete_document
  delete_document_lem document_id s = ((ground arith, ground arith), ground arith)
