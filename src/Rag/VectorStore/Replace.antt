-- ===== src/Rag/VectorStore/Replace.antt =====
-- What a replacement of a document's points does at the store.
use be25_fin_thanos_meetbowl.Prelude.{
  ℕ, ◌≡◌, refl, ◌≢◌, inl, inr, false, some, arith, Bool-cases, Eq, ◌==◌, nat_eq, list_eq, option_eq,
  pair_eq, beq_sound, null,
}
use be25_fin_thanos_meetbowl.Text.{Text, codes}
use be25_fin_thanos_meetbowl.Errors.{
  document_index_failed_error, AiError, Raises, returned, raised, ai,
}
use be25_fin_thanos_meetbowl.Rag.VectorStore.{
  get_collection, delete_points, upsert_points, Response, Client, ReplaceDocumentRequest, Store,
  next, request, create_or_check, ensure_payload_indexes, ensure_collection, delete_document_points,
  upsert_document_points, replace_document, filtered_payload_fields,
}

different {ℓ} : {A : Type ℓ} ⦃e : Eq A⦄ (a b : A) → a ≢ b → (a == b) ≡ false
different a b h = elim (Bool-cases (a == b)) [
  | inl same ↦ absurd (h (beq_sound a b same))
  | inr other ↦ other
]

module _ (http : Client) where
  open http use {State, send}

  -- Inversion of a chain that returns.
  next-returned {ℓ κ} :
      {A : Type ℓ} {B : Type κ} (m : Raises A × Store http)
      (f : A → Store http → Raises B × Store http) {b : B} {s : Store http}
      → next http m f ≡ (returned b, s)
      → (a : A) × (s₁ : Store http) × (m ≡ (returned a, s₁)) × (f a s₁ ≡ (returned b, s))
  next-returned (returned a, s₁) f h = (a, s₁, refl, h)
  next-returned (raised x, s₁) f h = cc

  ensure_collection-returned :
      (size : ℕ) (s t : Store http)
      → ensure_collection http size s ≡ (returned tt, t)
      → t.ensured_dimensions ≡ some size
  unfolding ensure_collection
  ensure_collection-returned size s t h = elim (Bool-cases (s.ensured_dimensions == some size)) [
    | inl same ↦
        let known : s.ensured_dimensions ≡ some size =
          beq_sound s.ensured_dimensions (some size) same in
        cc (rw same at h)
    | inr other ↦
        let (response, s₁, _, h₁) =
          next-returned (request http get_collection false s) _ (rw other at h) in
        let (_, s₂, _, h₂) = next-returned (create_or_check http size response s₁) _ h₁ in
        let (_, s₃, _, h₃) =
          next-returned (ensure_payload_indexes http filtered_payload_fields s₂) _ h₂ in
        cc
  ]

  deleted_ok :
      (id : Text) (s t : Store http)
      → delete_document_points http id s ≡ (returned tt, t)
      → (response : Response) × ((send (delete_points id) s.client).0 ≡ some response)
        × (response.status_code ≡ 200)
        × (t ≡ record s { client = (send (delete_points id) s.client).1 })
  unfolding delete_document_points
  deleted_ok id s t h = ground arith

  written_ok :
      (r : ReplaceDocumentRequest) (s t : Store http)
      → upsert_document_points http r s ≡ (returned tt, t)
      → (response : Response) × ((send (upsert_points r.document_id r.points) s.client).0
          ≡ some response)
        × (response.status_code ≡ 200)
        × (t ≡ record s { client = (send (upsert_points r.document_id r.points) s.client).1 })
  unfolding upsert_document_points
  written_ok r s t h = ground arith

  -- A replacement that returns has, with a collection whose dimension is known to fit, first deleted
  -- the document's points and then written the new ones, and the server has answered 200 to both;
  -- nothing is sent after that. The new points are never empty.
  pub replace_returned :
      (r : ReplaceDocumentRequest) (s t : Store http)
      → replace_document http r s ≡ (returned tt, t)
      → (null r.points ≡ false)
        × (s₁ : Store http) × (ensure_collection http r.vector_size s ≡ (returned tt, s₁))
        × (s₁.ensured_dimensions ≡ some r.vector_size)
        × (deleted : Response) × ((send (delete_points r.document_id) s₁.client).0 ≡ some deleted)
        × (deleted.status_code ≡ 200)
        × (written : Response) × ((send
              (upsert_points r.document_id r.points)
              (send (delete_points r.document_id) s₁.client).1).0
            ≡ some written)
        × (written.status_code ≡ 200)
        × (t ≡ record s₁ {
          client =
              (send
                (upsert_points r.document_id r.points)
                (send (delete_points r.document_id) s₁.client).1).1;
        })
  unfolding replace_document
  replace_returned r s t h = elim (Bool-cases (null r.points)) [
    | inl empty ↦ cc (rw empty at h)
    | inr full ↦
        let (_, s₁, e₁, h₁) =
          next-returned (ensure_collection http r.vector_size s) _ (rw full at h) in
        let (_, s₂, e₂, h₂) = next-returned (delete_document_points http r.document_id s₁) _ h₁ in
        let (deleted, d₁, d₂, d₃) = deleted_ok r.document_id s₁ s₂ e₂ in
        let (written, w₁, w₂, w₃) = written_ok r s₂ t h₂ in
        (
          full,
          s₁,
          e₁,
          ensure_collection-returned r.vector_size s s₁ e₁,
          deleted,
          d₁,
          d₂,
          written,
          cc,
          w₂,
          cc,
        )
  ]

  get_ok :
      (s : Store http) (response : Response)
      → (send get_collection s.client).0 ≡ some response
      → response.status_code ≡ 200
      → request http get_collection false s
        ≡ (returned response, record s { client = (send get_collection s.client).1 })
  unfolding request
  get_ok s response answered ok = ground arith

  abbrev mismatch : Text
  mismatch = codes "Qdrant collection vector dimension이 현재 설정과 다릅니다."

  check_mismatch :
      (size current : ℕ) (response : Response) (s : Store http)
      → response.status_code ≡ 200
      → response.dense_size ≡ some current
      → current ≢ size
      → create_or_check http size response s
        ≡ (raised (ai (document_index_failed_error mismatch false)), s)
  unfolding create_or_check
  check_mismatch size current response s ok found differs = rw (ok, found) (ground arith)

  -- If the collection exists with another dimension, the replacement fails with an error that is not
  -- retried, and the only request that was sent is the one for the collection: nothing is deleted.
  pub replace_mismatch :
      (r : ReplaceDocumentRequest) (s : Store http) (response : Response) (size : ℕ)
      → null r.points ≡ false
      → s.ensured_dimensions ≢ some r.vector_size
      → (send get_collection s.client).0 ≡ some response
      → response.status_code ≡ 200
      → response.dense_size ≡ some size
      → size ≢ r.vector_size
      → (error : AiError) × (replace_document http r s
          ≡ (raised (ai error), record s { client = (send get_collection s.client).1 }))
        × (error.retryable ≡ false)
  unfolding replace_document
  replace_mismatch r s response size full unknown answered ok found differs = (
    document_index_failed_error mismatch false,
    rw
        (
          full,
          different (s.ensured_dimensions) (some r.vector_size) unknown,
          get_ok s response answered ok,
          check_mismatch r.vector_size size response
              (record s { client = (send get_collection s.client).1 }) ok found differs,
        )
        refl,
    refl,
  )
