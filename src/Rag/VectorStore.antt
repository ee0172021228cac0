-- ===== src/Rag/VectorStore.antt =====
-- app/rag/qdrant_vector_store.py: `QdrantVectorStore`. The HTTP client with the Qdrant server behind it
-- is a parameter; `none` is an `httpx.HTTPError`.
pub mod Replace
pub mod Delete
use be25_fin_thanos_meetbowl.Prelude.{
  ◌++◌, ℕ, Bool, true, false, not, ◌&&◌, ◌||◌, Option, none, some, List, [], ◌∷◌, leb, nat_beq,
  if◌then◌else◌, ◌==◌, nat_eq, list_eq, option_eq, pair_eq, null,
}
use be25_fin_thanos_meetbowl.Text.{Text, codes, decimal}
use be25_fin_thanos_meetbowl.Errors.{Raises, returned, raised, ai, document_index_failed_error}

pub data Request : Type 0 where
  get_collection : Request
  create_collection : ℕ → Request
  create_index : Text → Request
  delete_points : Text → Request
  -- the document, and the ids of the points that are written
  upsert_points : Text → List Text → Request

-- `dense_size` is what the chain of `.get` finds in the body of a collection.
pub record Response : Type 0 where
  pub status_code : ℕ
  pub dense_size : Option ℕ

pub record Client : Type 1 where
  pub State : Type 0
  pub send : Request → State → Option Response × State

pub record ReplaceDocumentRequest : Type 0 where
  pub document_id : Text
  pub vector_size : ℕ
  pub points : List Text

-- The outcome of `_request` for one response.
unfoldable pub checked : Bool → Option Response → Raises Response
checked retryable_not_found none =
    raised (ai (document_index_failed_error (codes "Qdrant 요청에 실패했습니다.") true))
checked retryable_not_found (some response) =
    if nat_beq response.status_code 404 && not retryable_not_found
    then returned response
    else if leb 500 response.status_code
    then raised (ai (document_index_failed_error (codes "Qdrant 서버 오류가 발생했습니다.") true))
    else if leb 400 response.status_code && not (nat_beq response.status_code 404)
    then raised (
        ai (
          document_index_failed_error
            (codes "Qdrant 요청이 실패했습니다. status=" ++ decimal response.status_code) false))
    else returned response

-- `_FILTERED_PAYLOAD_FIELDS`
abbrev pub filtered_payload_fields : List Text
filtered_payload_fields =
    codes "ownerUserId" ∷ codes "workspaceId" ∷ codes "sharedWorkspaceIds" ∷ codes "sourceType" ∷ []

module _ (http : Client) where
  open http use {State, send}

  pub record Store : Type 0 where
    pub ensured_dimensions : Option ℕ
    pub client : State

  abbrev pub M {ℓ} : Type ℓ → Type ℓ
  M A = Store → Raises A × Store

  abbrev pub next {ℓ κ} :
      {A : Type ℓ} {B : Type κ}
      → Raises A × Store
      → (A → Store → Raises B × Store)
      → Raises B × Store
  next (returned a, s) f = f a s
  next (raised x, s) f = (raised x, s)

  unfoldable pub request : Request → Bool → Store → Raises Response × Store
  unfolding checked
  request r retryable_not_found s =
      let (response, client) = send r s.client in
      (checked retryable_not_found response, record s { client = client })

  unfoldable pub ensure_payload_indexes : List Text → Store → Raises (Unit {0}) × Store
  unfolding request
  ensure_payload_indexes [] s = (returned tt, s)
  ensure_payload_indexes (field ∷ fields) s =
      next (request (create_index field) true s) (λ _ s'. ensure_payload_indexes fields s')

  -- `response.status_code not in (200, 201)`
  unfoldable pub created : Response → Raises (Unit {0})
  created response =
      if nat_beq response.status_code 200 || nat_beq response.status_code 201
      then returned tt
      else raised (ai (document_index_failed_error (codes "Qdrant collection 생성에 실패했습니다.") true))

  unfoldable pub same_dimension : ℕ → Option ℕ → Raises (Unit {0})
  same_dimension size none = returned tt
  same_dimension size (some current) =
      if nat_beq current size
      then returned tt
      else raised (
          ai (
            document_index_failed_error (codes "Qdrant collection vector dimension이 현재 설정과 다릅니다.")
              false))

  unfoldable pub create_or_check : ℕ → Response → Store → Raises (Unit {0}) × Store
  unfolding request created same_dimension
  create_or_check size response s =
      if nat_beq response.status_code 404
      then next (request (create_collection size) true s) (λ r s'. (created r, s'))
      else (same_dimension size response.dense_size, s)

  unfoldable pub ensure_collection : ℕ → Store → Raises (Unit {0}) × Store
  unfolding request create_or_check ensure_payload_indexes
  ensure_collection size s =
      if s.ensured_dimensions == some size
      then (returned tt, s)
      else next (request get_collection false s) λ response s₁.
        next (create_or_check size response s₁) λ _ s₂.
          next (ensure_payload_indexes filtered_payload_fields s₂)
            λ _ s₃. (returned tt, record s₃ { ensured_dimensions = some size })

  unfoldable pub delete_document_points : Text → Store → Raises (Unit {0}) × Store
  unfolding request
  delete_document_points document_id s =
      next (request (delete_points document_id) true s) λ response s'. (
        if nat_beq response.status_code 200
            then returned tt
            else raised (ai (document_index_failed_error (codes "기존 문서 벡터 삭제에 실패했습니다.") true)),
        s',
      )

  unfoldable pub upsert_document_points : ReplaceDocumentRequest → Store → Raises (Unit {0}) × Store
  unfolding request
  upsert_document_points r s =
      next (request (upsert_points r.document_id r.points) true s) λ response s'. (
        if nat_beq response.status_code 200
            then returned tt
            else raised (ai (document_index_failed_error (codes "문서 벡터 저장에 실패했습니다.") true)),
        s',
      )

  unfoldable pub delete_document : Text → Store → Raises (Unit {0}) × Store
  unfolding delete_document_points
  delete_document document_id s = delete_document_points document_id s

  unfoldable pub replace_document : ReplaceDocumentRequest → Store → Raises (Unit {0}) × Store
  unfolding ensure_collection delete_document_points upsert_document_points
  replace_document r s =
      if null r.points
      then (raised (ai (document_index_failed_error (codes "저장할 벡터 포인트가 없습니다.") false)), s)
      else next (ensure_collection r.vector_size s)
          λ _ s₁. next (delete_document_points r.document_id s₁) λ _ s₂. upsert_document_points r s₂
