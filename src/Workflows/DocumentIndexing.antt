-- ===== src/Workflows/DocumentIndexing.antt =====
-- app/workflows/document_indexing.py: `DocumentIndexingWorkflow`. The ports, `str(UUID)`, `uuid5` and
-- `datetime.isoformat` are parameters.
pub mod Points
pub mod Found
use mathlib.Core.Option
use be25_fin_thanos_meetbowl.Prelude.{
  ℕ, zero, suc, ◌+◌, ◌-◌, ◌*◌, ◌/◌, ◌%◌, ◌^◌, ◌≤◌, ◌<◌, min, max, ◌≡◌, refl, sym, ap, ◌∙◌, ◌≢◌, ◌↔◌,
  ◌⊎◌, inl, inr, Bool, true, false, not, ◌&&◌, ◌||◌, Option, none, some, List, [], ◌∷◌, ◌++◌, map,
  append-nil, append_assoc, arith, ltb, leb, nat_beq, if◌then◌else◌, ltb→lt, lt→ltb, leb→le, le→leb,
  not-ltb→le, not-leb→lt, nat_beq_iff, tests, Bool-cases, Option-cases, is_none, Bool-ext, Eq, ◌==◌,
  nat_eq, list_eq, option_eq, pair_eq, contains, Distinct, beq_refl, beq_sound, beq_comm,
  contains-append, Distinct-snoc, list_beq_iff, length, get_elem?, set, take, drop, null, select,
  all, All, length-append, length-take, length-drop, take-append-drop, length-select-le, All-append,
  All-take, length-map,
}
use be25_fin_thanos_meetbowl.Text.{Text, codes, strip, decimal, is_infix, join, split_on}
use be25_fin_thanos_meetbowl.Errors.{
  Raises, returned, raised, ai, ai_error, at_stage, ◌>>=◌, AiError,
}
use be25_fin_thanos_meetbowl.Schemas.{Uuid, Moment}
use be25_fin_thanos_meetbowl.Schemas.Indexing.{
  AccessScope, is_empty, DocumentMetadata, IndexDocumentCommand, DocumentChunk,
  DocumentIndexingResult,
}
use be25_fin_thanos_meetbowl.Pipelines.Chunking.{split_document_into_chunks}

-- The payload of a point, a field per key.
pub record Payload : Type 0 where
  pub source_type : Text
  pub source_id : Text
  pub chunk_index : ℕ
  pub chunk_strategy_version : Text
  pub title : Text
  pub content : Text
  pub organization_id : Option Text
  pub owner_user_id : Text
  pub allowed_user_ids : List Text
  pub allowed_department_ids : List Text
  pub shared_workspace_ids : List Text
  pub metadata : DocumentMetadata
  pub created_at : Text

pub record VectorPoint (Vector : Type 0) : Type 0 where
  pub point_id : Text
  pub vector : Vector
  pub payload : Payload

pub record EmbeddingResult (Vector : Type 0) : Type 0 where
  pub embeddings : List Vector
  pub dimensions : ℕ
  pub model_name : Text

-- A request to replace a document, with the points that are written.
pub record ReplaceRequest (Vector : Type 0) : Type 0 where
  pub document_id : Text
  pub vector_size : ℕ
  pub points : List (VectorPoint Vector)

-- What the workflow is built with, `none` for a missing storage or extractor.
pub record Ports : Type 1 where
  pub Vector : Type 0
  pub Bytes : Type 0
  pub embed : List Text → Raises (EmbeddingResult Vector)
  pub replace_document : ReplaceRequest Vector → Raises (Unit {0})
  pub delete_document : Text → Raises (Unit {0})
  pub download : Option (Text → Raises Bytes)
  pub extract : Option (Bytes → Text → Text → Raises Text)
  pub chunk_size : ℕ
  pub chunk_overlap : ℕ
  pub chunk_strategy_version : Text
  pub uuid_text : Uuid → Text
  pub uuid5 : Text → Text
  pub isoformat : Moment → Text

unfoldable pub chat_source_type : Text → Text
chat_source_type document_type =
    if document_type == codes "MEETING_MINUTES" then codes "MINUTES" else document_type

-- `text.replace(old, new)`, by splitting at the old text.
abbrev pub replace_text : Text → Text → Text → Text
replace_text old new text = join new (split_on old text)

abbrev pub text_of_file : Option Text → Text
text_of_file none = []
text_of_file (some t) = t

abbrev not_configured : AiError
not_configured =
    ai_error (codes "AI_DOCUMENT_INDEX_FAILED") (codes "파일 색인을 위한 저장소/추출기가 구성되지 않았습니다.")

abbrev invalid_event : Text → AiError
invalid_event message = record (ai_error (codes "AI_INVALID_EVENT") message) { status_code = 400 }

abbrev access_denied : AiError
access_denied = record (ai_error (codes "AI_RAG_ACCESS_DENIED") (codes "색인 가능한 열람 범위가 비어 있습니다.")) {
  status_code = 403;
}

abbrev wrong_count : AiError
wrong_count =
    record (ai_error (codes "AI_DOCUMENT_INDEX_FAILED") (codes "임베딩 개수가 문서 chunk 개수와 일치하지 않습니다.")) {
      retryable = true;
      status_code = 503;
    }

module _ (ports : Ports) where
  open ports use {Vector, Bytes, embed, download, extract, uuid_text, uuid5, isoformat}

  unfoldable pub remove_document : Text → Raises (Unit {0})
  remove_document document_id = ports.delete_document document_id

  -- The text of a stored file.
  unfoldable pub file_text :
      IndexDocumentCommand
      → Text
      → Option (Text → Raises Bytes)
      → Option (Bytes → Text → Text → Raises Text)
      → Raises Text
  file_text command storage_key (some fetch) (some read) = do
    content ← at_stage (codes "s3_download") (fetch storage_key)
    text ←
        at_stage (codes "text_extraction")
          (read content (text_of_file command.metadata.content_type) command.title)
    returned (strip text)
  file_text command storage_key _ _ = raised (ai not_configured)

  unfoldable pub stored_text : IndexDocumentCommand → Option Text → Raises Text
  unfolding file_text
  stored_text command none = returned []
  stored_text command (some []) = returned []
  stored_text command (some (c ∷ cs)) = file_text command (c ∷ cs) download extract

  unfoldable pub resolve_content : IndexDocumentCommand → Raises Text
  unfolding stored_text
  resolve_content command =
      if null (strip (text_of_file command.content))
      then stored_text command command.metadata.storage_key
      else returned (strip (text_of_file command.content))

  unfoldable pub point_id : IndexDocumentCommand → DocumentChunk → Text
  point_id command chunk = uuid5 (
      uuid_text command.document_id
      ++ codes ":"
      ++ decimal chunk.chunk_index
      ++ codes ":"
      ++ ports.chunk_strategy_version)

  unfoldable pub payload_of : IndexDocumentCommand → DocumentChunk → Payload
  unfolding chat_source_type
  payload_of command chunk = record {
    source_type = chat_source_type command.document_type;
    source_id = uuid_text command.document_id;
    chunk_index = chunk.chunk_index;
    chunk_strategy_version = ports.chunk_strategy_version;
    title = command.title;
    content = chunk.content;
    organization_id = Option.map uuid_text command.organization_id;
    owner_user_id = uuid_text command.owner_user_id;
    allowed_user_ids = map uuid_text command.access_scope.user_ids;
    allowed_department_ids = map uuid_text command.access_scope.department_ids;
    shared_workspace_ids = map uuid_text command.access_scope.shared_workspace_ids;
    metadata = command.metadata;
    created_at = replace_text (codes "+00:00") (codes "Z") (isoformat command.created_at);
  }

  unfoldable pub point_of : IndexDocumentCommand → DocumentChunk → Vector → VectorPoint Vector
  unfolding point_id payload_of
  point_of command chunk vector = record {
    point_id = point_id command chunk;
    vector = vector;
    payload = payload_of command chunk;
  }

  -- The list over `zip(chunks, embeddings, strict=True)`, which is reached with lists of one length.
  unfoldable pub points_of :
      IndexDocumentCommand → List DocumentChunk → List Vector → List (VectorPoint Vector)
  unfolding point_of
  points_of command (chunk ∷ chunks) (vector ∷ vectors) =
      point_of command chunk vector ∷ points_of command chunks vectors
  points_of command _ _ = []

  -- From the embeddings on.
  unfoldable pub store_points :
      Moment
      → IndexDocumentCommand
      → List DocumentChunk
      → EmbeddingResult Vector
      → Raises DocumentIndexingResult
  unfolding points_of
  store_points now command chunks result =
      if nat_beq (length result.embeddings) (length chunks)
      then at_stage (codes "qdrant") (
          ports.replace_document (record {
            document_id = uuid_text command.document_id;
            vector_size = result.dimensions;
            points = points_of command chunks result.embeddings;
          }))
        >>= (λ _. returned (record {
          document_id = command.document_id;
          document_type = command.document_type;
          chunk_count = length chunks;
          embedding_model = result.model_name;
          indexed_at = now;
        }))
      else raised (ai wrong_count)

  unfoldable pub index_chunks :
      Moment → IndexDocumentCommand → List DocumentChunk → Raises DocumentIndexingResult
  unfolding store_points
  index_chunks now command [] = raised (ai (invalid_event (codes "색인할 문서 chunk를 만들 수 없습니다.")))
  index_chunks now command (chunk ∷ chunks) =
      at_stage (codes "embedding") (embed (map (λ c. c.embedding_text) (chunk ∷ chunks)))
      >>= store_points now command (chunk ∷ chunks)

  unfoldable pub index_content :
      Moment → IndexDocumentCommand → Text → Raises DocumentIndexingResult
  unfolding split_document_into_chunks index_chunks
  index_content now command content =
      if null content
      then raised (ai (invalid_event (codes "색인할 문서 본문이 비어 있습니다.")))
      else if is_empty command.access_scope
      then raised (ai access_denied)
      else split_document_into_chunks command.title content ports.chunk_size ports.chunk_overlap
        >>= index_chunks now command

  unfoldable pub execute : Moment → IndexDocumentCommand → Raises DocumentIndexingResult
  unfolding resolve_content index_content
  execute now command = resolve_content command >>= index_content now command
