-- ===== src/Schemas/Indexing.antt =====
-- app/schemas/indexing.py, and the requests of app/ports/vector_store.py.
use be25_fin_thanos_meetbowl.Prelude.{ℕ, Bool, ◌&&◌, List, Option, null}
use be25_fin_thanos_meetbowl.Text.{Text}
use be25_fin_thanos_meetbowl.Schemas.{Uuid, Moment}

pub record AccessScope : Type 0 where
  pub user_ids : List Uuid
  pub department_ids : List Uuid
  pub shared_workspace_ids : List Uuid

unfoldable pub is_empty : AccessScope → Bool
is_empty scope = null scope.user_ids && null scope.department_ids && null scope.shared_workspace_ids

pub record DocumentMetadata : Type 0 where
  pub meeting_id : Option Uuid
  pub approved_at : Option Moment
  pub workspace_id : Option Uuid
  pub file_version_id : Option Uuid
  pub mail_id : Option Uuid
  pub storage_key : Option Text
  pub content_type : Option Text

-- The document type is one of six names.
pub record IndexDocumentCommand : Type 0 where
  pub document_id : Uuid
  pub document_type : Text
  pub organization_id : Option Uuid
  pub owner_user_id : Uuid
  pub title : Text
  pub content : Option Text
  pub access_scope : AccessScope
  pub metadata : DocumentMetadata
  pub created_at : Moment

pub record DocumentChunk : Type 0 where
  pub chunk_index : ℕ
  pub content : Text
  pub embedding_text : Text

pub record DocumentIndexingResult : Type 0 where
  pub document_id : Uuid
  pub document_type : Text
  pub chunk_count : ℕ
  pub embedding_model : Text
  pub indexed_at : Moment
