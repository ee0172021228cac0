-- ===== src/Schemas/Events.antt =====
-- app/schemas/events.py. A payload is a JSON object, whose type is a parameter: pydantic parses it.
use be25_fin_thanos_meetbowl.Prelude.{ℕ, Bool, List, Option}
use be25_fin_thanos_meetbowl.Text.{Text}
use be25_fin_thanos_meetbowl.Schemas.{Uuid, Moment}
use be25_fin_thanos_meetbowl.Schemas.Minutes.{AgendaItem, ActionItem, TiptapNodes}
use be25_fin_thanos_meetbowl.Schemas.Indexing.{AccessScope, DocumentMetadata}
use be25_fin_thanos_meetbowl.Schemas.Feedback.{FeedbackCandidate, FeedbackType}

-- `version` is always 1, so that it is no field.
pub record EventEnvelope (Payload : Type 0) : Type 0 where
  pub event_id : Uuid
  pub event_type : Text
  pub occurred_at : Moment
  pub producer : Text
  pub correlation_id : Uuid
  pub payload : Payload

pub record MeetingEndedPayload : Type 0 where
  pub meeting_id : Uuid
  pub organization_id : Uuid
  pub host_user_id : Uuid
  pub reviewer_user_id : Uuid
  pub title : Text
  pub started_at : Moment
  pub ended_at : Moment

pub record MinutesGenerationRequestedPayload : Type 0 where
  pub meeting_id : Uuid
  pub organization_id : Uuid
  pub requested_by_user_id : Uuid
  pub reviewer_user_id : Uuid
  pub reason : Text
  pub prompt_version : Text

-- `status` is always "DRAFT", so that it is no field.
pub record MinutesGeneratedPayload : Type 0 where
  pub meeting_id : Uuid
  pub organization_id : Uuid
  pub reviewer_user_id : Uuid
  pub summary : Text
  pub agenda_items : List AgendaItem
  pub decisions : List Text
  pub action_items : List ActionItem
  pub editor_content : TiptapNodes
  pub model : Text
  pub prompt_version : Text

pub record DocumentIndexRequestedPayload : Type 0 where
  pub document_id : Uuid
  pub document_type : Text
  pub organization_id : Option Uuid
  pub owner_user_id : Uuid
  pub title : Text
  pub content : Option Text
  pub metadata : DocumentMetadata
  pub access_scope : AccessScope

pub record DocumentIndexRemovedPayload : Type 0 where
  pub document_id : Uuid

pub record FeedbackSegmentCreatedPayload : Type 0 where
  pub meeting_id : Uuid
  pub session_id : Uuid
  pub organization_id : Uuid
  pub participant_user_ids : List Uuid
  pub segment_id : Uuid
  pub sequence : ℕ
  pub language : Text
  pub text : Text
  pub is_final : Bool
  pub started_at_ms : ℕ
  pub ended_at_ms : ℕ

pub record MeetingFeedbackGeneratedPayload : Type 0 where
  pub feedback_id : Uuid
  pub meeting_id : Uuid
  pub session_id : Uuid
  pub feedback_type : FeedbackType
  pub message : Text
  pub sources : List FeedbackCandidate
  pub audience_user_ids : List Uuid
  pub from_sequence : ℕ
  pub to_sequence : ℕ
  pub generated_at : Moment
