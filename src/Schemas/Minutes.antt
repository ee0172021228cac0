-- ===== src/Schemas/Minutes.antt =====
-- app/schemas/minutes.py, workflow.py and tiptap.py.
use be25_fin_thanos_meetbowl.Prelude.{ℕ, Bool, List, Option}
use be25_fin_thanos_meetbowl.Text.{Text}
use be25_fin_thanos_meetbowl.Schemas.{Uuid, Moment}

pub record Participant : Type 0 where
  pub user_id : Uuid
  pub name : Text
  pub department : Option Text

pub record AgendaItem : Type 0 where
  pub title : Text
  pub discussion : Text
  pub decision : Option Text

pub record TranscriptSegment : Type 0 where
  pub segment_id : Option Text
  pub sequence : ℕ
  pub language : Option Text
  pub source_text : Text
  pub started_at_ms : Option ℕ
  pub ended_at_ms : Option ℕ
  pub suspicious : Bool

pub record EvidenceDecision : Type 0 where
  pub content : Text
  pub source_sequences : List ℕ

pub record EvidenceActionItem : Type 0 where
  pub content : Text
  pub assignee_name : Option Text
  pub due_date : Option Text
  pub source_sequences : List ℕ

pub record EvidenceAgendaItem : Type 0 where
  pub title : Text
  pub discussion_points : List Text
  pub source_sequences : List ℕ
  pub decision : Option Text

pub record MinutesEvidence : Type 0 where
  pub summary : Text
  pub agenda_items : List EvidenceAgendaItem
  pub decisions : List EvidenceDecision
  pub action_items : List EvidenceActionItem

pub record ActionItem : Type 0 where
  pub content : Text
  pub assignee_name : Option Text
  pub due_date : Option Text

pub record MinutesDraft : Type 0 where
  pub summary : Text
  pub agenda_items : List AgendaItem
  pub decisions : List Text
  pub action_items : List ActionItem

-- The node types that the converter builds; the schema allows any text for the type.
mutual
  pub data TiptapNode : Type 0 where
    heading : ℕ → TiptapNodes → TiptapNode
    paragraph : TiptapNodes → TiptapNode
    text : Text → TiptapNode
    bullet_list : TiptapNodes → TiptapNode
    list_item : TiptapNodes → TiptapNode

  pub data TiptapNodes : Type 0 where
    end : TiptapNodes
    node : TiptapNode → TiptapNodes → TiptapNodes

pub record MinutesGenerationCommand : Type 0 where
  pub meeting_id : Uuid
  pub organization_id : Uuid
  pub reviewer_user_id : Uuid
  pub host_user_id : Option Uuid
  pub requested_by_user_id : Option Uuid
  pub title : Option Text
  pub started_at : Option Moment
  pub ended_at : Option Moment
  pub prompt_version : Option Text
  pub reason : Option Text
  pub participants : Option (List Participant)
  pub raw_transcript : Option Text

pub record MinutesGenerationContext : Type 0 where
  pub meeting_id : Uuid
  pub organization_id : Uuid
  pub host_user_id : Uuid
  pub reviewer_user_id : Uuid
  pub title : Text
  pub started_at : Moment
  pub ended_at : Moment
  pub participants : List Participant
  pub segments : List TranscriptSegment
  pub raw_transcript : Text

-- `status` is always "DRAFT", so that it is no field.
pub record MinutesGenerationResult : Type 0 where
  pub meeting_id : Uuid
  pub organization_id : Uuid
  pub reviewer_user_id : Uuid
  pub minutes_draft : MinutesDraft
  pub editor_content : TiptapNodes
  pub model : Text
  pub prompt_version : Text
  pub generated_at : Moment
