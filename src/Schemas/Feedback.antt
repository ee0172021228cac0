-- ===== src/Schemas/Feedback.antt =====
-- app/schemas/feedback.py.
use be25_fin_thanos_meetbowl.Prelude.{ℕ, Bool, List, Option, leb}
use be25_fin_thanos_meetbowl.Text.{Text}
use be25_fin_thanos_meetbowl.Schemas.{Uuid, Moment, Score}

pub data FeedbackType : Type 0 where
  decision_reminder duplicate_discussion resolved_topic : FeedbackType

pub record FeedbackTranscriptSegment : Type 0 where
  pub segment_id : Uuid
  pub sequence : ℕ
  pub language : Text
  pub text : Text
  pub is_final : Bool
  pub started_at_ms : ℕ
  pub ended_at_ms : ℕ

-- The model validator: a segment does not end before it starts.
unfoldable pub validate_time_range : FeedbackTranscriptSegment → Bool
validate_time_range segment = leb segment.started_at_ms segment.ended_at_ms

pub record FeedbackCandidate : Type 0 where
  pub minutes_id : Uuid
  pub meeting_id : Option Uuid
  pub title : Text
  pub meeting_date : Text
  pub snippet : Text
  pub score : Score

pub record MeetingFeedbackCommand : Type 0 where
  pub meeting_id : Uuid
  pub session_id : Uuid
  pub organization_id : Uuid
  pub participant_user_ids : List Uuid
  pub correlation_id : Uuid
  pub transcript_window : List FeedbackTranscriptSegment

pub record MeetingFeedbackResult : Type 0 where
  pub feedback_id : Uuid
  pub meeting_id : Uuid
  pub session_id : Uuid
  pub feedback_type : FeedbackType
  pub message : Text
  pub sources : List FeedbackCandidate
  pub audience_user_ids : List Uuid
  pub from_sequence : ℕ
  pub to_sequence : ℕ
  pub generated_at : Moment
