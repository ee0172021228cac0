-- ===== src/Feedback/State.antt =====
-- The state of `FeedbackEventProcessor` of app/consumers/redis_feedback.py, and what it reads off it.
-- Moments, windows and intervals are in milliseconds; differences of moments are compared as sums.
use be25_fin_thanos_meetbowl.Prelude.{
  ℕ, ◌+◌, ◌*◌, max, Bool, true, false, not, ◌||◌, Option, none, some, List, [], ◌∷◌, map, ltb, leb,
  if◌then◌else◌, ◌==◌, nat_eq, list_eq, option_eq, pair_eq, length,
}
use be25_fin_thanos_meetbowl.Prelude.Dict.{Dict}
use be25_fin_thanos_meetbowl.Text.{Text, codes}
use be25_fin_thanos_meetbowl.Schemas.{Uuid, Moment}
use be25_fin_thanos_meetbowl.Schemas.Events.{
  FeedbackSegmentCreatedPayload, MeetingFeedbackGeneratedPayload,
}
use be25_fin_thanos_meetbowl.Schemas.Feedback.{
  FeedbackType, decision_reminder, duplicate_discussion, resolved_topic, FeedbackTranscriptSegment,
  MeetingFeedbackCommand, MeetingFeedbackResult,
}
use be25_fin_thanos_meetbowl.Feedback.Window.{MeetingWindowState, total_chars}

pub record Settings : Type 0 where
  pub max_segments : ℕ
  pub max_window_seconds : ℕ
  pub min_segments : ℕ
  pub min_window_chars : ℕ
  pub trigger_interval_seconds : ℕ
  pub cooldown_seconds : ℕ
  pub state_ttl_seconds : ℕ

abbrev pub type_name : FeedbackType → Text
type_name decision_reminder = codes "DECISION_REMINDER"
type_name duplicate_discussion = codes "DUPLICATE_DISCUSSION"
type_name resolved_topic = codes "RESOLVED_TOPIC"

abbrev pub WindowKey : Type 0
WindowKey = Uuid × Uuid

-- Meeting, session, type, and the minutes that are cited, in order.
abbrev pub DedupeKey : Type 0
DedupeKey = (Uuid × Uuid) × (Text × List Uuid)

pub record Processor : Type 0 where
  pub windows : Dict WindowKey MeetingWindowState
  pub last_published_at : Dict DedupeKey Moment

-- The entries of a dict that pass a test.
unfoldable pub retain {ℓ κ} : {K : Type ℓ} {V : Type κ} → (V → Bool) → Dict K V → Dict K V
retain keep [] = []
retain keep ((k, v) ∷ d) = if keep v then (k, v) ∷ retain keep d else retain keep d

module _ (settings : Settings) where
  open settings use {
    max_segments, max_window_seconds, min_segments, min_window_chars, trigger_interval_seconds,
    cooldown_seconds, state_ttl_seconds,
  }

  -- `now - last_activity_at >= ttl` drops a window; `published_at < now - max(ttl, cooldown)` a key.
  unfoldable pub cleanup_expired_state : Moment → Processor → Processor
  unfolding retain
  cleanup_expired_state now p = record {
    windows =
        retain (λ state. not (leb (state.last_activity_at + state_ttl_seconds * 1000) now))
          p.windows;
    last_published_at =
        retain
          (λ published_at.
            not (ltb (published_at + max (state_ttl_seconds * 1000) (cooldown_seconds * 1000)) now))
          p.last_published_at;
  }

  -- `setdefault`
  unfoldable pub window_or_new : Moment → Option MeetingWindowState → MeetingWindowState
  window_or_new now (some state) = state
  window_or_new now none = record {
    segments = [];
    segment_ids = [];
    last_sequence = none;
    last_activity_at = now;
    last_query_ended_at_ms = none;
    last_query_fingerprint = none;
  }

  unfoldable pub is_stale : ℕ → Option ℕ → Bool
  is_stale sequence none = false
  is_stale sequence (some last) = leb sequence last

  unfoldable pub too_soon : ℕ → Option ℕ → Bool
  too_soon ended_at_ms none = false
  too_soon ended_at_ms (some last) = ltb ended_at_ms (last + trigger_interval_seconds * 1000)

  -- The gates before a query: how much was said, when the last query was, and whether anything changed.
  unfoldable pub is_gated : FeedbackSegmentCreatedPayload → Text → MeetingWindowState → Bool
  unfolding too_soon
  is_gated payload fingerprint state =
      ltb (length state.segments) min_segments
      || ltb (total_chars state.segments) min_window_chars
      || too_soon payload.ended_at_ms state.last_query_ended_at_ms
      || state.last_query_fingerprint == some fingerprint

  unfoldable pub segment_of : FeedbackSegmentCreatedPayload → FeedbackTranscriptSegment
  segment_of payload = record {
    segment_id = payload.segment_id;
    sequence = payload.sequence;
    language = payload.language;
    text = payload.text;
    is_final = true;
    started_at_ms = payload.started_at_ms;
    ended_at_ms = payload.ended_at_ms;
  }

  unfoldable pub command_of :
      FeedbackSegmentCreatedPayload → Uuid → MeetingWindowState → MeetingFeedbackCommand
  command_of payload correlation_id state = record {
    meeting_id = payload.meeting_id;
    session_id = payload.session_id;
    organization_id = payload.organization_id;
    participant_user_ids = payload.participant_user_ids;
    correlation_id = correlation_id;
    transcript_window = state.segments;
  }

  unfoldable pub payload_of : MeetingFeedbackResult → MeetingFeedbackGeneratedPayload
  payload_of result = record {
    feedback_id = result.feedback_id;
    meeting_id = result.meeting_id;
    session_id = result.session_id;
    feedback_type = result.feedback_type;
    message = result.message;
    sources = result.sources;
    audience_user_ids = result.audience_user_ids;
    from_sequence = result.from_sequence;
    to_sequence = result.to_sequence;
    generated_at = result.generated_at;
  }

  unfoldable pub dedupe_key : MeetingFeedbackResult → DedupeKey
  dedupe_key result = (
    (result.meeting_id, result.session_id),
    (type_name result.feedback_type, map (λ source. source.minutes_id) result.sources),
  )

  unfoldable pub cools_down : Moment → Option Moment → Bool
  cools_down generated_at none = false
  cools_down generated_at (some last) = ltb generated_at (last + cooldown_seconds * 1000)

  abbrev pub key_of : FeedbackSegmentCreatedPayload → WindowKey
  key_of payload = (payload.meeting_id, payload.session_id)
