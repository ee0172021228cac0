-- ===== src/Feedback/Consumer.antt =====
-- `FeedbackEventProcessor` of app/consumers/redis_feedback.py. Moments, windows and intervals are in
-- milliseconds.
pub mod Gates
pub mod Queries
pub mod Publishing
pub mod Stream
use be25_fin_thanos_meetbowl.Prelude.{
  not, ◌||◌, Option, none, some, List, [], ◌∷◌, if◌then◌else◌, nat_eq, list_eq, option_eq, pair_eq,
  contains,
}
use be25_fin_thanos_meetbowl.Prelude.Dict.{lookup, insert}
use be25_fin_thanos_meetbowl.Text.{Text, codes}
use be25_fin_thanos_meetbowl.Errors.{Raises, returned, raised, other}
use be25_fin_thanos_meetbowl.Schemas.{Uuid, Moment}
use be25_fin_thanos_meetbowl.Schemas.Events.{
  FeedbackSegmentCreatedPayload, MeetingFeedbackGeneratedPayload,
}
use be25_fin_thanos_meetbowl.Schemas.Feedback.{
  validate_time_range, MeetingFeedbackCommand, MeetingFeedbackResult,
}
use be25_fin_thanos_meetbowl.Feedback.Window.{
  MeetingWindowState, append_segment, trim_expired_segments, build_window_fingerprint,
}
use be25_fin_thanos_meetbowl.Feedback.State.{
  Settings, Processor, cleanup_expired_state, window_or_new, is_stale, is_gated, segment_of,
  command_of, payload_of, dedupe_key, cools_down, key_of,
}

-- The workflow, the publisher (`none` before `set_publisher`) and `str.lower` during one event.
pub record World : Type 0 where
  pub execute : MeetingFeedbackCommand → Raises (Option MeetingFeedbackResult)
  pub publisher : Option (MeetingFeedbackGeneratedPayload → Uuid → Raises (Unit {0}))
  pub lower : Text → Text

pub data FeedbackEffect : Type 0 where
  queried : MeetingFeedbackCommand → FeedbackEffect
  sent : MeetingFeedbackGeneratedPayload → FeedbackEffect

abbrev pub Step : Type 0
Step = Raises (Unit {0}) × Processor × List FeedbackEffect

-- `return`
abbrev pub done : Processor → Step
done p = (returned tt, p, [])

module _ (settings : Settings) where
  open settings use {max_segments, max_window_seconds}

  -- `last_published_at` is written only after the publisher has returned.
  unfoldable pub record_published : MeetingFeedbackResult → Raises (Unit {0}) → Processor → Step
  unfolding payload_of dedupe_key
  record_published result (raised x) p = (raised x, p, sent (payload_of settings result) ∷ [])
  record_published result (returned _) p = (
    returned tt,
    record p {
      last_published_at =
          insert (dedupe_key settings result) result.generated_at p.last_published_at;
    },
    sent (payload_of settings result) ∷ [],
  )

  unfoldable pub publish_to :
      Option (MeetingFeedbackGeneratedPayload → Uuid → Raises (Unit {0}))
      → Uuid
      → MeetingFeedbackResult
      → Processor
      → Step
  unfolding record_published payload_of
  publish_to none correlation_id result p = done p
  publish_to (some publish) correlation_id result p =
      record_published result (publish (payload_of settings result) correlation_id) p

  unfoldable pub publish_result : World → Uuid → MeetingFeedbackResult → Processor → Step
  unfolding cools_down publish_to dedupe_key
  publish_result world correlation_id result p =
      if cools_down settings result.generated_at
        (lookup (dedupe_key settings result) p.last_published_at)
      then done p
      else publish_to world.publisher correlation_id result p

  -- After the workflow: a failure is swallowed; otherwise the query is noted in the window.
  unfoldable pub after_query :
      World
      → FeedbackSegmentCreatedPayload
      → Uuid
      → Text
      → MeetingWindowState
      → Raises (Option MeetingFeedbackResult)
      → Processor
      → Step
  unfolding publish_result
  after_query world payload correlation_id fingerprint state (raised x) p = done p
  after_query world payload correlation_id fingerprint state (returned result) p =
      let noted = record state {
        last_query_ended_at_ms = some payload.ended_at_ms;
        last_query_fingerprint = some fingerprint;
      } in
      let p' = record p { windows = insert (key_of settings payload) noted p.windows } in
      elim result [ none ↦ done p' | some r ↦ publish_result world correlation_id r p' ]

  unfoldable pub query :
      World → FeedbackSegmentCreatedPayload → Uuid → Text → MeetingWindowState → Processor → Step
  unfolding after_query command_of
  query world payload correlation_id fingerprint state p =
      let command = command_of settings payload correlation_id state in
      let (r, p', effects) =
        after_query world payload correlation_id fingerprint state (world.execute command) p in
      (r, p', queried command ∷ effects)

  -- The window after the new segment, and what follows.
  unfoldable pub accept :
      World
      → Moment
      → FeedbackSegmentCreatedPayload
      → Uuid
      → Option MeetingWindowState
      → Processor
      → Step
  accept world now payload correlation_id none p = (raised (other (codes "IndexError")), p, [])
  accept world now payload correlation_id (some appended) p =
      let state =
        trim_expired_segments
          (record appended { last_sequence = some payload.sequence; last_activity_at = now })
          payload.ended_at_ms max_window_seconds in
      let p' = record p { windows = insert (key_of settings payload) state p.windows } in
      let fingerprint = build_window_fingerprint world.lower state.segments in
      if is_gated settings payload fingerprint state
      then done p'
      else query world payload correlation_id fingerprint state p'

  -- From `setdefault` on.
  unfoldable pub add_segment :
      World → Moment → FeedbackSegmentCreatedPayload → Uuid → MeetingWindowState → Processor → Step
  unfolding is_stale segment_of validate_time_range
  add_segment world now payload correlation_id state p =
      if contains payload.segment_id state.segment_ids
        || is_stale settings payload.sequence state.last_sequence
      then done p
      else if validate_time_range (segment_of settings payload)
      then accept world now payload correlation_id
          (append_segment state (segment_of settings payload) max_segments) p
      else (raised (other (codes "ValidationError")), p, [])

  unfoldable pub process_payload :
      World → Moment → FeedbackSegmentCreatedPayload → Uuid → Processor → Step
  process_payload world now payload correlation_id p =
      if not payload.is_final
      then done p
      else let p₁ = cleanup_expired_state settings now p in
        let state = window_or_new settings now (lookup (key_of settings payload) p₁.windows) in
        add_segment world now payload correlation_id state
          (record p₁ { windows = insert (key_of settings payload) state p₁.windows })
