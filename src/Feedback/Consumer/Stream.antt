-- ===== src/Feedback/Consumer/Stream.antt =====
-- `process_raw`, and `RedisFeedbackRuntime._read_stream`: a batch of messages of one stream. Parsing is
-- pydantic's, and `none` is a `ValidationError`.
pub mod Batch
use be25_fin_thanos_meetbowl.Prelude.{
  Option, none, some, List, [], ◌∷◌, ◌++◌, if◌then◌else◌, ◌==◌, nat_eq, list_eq, option_eq, pair_eq,
}
use be25_fin_thanos_meetbowl.Prelude.Dict.{Dict, lookup, insert}
use be25_fin_thanos_meetbowl.Text.{Text, codes}
use be25_fin_thanos_meetbowl.Errors.{Raises, returned, raised, other}
use be25_fin_thanos_meetbowl.Schemas.{Uuid, Moment}
use be25_fin_thanos_meetbowl.Schemas.Events.{EventEnvelope, FeedbackSegmentCreatedPayload}
use be25_fin_thanos_meetbowl.Feedback.State.{
  Settings, Processor, cleanup_expired_state, window_or_new, key_of, is_stale, segment_of,
}
use be25_fin_thanos_meetbowl.Feedback.Consumer.{
  World, FeedbackEffect, queried, sent, Step, done, add_segment, process_payload,
}

abbrev pub feedback_segment_created : Text
feedback_segment_created = codes "meeting.feedback.segment.created"

-- One delivered message: its id, the parsed event if there is a field `event`, and the clock.
pub record Delivered (Json : Type 0) : Type 0 where
  pub message_id : Text
  pub raw_event : Option (Option (EventEnvelope Json))
  pub now : Moment
  pub world : World

module _ (settings : Settings) {Json : Type 0}
    (parse_payload : Json → Option FeedbackSegmentCreatedPayload) where
  unfoldable pub process_parsed :
      World → Moment → Uuid → Option FeedbackSegmentCreatedPayload → Processor → Step
  process_parsed world now correlation_id none p = done p
  process_parsed world now correlation_id (some payload) p =
      process_payload settings world now payload correlation_id p

  unfoldable pub process_raw : World → Moment → Option (EventEnvelope Json) → Processor → Step
  unfolding process_parsed
  process_raw world now none p = done p
  process_raw world now (some envelope) p =
      if envelope.event_type == feedback_segment_created
      then process_parsed world now envelope.correlation_id (parse_payload envelope.payload) p
      else done p

  unfoldable pub process_event :
      World → Moment → Option (Option (EventEnvelope Json)) → Processor → Step
  unfolding process_raw
  process_event world now none p = done p
  process_event world now (some raw_event) p = process_raw world now raw_event p

  -- The loop over the messages of one read: an exception of `process_raw` leaves it, and that message
  -- and those behind it are not acknowledged. The acknowledged ids are returned, in order.
  unfoldable pub read_messages :
      List (Delivered Json)
      → Processor
      → Raises (Unit {0}) × Processor × List Text × List FeedbackEffect
  read_messages [] p = (returned tt, p, [], [])
  read_messages (m ∷ rest) p =
      let (result, p', effects) = process_event m.world m.now m.raw_event p in
      let (result', p'', acked, effects') = read_messages rest p' in
      elim result [
        | raised x ↦ (raised x, p', [], effects)
        | returned _ ↦ (result', p'', m.message_id ∷ acked, effects ++ effects')
      ]
