-- ===== src/Tests/Feedback.antt =====
-- The feedback consumer on concrete segments.
use be25_fin_thanos_meetbowl.Prelude.{
  list_eq, option_eq, pair_eq, ℕ, ◌*◌, ◌≤◌, ◌≡◌, refl, true, false, Option, none, some, [], ◌∷◌,
  map, arith, contains, nat_eq, length,
}
use be25_fin_thanos_meetbowl.Prelude.Dict.{lookup, insert}
use be25_fin_thanos_meetbowl.Text.{codes}
use be25_fin_thanos_meetbowl.Errors.{returned, raised, other}
use be25_fin_thanos_meetbowl.Schemas.Events.{EventEnvelope, FeedbackSegmentCreatedPayload}
use be25_fin_thanos_meetbowl.Schemas.Feedback.{
  MeetingFeedbackCommand, MeetingFeedbackResult, decision_reminder,
}
use be25_fin_thanos_meetbowl.Feedback.Window.{
  trim_expired_segments, MeetingWindowState, append_segment, total_chars,
}
use be25_fin_thanos_meetbowl.Feedback.State.{
  is_gated, Settings, Processor, cleanup_expired_state, window_or_new, key_of, is_stale, segment_of,
}
use be25_fin_thanos_meetbowl.Feedback.Consumer.{
  add_segment, accept, query, World, process_payload, publish_result, done,
}
use be25_fin_thanos_meetbowl.Feedback.Consumer.Gates.{AllWindows, process_payload-AllWindows}
use be25_fin_thanos_meetbowl.Feedback.Consumer.Queries.{IsDue, query_gates}
use be25_fin_thanos_meetbowl.Feedback.Consumer.Publishing.{cooldown_lem}
use be25_fin_thanos_meetbowl.Feedback.Consumer.Stream.{
  process_event, Delivered, feedback_segment_created, read_messages,
}
use be25_fin_thanos_meetbowl.Feedback.Consumer.Stream.Batch.{
  read_messages-acked, reversed_stops_batch,
}

abbrev settings : Settings
settings = record {
  max_segments = 2;
  max_window_seconds = 60;
  min_segments = 1;
  min_window_chars = 3;
  trigger_interval_seconds = 10;
  cooldown_seconds = 30;
  state_ttl_seconds = 100;
}

abbrev empty : Processor
empty = record { windows = []; last_published_at = [] }

abbrev payload : ℕ → ℕ → FeedbackSegmentCreatedPayload
payload started_at_ms ended_at_ms = record {
  meeting_id = 1;
  session_id = 2;
  organization_id = 3;
  participant_user_ids = 4 ∷ [];
  segment_id = 5;
  sequence = 6;
  language = codes "ko";
  text = codes "hello";
  is_final = true;
  started_at_ms = started_at_ms;
  ended_at_ms = ended_at_ms;
}

abbrev result : ℕ → MeetingFeedbackResult
result generated_at = record {
  feedback_id = 8;
  meeting_id = 1;
  session_id = 2;
  feedback_type = decision_reminder;
  message = codes "this was decided";
  sources = [];
  audience_user_ids = 4 ∷ [];
  from_sequence = 6;
  to_sequence = 6;
  generated_at = generated_at;
}

abbrev world : World
world = record {
  execute = λ command. returned (some (result 1000));
  publisher = some (λ event correlation_id. returned tt);
  lower = λ text. text;
}

process_payload-AllWindows_example :
    AllWindows settings (process_payload settings world 1000 (payload 10 20) 9 empty).1
process_payload-AllWindows_example =
    process_payload-AllWindows settings world 1000 (payload 10 20) 9 empty (omega arith) tt

abbrev window : MeetingWindowState
window = window_or_new settings 1000 none

abbrev command : MeetingFeedbackCommand
command = record {
  meeting_id = 1;
  session_id = 2;
  organization_id = 3;
  participant_user_ids = 4 ∷ [];
  correlation_id = 9;
  transcript_window = segment_of settings (payload 10 20) ∷ [];
}

query_gates_example :
    let before = window_or_new settings 1000 (
      lookup
        (key_of settings (payload 10 20))
        (cleanup_expired_state settings 1000 empty).windows) in
    ((payload 10 20).is_final ≡ true)
    × (contains 5 before.segment_ids ≡ false)
    × (is_stale settings 6 before.last_sequence ≡ false)
    × (1 ≤ length command.transcript_window)
    × (3 ≤ total_chars command.transcript_window)
    × IsDue (10 * 1000) before.last_query_ended_at_ms 20
unfolding process_payload add_segment window_or_new lookup cleanup_expired_state accept
    append_segment is_gated trim_expired_segments total_chars query
query_gates_example = query_gates settings world 1000 (payload 10 20) 9 empty command refl

abbrev after_first : Processor
after_first = (publish_result settings world 9 (result 1000) empty).1

cooldown_lem_example :
    let p'' = cleanup_expired_state settings 2000 after_first in
    publish_result settings world 9 (result 2000) p'' ≡ done p''
unfolding publish_result lookup
cooldown_lem_example =
    cooldown_lem settings world world 9 9 (result 1000) (result 2000) empty after_first 2000 refl
      refl (omega arith) (omega arith)

abbrev parse : ℕ → Option FeedbackSegmentCreatedPayload
parse started_at_ms = some (payload started_at_ms 20)

abbrev envelope : ℕ → EventEnvelope ℕ
envelope started_at_ms = record {
  event_id = 11;
  event_type = feedback_segment_created;
  occurred_at = 0;
  producer = [];
  correlation_id = 9;
  payload = started_at_ms;
}

abbrev message : ℕ → Delivered ℕ
message started_at_ms = record {
  message_id = started_at_ms ∷ [];
  raw_event = some (some (envelope started_at_ms));
  now = 1000;
  world = world;
}

read_messages-acked_example :
    (read_messages settings parse (message 10 ∷ message 15 ∷ []) empty).2
    ≡ map (λ m. m.message_id) (message 10 ∷ message 15 ∷ [])
unfolding read_messages process_event process_payload add_segment window_or_new lookup
    cleanup_expired_state accept append_segment is_gated trim_expired_segments total_chars query
    insert
read_messages-acked_example =
    read_messages-acked settings parse (message 10 ∷ message 15 ∷ []) empty refl

reversed_stops_batch_example :
    (p' : Processor) × (process_payload settings world 1000 (payload 30 20) 9 empty
      ≡ (raised (other (codes "ValidationError")), p', []))
    × (read_messages settings parse (message 30 ∷ message 10 ∷ []) empty
        ≡ (raised (other (codes "ValidationError")), p', [], []))
unfolding cleanup_expired_state lookup window_or_new is_stale
reversed_stops_batch_example =
    reversed_stops_batch settings parse (message 30) (message 10 ∷ []) (envelope 30) (payload 30 20)
      empty window refl refl refl refl refl refl refl (omega arith)
