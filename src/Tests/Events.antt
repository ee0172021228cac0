-- ===== src/Tests/Events.antt =====
-- The consumers of app/events/rabbit.py and the trackers on concrete events.
use be25_fin_thanos_meetbowl.Prelude.{
  ℕ, suc, ◌+◌, ◌-◌, ◌*◌, ◌≤◌, min, ◌≡◌, refl, none, some, [], ◌∷◌, arith, nat_eq, list_eq,
  option_eq, pair_eq, length,
}
use be25_fin_thanos_meetbowl.Prelude.Dict.{lookup}
use be25_fin_thanos_meetbowl.Text.{Text}
use be25_fin_thanos_meetbowl.Errors.{returned, raised, other}
use be25_fin_thanos_meetbowl.Schemas.Minutes.{
  MinutesGenerationCommand, MinutesGenerationResult, end,
}
use be25_fin_thanos_meetbowl.Schemas.Events.{EventEnvelope, MeetingEndedPayload}
use be25_fin_thanos_meetbowl.Events.Tracker.{fresh, in_memory}
use be25_fin_thanos_meetbowl.Events.Tracker as Memory
use be25_fin_thanos_meetbowl.Events.Mapper.{
  Codec, command_from_event, meeting_ended, document_index_removed,
}
use be25_fin_thanos_meetbowl.Events.Effect.{acked, SettlesOnce}
use be25_fin_thanos_meetbowl.Events.Minutes.{
  RetryPolicy, Attempt, run_command, process, retry_delay,
}
use be25_fin_thanos_meetbowl.Events.Minutes.Delivery.{
  process-SettlesOnce, process_all, redelivery_is_acked,
}
use be25_fin_thanos_meetbowl.Events.Minutes.Retries.{deliver, deliver_bound}
use be25_fin_thanos_meetbowl.Events.Minutes.Delay.{retry_delay_lem}
use be25_fin_thanos_meetbowl.Events.Documents.{process_index, process_removal}
use be25_fin_thanos_meetbowl.Events.Documents.Delivery.{IsSettled, process_documents-IsSettled}

-- Every payload is the same meeting; a payload is written as a number.
abbrev meeting : MeetingEndedPayload
meeting = record {
  meeting_id = 1;
  organization_id = 2;
  host_user_id = 3;
  reviewer_user_id = 4;
  title = [];
  started_at = 0;
  ended_at = 1;
}

abbrev pub codec : Codec
codec = record {
  Json = ℕ;
  meeting_ended_payload = λ n. some meeting;
  generation_requested_payload = λ n. none;
  index_requested_payload = λ n. none;
  index_removed_payload = λ n. some (record { document_id = n });
  dump = λ payload. payload.meeting_id;
  uuid_text = λ n. n ∷ [];
  uuid5 = length;
}

abbrev pub envelope : Text → EventEnvelope ℕ
envelope event_type = record {
  event_id = 9;
  event_type = event_type;
  occurred_at = 0;
  producer = [];
  correlation_id = 5;
  payload = 7;
}

abbrev result : MinutesGenerationCommand → MinutesGenerationResult
result command = record {
  meeting_id = command.meeting_id;
  organization_id = command.organization_id;
  reviewer_user_id = command.reviewer_user_id;
  minutes_draft = record { summary = []; agenda_items = []; decisions = []; action_items = [] };
  editor_content = end;
  model = [];
  prompt_version = [];
  generated_at = 0;
}

abbrev works : Attempt ℕ
works = record {
  execute = λ command. returned (result command);
  publish = λ event. returned tt;
  now = 6;
}

abbrev fails : Attempt ℕ
fails = record { execute = λ command. raised (other []); publish = λ event. returned tt; now = 6 }

abbrev policy : RetryPolicy
policy = record { max_retries = 3; retry_delay_base = 5000; retry_delay_max = 60000 }

redelivery_is_acked_example :
    let s' =
      process_all codec in_memory policy
        ((fails, none) ∷ [])
        (process codec in_memory policy works (some (envelope meeting_ended)) fresh).0 in
    process codec in_memory policy fails (some (envelope meeting_ended)) s' ≡ (s', acked ∷ [])
unfolding run_command command_from_event
redelivery_is_acked_example =
    redelivery_is_acked codec in_memory policy works (envelope meeting_ended) fresh
      ((fails, none) ∷ []) fails (envelope meeting_ended) refl refl

deliver_bound_example :
    (m : ℕ) × (s' : Memory.InMemory) × (deliver codec in_memory policy 5 0
        (λ n. fails)
        (envelope meeting_ended)
        fresh
      ≡ some (m, s'))
    × (m ≤ 0 + (3 - Memory.retries 9 fresh) + 1)
unfolding Memory.retries lookup
deliver_bound_example =
    deliver_bound codec in_memory policy 5 0 (λ n. fails) (envelope meeting_ended) fresh
      (omega arith) (omega arith)

process-SettlesOnce_example :
    SettlesOnce (process codec in_memory policy fails (some (envelope meeting_ended)) fresh).1
process-SettlesOnce_example =
    process-SettlesOnce codec in_memory policy fails (some (envelope meeting_ended)) fresh

retry_delay_lem_example :
    (retry_delay policy 3 ≤ 60000)
    × (retry_delay policy 1 ≡ min 5000 60000)
    × (retry_delay policy (suc (suc 3)) ≡ min (2 * retry_delay policy (suc 3)) 60000)
    × (retry_delay policy (suc 3) ≤ retry_delay policy (suc (suc 3)))
retry_delay_lem_example = retry_delay_lem policy 3

process_documents-IsSettled_example :
    IsSettled codec in_memory 3 9 (
      process_index codec in_memory 3
        (λ command. raised (other []))
        (some (envelope document_index_removed))
        fresh)
    × IsSettled codec in_memory 3 9 (
        process_removal codec in_memory 3
          (λ id. returned tt)
          (some (envelope document_index_removed))
          fresh)
process_documents-IsSettled_example =
    process_documents-IsSettled codec in_memory 3 (λ command. raised (other [])) (λ id. returned tt)
      (envelope document_index_removed) fresh
