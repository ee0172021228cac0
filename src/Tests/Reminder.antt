-- ===== src/Tests/Reminder.antt =====
-- A reminder of a decision, from one candidate that is found for one segment.
use be25_fin_thanos_meetbowl.Prelude.{
  ℕ, ◌≡◌, refl, true, false, none, some, [], ◌∷◌, nat_eq, list_eq, option_eq, pair_eq,
}
use be25_fin_thanos_meetbowl.Text.{codes, strip, collapse, is_infix}
use be25_fin_thanos_meetbowl.Errors.{returned}
use be25_fin_thanos_meetbowl.Schemas.Feedback.{
  FeedbackCandidate, MeetingFeedbackCommand, MeetingFeedbackResult, decision_reminder,
}
use be25_fin_thanos_meetbowl.Workflows.MeetingFeedback.{Ports, execute}
use be25_fin_thanos_meetbowl.Workflows.MeetingFeedback.Delivered.{IsFeedback, execute-IsFeedback}

abbrev candidate : ℕ → FeedbackCandidate
candidate score = record {
  minutes_id = 1;
  meeting_id = none;
  title = codes "t";
  meeting_date = codes "2026-01-01";
  snippet = codes "확정";
  score = score;
}

abbrev ports : Ports
ports = record {
  Vector = ℕ;
  embed = λ query. returned (0 ∷ []);
  search = λ vector query command. returned (candidate 3 ∷ candidate 8 ∷ []);
  score_threshold = 5;
  allow_semantic_fallback = false;
  uuid_text = λ n. n ∷ [];
  lower = λ t. t;
  find_tokens = λ t. [];
}

abbrev command : MeetingFeedbackCommand
command = record {
  meeting_id = 1;
  session_id = 2;
  organization_id = 3;
  participant_user_ids = 5 ∷ 4 ∷ 5 ∷ [];
  correlation_id = 9;
  transcript_window =
      record {
        segment_id = 1;
        sequence = 6;
        language = codes "ko";
        text = codes "x";
        is_final = true;
        started_at_ms = 1;
        ended_at_ms = 2;
      }
      ∷ [];
}

abbrev reminder : MeetingFeedbackResult
reminder = record {
  feedback_id = 8;
  meeting_id = 1;
  session_id = 2;
  feedback_type = decision_reminder;
  message = codes "2026-01-01 회의에서 이 안건이 이미 결정되었습니다.";
  sources = candidate 8 ∷ [];
  audience_user_ids = 4 ∷ 5 ∷ [];
  from_sequence = 6;
  to_sequence = 6;
  generated_at = 7;
}

executed : execute ports 8 7 command ≡ returned (some reminder)
unfolding execute strip collapse is_infix
executed = refl

execute-IsFeedback_example : IsFeedback ports command reminder
execute-IsFeedback_example = execute-IsFeedback ports 8 7 command reminder executed
