-- ===== src/Workflows/MeetingFeedback.antt =====
-- app/workflows/meeting_feedback.py: `MeetingFeedbackWorkflow`. The embedding, the search, `uuid4`,
-- `str(UUID)`, `str.lower` and the pattern of tokens are parameters.
pub mod Delivered
use be25_fin_thanos_meetbowl.Prelude.{
  ℕ, ◌-◌, min, max, Bool, false, not, ◌||◌, Option, none, some, List, [], ◌∷◌, ◌++◌, map, ltb, leb,
  if◌then◌else◌, nat_eq, list_eq, contains, length, take, null, select,
}
use be25_fin_thanos_meetbowl.Text.{Text, codes, strip, collapse, join, is_infix}
use be25_fin_thanos_meetbowl.Dedupe.{dedupe}
use be25_fin_thanos_meetbowl.Errors.{Raises, returned, raised, other, ◌>>=◌}
use be25_fin_thanos_meetbowl.Schemas.{Uuid, Moment, Score}
use be25_fin_thanos_meetbowl.Schemas.Feedback.{
  FeedbackType, decision_reminder, duplicate_discussion, resolved_topic, FeedbackTranscriptSegment,
  FeedbackCandidate, MeetingFeedbackCommand, MeetingFeedbackResult,
}
use be25_fin_thanos_meetbowl.Rag.FeedbackFilter.{sorted_users}

abbrev pub max_feedback_sources : ℕ
max_feedback_sources = 2

abbrev pub max_source_snippet_length : ℕ
max_source_snippet_length = 120

pub record Ports : Type 1 where
  pub Vector : Type 0
  pub embed : Text → Raises (List Vector)
  pub search : Vector → Text → MeetingFeedbackCommand → Raises (List FeedbackCandidate)
  pub score_threshold : Score
  pub allow_semantic_fallback : Bool
  pub uuid_text : Uuid → Text
  pub lower : Text → Text
  pub find_tokens : Text → List Text

abbrev pub stop_words : List Text
stop_words =
    codes "관련"
    ∷ codes "그리고"
    ∷ codes "대한"
    ∷ codes "대해"
    ∷ codes "논의"
    ∷ codes "문제"
    ∷ codes "이번"
    ∷ codes "이전"
    ∷ codes "오늘"
    ∷ codes "회의"
    ∷ codes "회의록"
    ∷ codes "합니다"
    ∷ codes "했습니다"
    ∷ codes "있습니다"
    ∷ []

abbrev pub resolved_words : List Text
resolved_words = codes "완료" ∷ codes "해결" ∷ codes "조치 완료" ∷ codes "반영 완료" ∷ []

abbrev pub decided_words : List Text
decided_words = codes "결정" ∷ codes "확정" ∷ codes "진행하기로" ∷ codes "채택" ∷ []

-- `any(keyword in text for keyword in keywords)`
unfoldable pub mentions : List Text → Text → Bool
mentions [] text = false
mentions (keyword ∷ keywords) text = is_infix keyword text || mentions keywords text

unfoldable pub truncate_text : Text → ℕ → Text
truncate_text text max_length =
    let normalized = collapse text in
    if leb (length normalized) max_length
    then normalized
    else take (max_length - 3) normalized ++ codes "..."

unfoldable pub compact_source : FeedbackCandidate → FeedbackCandidate
unfolding truncate_text
compact_source candidate = record candidate {
  snippet = truncate_text candidate.snippet max_source_snippet_length;
}

unfoldable pub render_message : FeedbackType → FeedbackCandidate → Text
render_message resolved_topic source = source.meeting_date ++ codes " 회의에서 유사한 이슈가 이미 해결되었습니다."
render_message decision_reminder source = source.meeting_date ++ codes " 회의에서 이 안건이 이미 결정되었습니다."
render_message duplicate_discussion source = source.meeting_date ++ codes " 회의에 비슷한 논의가 있습니다."

-- `min` and `max` of a list.
unfoldable pub least : List ℕ → Raises ℕ
least [] = raised (other (codes "ValueError"))
least (x ∷ []) = returned x
least (x ∷ y ∷ ys) = least (y ∷ ys) >>= (λ rest. returned (min x rest))

unfoldable pub greatest : List ℕ → Raises ℕ
greatest [] = raised (other (codes "ValueError"))
greatest (x ∷ []) = returned x
greatest (x ∷ y ∷ ys) = greatest (y ∷ ys) >>= (λ rest. returned (max x rest))

unfoldable pub first_vector {ℓ} : {A : Type ℓ} → List A → Raises A
first_vector [] = raised (other (codes "IndexError"))
first_vector (vector ∷ vectors) = returned vector

module _ (ports : Ports) where
  open ports use {
    embed, search, score_threshold, allow_semantic_fallback, uuid_text, lower, find_tokens,
  }

  unfoldable pub query_of : MeetingFeedbackCommand → Text
  query_of command =
      strip (join (codes "\n") (map (λ segment. strip segment.text) command.transcript_window))

  -- A set, as a list without repetition.
  unfoldable pub meaningful_terms : Text → List Text
  unfolding dedupe
  meaningful_terms text =
      dedupe (λ token. token) []
        (select (λ token. not (contains token stop_words)) (find_tokens (lower text)))

  unfoldable pub shared_terms : Text → Text → List Text
  unfolding meaningful_terms
  shared_terms query snippet =
      let others = meaningful_terms snippet in
      select (λ term. contains term others) (meaningful_terms query)

  unfoldable pub classify_feedback_type : Text → Text → Option FeedbackType
  unfolding mentions shared_terms
  classify_feedback_type query snippet =
      let shared = shared_terms query snippet in
      if mentions resolved_words (lower snippet)
      then some resolved_topic
      else if mentions decided_words (lower snippet)
      then some decision_reminder
      else if leb 2 (length shared) || not (null (select (λ term. leb 4 (length term)) shared))
      then some duplicate_discussion
      else none

  -- With the fallback a candidate of no type counts as a repeated discussion.
  unfoldable pub type_or_fallback : Option FeedbackType → List FeedbackType
  type_or_fallback (some type) = type ∷ []
  type_or_fallback none = if allow_semantic_fallback then duplicate_discussion ∷ [] else []

  unfoldable pub qualify : Text → List FeedbackCandidate → List (FeedbackCandidate × FeedbackType)
  unfolding classify_feedback_type type_or_fallback
  qualify query [] = []
  qualify query (candidate ∷ candidates) =
      let rest = qualify query candidates in
      if ltb candidate.score score_threshold
      then rest
      else map (λ type. (candidate, type))
          (type_or_fallback (classify_feedback_type query candidate.snippet))
        ++ rest

  unfoldable pub feedback_of :
      Uuid
      → Moment
      → MeetingFeedbackCommand
      → List (FeedbackCandidate × FeedbackType)
      → Raises (Option MeetingFeedbackResult)
  unfolding compact_source render_message least greatest sorted_users
  feedback_of feedback_id now command [] = returned none
  feedback_of feedback_id now command ((top, type) ∷ rest) = do
    from_sequence ← least (map (λ segment. segment.sequence) command.transcript_window)
    to_sequence ← greatest (map (λ segment. segment.sequence) command.transcript_window)
    returned (
        some (record {
          feedback_id = feedback_id;
          meeting_id = command.meeting_id;
          session_id = command.session_id;
          feedback_type = type;
          message = render_message type top;
          sources =
              map (λ qualified. compact_source qualified.0)
                (take max_feedback_sources ((top, type) ∷ rest));
          audience_user_ids = sorted_users uuid_text command.participant_user_ids;
          from_sequence = from_sequence;
          to_sequence = to_sequence;
          generated_at = now;
        }))

  unfoldable pub candidates_of : MeetingFeedbackCommand → Raises (List FeedbackCandidate)
  unfolding query_of first_vector
  candidates_of command = do
    vectors ← embed (query_of command)
    vector ← first_vector vectors
    search vector (query_of command) command

  unfoldable pub execute :
      Uuid → Moment → MeetingFeedbackCommand → Raises (Option MeetingFeedbackResult)
  unfolding candidates_of query_of qualify feedback_of
  execute feedback_id now command =
      if null (query_of command)
      then returned none
      else candidates_of command >>= (λ candidates.
        feedback_of feedback_id now command (qualify (query_of command) candidates))
