-- ===== src/Rag/QdrantFeedback.antt =====
-- app/rag/qdrant_feedback.py: `QdrantMeetingFeedbackRetriever`. The server, `str(UUID)` and the parser of
-- UUIDs are parameters. A value of a payload that is missing, or is of no use, is `none`.
pub mod Candidates
use be25_fin_thanos_meetbowl.Prelude.{
  min, ℕ, Option, none, some, List, [], ◌∷◌, ◌++◌, if◌then◌else◌, take, null,
}
use be25_fin_thanos_meetbowl.Text.{Text, codes, decimal, strip}
use be25_fin_thanos_meetbowl.Errors.{
  Raises, returned, raised, ai, provider_unavailable_error, ◌>>=◌,
}
use be25_fin_thanos_meetbowl.Schemas.{Uuid, Score}
use be25_fin_thanos_meetbowl.Schemas.Feedback.{FeedbackCandidate, MeetingFeedbackCommand}
use be25_fin_thanos_meetbowl.Rag.FeedbackFilter.{FeedbackFilter, build_feedback_access_filter}
use be25_fin_thanos_meetbowl.Rag.QdrantChat.{and_then, either, within}

pub record MinutesPayload : Type 0 where
  pub source_id : Option Text
  pub document_id : Option Text
  pub title : Option Text
  pub approved_at : Option Text
  pub meeting_id : Option Text
  pub snippet : Option Text
  pub content : Option Text

-- What stands for the score: nothing, a number (one below 0 is 0 here), or a value that is no number.
pub data RawScore : Type 0 where
  missing unreadable : RawScore
  number : Score → RawScore

pub record MinutesPoint : Type 0 where
  pub payload : MinutesPayload
  pub score : RawScore

pub record Query (Vector : Type 0) : Type 0 where
  pub vector : Vector
  pub access : FeedbackFilter
  pub limit : ℕ

-- The points, an `HTTPStatusError` with status and text, or another exception with its text.
pub data Answer : Type 0 where
  points : List MinutesPoint → Answer
  http_status : ℕ → Text → Answer
  failed : Text → Answer

pub record Server : Type 1 where
  pub Vector : Type 0
  pub ask : Query Vector → Answer
  pub uuid_text : Uuid → Text
  pub parse_uuid : Text → Option Uuid
  pub collection : Text
  pub candidate_limit : ℕ
  pub one : Score

abbrev pub text_or : Text → Option Text → Text
text_or default none = default
text_or default (some []) = default
text_or default (some (c ∷ cs)) = c ∷ cs

abbrev pub failed_search : Text → Text
failed_search detail = codes "Qdrant 피드백 검색에 실패했습니다. " ++ detail

unfoldable pub status_detail : Text → ℕ → Text → Text
status_detail collection status text =
    let response_text = strip text in
    let detail = codes "status=" ++ decimal status ++ codes ", collection=" ++ collection in
    if null response_text then detail else detail ++ codes ", body=" ++ take 500 response_text

-- `(approved_at or "")[:10] or "unknown"`
unfoldable pub meeting_date_of : Option Text → Text
meeting_date_of approved_at = text_or (codes "unknown") (some (take 10 (text_or [] approved_at)))

-- `max(0.0, min(1.0, float(score)))`
unfoldable pub score_of : Score → RawScore → Option Score
score_of one missing = some 0
score_of one unreadable = none
score_of one (number score) = some (min one score)

module _ (server : Server) where
  open server use {Vector, ask, uuid_text, parse_uuid, collection}

  -- `none` outside is a meeting that cannot be read, inside that there is none.
  unfoldable pub meeting_of : Option Text → Option (Option Uuid)
  meeting_of none = some none
  meeting_of (some []) = some none
  meeting_of (some (c ∷ cs)) = elim (parse_uuid (c ∷ cs)) [
    | none ↦ none
    | some meeting ↦ some (some meeting)
  ]

  unfoldable pub candidate_of :
      Option Uuid
      → Option (Option Uuid)
      → Option Text
      → Option Text
      → Option Text
      → Option Score
      → List FeedbackCandidate
  candidate_of (some minutes_id) (some meeting_id) (some title) (some meeting_date) (some snippet)
        (some score) =
      record {
        minutes_id = minutes_id;
        meeting_id = meeting_id;
        title = title;
        meeting_date = meeting_date;
        snippet = snippet;
        score = score;
      }
      ∷ []
  candidate_of _ _ _ _ _ _ = []

  -- A point without an identifier, or with values that do not fit, is passed over.
  unfoldable pub candidates_at : MinutesPoint → Option Text → List FeedbackCandidate
  unfolding candidate_of meeting_of meeting_date_of score_of within either
  candidates_at point none = []
  candidates_at point (some []) = []
  candidates_at point (some (c ∷ cs)) =
      candidate_of (parse_uuid (c ∷ cs)) (meeting_of point.payload.meeting_id)
        (and_then point.payload.title (within 255))
        (within 10 (meeting_date_of point.payload.approved_at))
        (within 2000 (take 2000 (text_or [] (either point.payload.snippet point.payload.content))))
        (score_of server.one point.score)

  unfoldable pub to_candidates : List MinutesPoint → List FeedbackCandidate
  unfolding candidates_at either
  to_candidates [] = []
  to_candidates (point ∷ rest) =
      candidates_at point (either point.payload.source_id point.payload.document_id)
      ++ to_candidates rest

  unfoldable pub candidates_in : Answer → Raises (List FeedbackCandidate)
  unfolding to_candidates status_detail
  candidates_in (points found) = returned (to_candidates found)
  candidates_in (http_status status text) =
      raised
        (ai (provider_unavailable_error (failed_search (status_detail collection status text))))
  candidates_in (failed reason) = raised (
      ai (
        provider_unavailable_error
          (failed_search (codes "collection=" ++ collection ++ codes ", reason=" ++ reason))))

  unfoldable pub search : Vector → Text → MeetingFeedbackCommand → Raises (List FeedbackCandidate)
  unfolding candidates_in build_feedback_access_filter
  search vector query command = candidates_in (
      ask (record {
        vector = vector;
        access = build_feedback_access_filter uuid_text command (uuid_text command.meeting_id);
        limit = server.candidate_limit;
      }))
