-- ===== src/Providers/ContextLoader.antt =====
-- app/providers/http_minutes_context_loader.py: `HttpMinutesContextLoader`. The HTTP client is a parameter,
-- `none` for an `httpx.RequestError`; pydantic's validation is part of the body that it gives.
pub mod Matching
use be25_fin_thanos_meetbowl.Prelude.{
  ℕ, Bool, true, false, ◌&&◌, Option, none, some, List, leb, nat_beq, null, if◌then◌else◌, ◌==◌,
  nat_eq, list_eq, option_eq,
}
use be25_fin_thanos_meetbowl.Text.{Text, codes}
use be25_fin_thanos_meetbowl.Errors.{
  Raises, returned, raised, Exception, ai, other, ai_error, AiError, context_not_found_error, ◌>>=◌,
}
use be25_fin_thanos_meetbowl.Schemas.{Uuid, Moment}
use be25_fin_thanos_meetbowl.Schemas.Minutes.{
  Participant, MinutesGenerationCommand, MinutesGenerationContext,
}
use be25_fin_thanos_meetbowl.Pipelines.Transcript.{transcript_to_segments}

-- The member `error` of a body: missing or an object without a text as its code, an object with a code, or
-- no object at all.
pub data ErrorMember : Type 0 where
  uncoded no_object : ErrorMember
  coded : Text → ErrorMember

-- A JSON object: its error, whether it tells of success, and its data if they are valid.
pub record Body : Type 0 where
  pub error : ErrorMember
  pub success : Bool
  pub context : Option MinutesGenerationContext

pub data Content : Type 0 where
  not_json other_json : Content
  object : Body → Content

pub record Response : Type 0 where
  pub status_code : ℕ
  pub body : Content

abbrev pub failure : Text → Text → Bool → ℕ → AiError
failure code message retryable status_code = record (ai_error code message) {
  retryable = retryable;
  status_code = status_code;
}

abbrev pub provider_unavailable : Text → AiError
provider_unavailable message = failure (codes "AI_CONTEXT_PROVIDER_UNAVAILABLE") message true 503

abbrev pub invalid_response : AiError
invalid_response =
    failure (codes "AI_CONTEXT_INVALID") (codes "회의록 생성 Context 응답이 올바르지 않습니다.") false 502

unfoldable pub request : Option Response → Raises Response
request none = raised (ai (provider_unavailable (codes "회의록 생성 Context API를 호출할 수 없습니다.")))
request (some response) = returned response

-- The error for a code, of an answer with a status between 400 and 499.
unfoldable pub error_for_code : Option Text → Exception
error_for_code error_code =
    if error_code == some (codes "MINUTES_TRANSCRIPT_REQUIRED")
    then ai (
        failure (codes "AI_CONTEXT_TRANSCRIPT_PENDING") (codes "Final Transcript 저장을 기다리고 있습니다.")
          true 503)
    else ai (failure (codes "AI_CONTEXT_INVALID") (codes "회의록 생성 Context를 조회할 수 없습니다.") false 422)

abbrev pub attribute_error : Exception
attribute_error = other (codes "AttributeError")

-- `.get` of a value that is no object raises, and nothing catches that.
unfoldable pub error_in : ErrorMember → Exception
unfolding error_for_code
error_in uncoded = error_for_code none
error_in no_object = attribute_error
error_in (coded code) = error_for_code (some code)

unfoldable pub client_error : Content → Exception
unfolding error_for_code error_in
client_error not_json = error_for_code none
client_error other_json = attribute_error
client_error (object body) = error_in body.error

unfoldable pub valid_data : Option MinutesGenerationContext → Raises MinutesGenerationContext
valid_data none = raised (ai invalid_response)
valid_data (some context) = returned context

unfoldable pub successful : Content → Raises MinutesGenerationContext
unfolding valid_data
successful not_json = raised (ai invalid_response)
successful other_json = raised attribute_error
successful (object body) =
    if body.success then valid_data body.context else raised (ai invalid_response)

unfoldable pub parse_response : Response → Raises MinutesGenerationContext
unfolding client_error successful
parse_response response =
    if nat_beq response.status_code 404
    then raised (ai (context_not_found_error (codes "회의록 생성 컨텍스트를 찾을 수 없습니다.")))
    else if leb 500 response.status_code
    then raised (ai (provider_unavailable (codes "회의록 생성 Context API가 일시적으로 실패했습니다.")))
    else if leb 400 response.status_code
    then raised (client_error response.body)
    else successful response.body

unfoldable pub ensure_event_matches_context :
    MinutesGenerationCommand → MinutesGenerationContext → Raises MinutesGenerationContext
ensure_event_matches_context command context =
    if context.meeting_id == command.meeting_id
      && (context.organization_id == command.organization_id
          && context.reviewer_user_id == command.reviewer_user_id)
    then returned context
    else raised (
        ai (
          failure (codes "AI_CONTEXT_MISMATCH") (codes "회의 종료 이벤트와 조회된 회의 Context가 일치하지 않습니다.")
            false 409))

-- The context that a command carries itself, if none of its parts is missing.
unfoldable pub inline_of :
    MinutesGenerationCommand
    → Option Uuid
    → Option Text
    → Option Moment
    → Option Moment
    → Option (List Participant)
    → Option Text
    → Option MinutesGenerationContext
unfolding transcript_to_segments
inline_of command (some host) (some title) (some started) (some ended) (some participants)
      (some transcript) =
    some (record {
      meeting_id = command.meeting_id;
      organization_id = command.organization_id;
      host_user_id = host;
      reviewer_user_id = command.reviewer_user_id;
      title = title;
      started_at = started;
      ended_at = ended;
      participants = participants;
      segments = transcript_to_segments transcript;
      raw_transcript = transcript;
    })
inline_of command _ _ _ _ _ _ = none

unfoldable pub inline_context : MinutesGenerationCommand → Option MinutesGenerationContext
unfolding inline_of
inline_context command =
    inline_of command command.host_user_id command.title command.started_at command.ended_at
      command.participants command.raw_transcript

-- `MinutesGenerationContext(…)` wants a title.
unfoldable pub validate_context : MinutesGenerationContext → Raises MinutesGenerationContext
validate_context context =
    if null context.title then raised (other (codes "ValidationError")) else returned context

module _ (get : Uuid → Option Response) where
  unfoldable pub loaded :
      MinutesGenerationCommand → Option MinutesGenerationContext → Raises MinutesGenerationContext
  unfolding request parse_response ensure_event_matches_context validate_context
  loaded command (some context) = validate_context context
  loaded command none = do
    response ← request (get command.meeting_id)
    context ← parse_response response
    ensure_event_matches_context command context

  unfoldable pub load : MinutesGenerationCommand → Raises MinutesGenerationContext
  unfolding loaded inline_context
  load command = loaded command (inline_context command)
