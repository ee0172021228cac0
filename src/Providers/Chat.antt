-- ===== src/Providers/Chat.antt =====
-- app/providers/pydantic_ai_chat.py: `PydanticAiChatProvider.answer`, the retries and the errors. The agent
-- is a parameter with a state of its own; a run tells what its tools found, one list per call that
-- searched or listed documents, and how it ended.
pub mod Retry
pub mod Answer
use be25_fin_thanos_meetbowl.Prelude.{
  ℕ, zero, suc, ◌^◌, Bool, false, not, ◌&&◌, Option, none, some, List, [], ◌∷◌, map, nat_beq,
  if◌then◌else◌, nat_eq, contains, null, all,
}
use be25_fin_thanos_meetbowl.Text.{Text, codes}
use be25_fin_thanos_meetbowl.Errors.{
  Raises, returned, raised, Exception, ai, other, provider_unavailable_error,
}
use be25_fin_thanos_meetbowl.Schemas.Chat.{
  ChatCommand, ChatMessage, ChatSource, ChatResult, GeneratedChatAnswer, Role, user, assistant,
  validate_result,
}
use be25_fin_thanos_meetbowl.Providers.Citations.{accumulate_sources, select_cited_sources}
use be25_fin_thanos_meetbowl.Providers.AnswerFormat.{Patterns, normalize_answer_format}

pub data ModelMessage : Type 0 where
  request response : Text → ModelMessage

-- What a fallback over several models collects: an HTTP error with its status, or another one.
pub data Cause : Type 0 where
  http_cause : ℕ → Cause
  other_cause : Cause

pub data AgentError : Type 0 where
  model_http_error : ℕ → AgentError
  fallback_group : List Cause → AgentError
  usage_limit_exceeded : AgentError
  other_error : Exception → AgentError

pub data Outcome : Type 0 where
  output : GeneratedChatAnswer → Outcome
  failed : AgentError → Outcome

pub record Run : Type 0 where
  pub batches : List (List ChatSource)
  pub outcome : Outcome

pub record Agent : Type 1 where
  pub World : Type 0
  pub run : Text → Option (List ModelMessage) → World → Run × World

unfoldable pub is_retryable_status : ℕ → Bool
is_retryable_status status = contains status (429 ∷ 503 ∷ [])

unfoldable pub cause_is_overload : Cause → Bool
unfolding is_retryable_status
cause_is_overload (http_cause status) = is_retryable_status status
cause_is_overload other_cause = false

unfoldable pub is_retryable_overload : AgentError → Bool
unfolding is_retryable_status cause_is_overload
is_retryable_overload (model_http_error status) = is_retryable_status status
is_retryable_overload (fallback_group causes) = not (null causes) && all cause_is_overload causes
is_retryable_overload usage_limit_exceeded = false
is_retryable_overload (other_error error) = false

unfoldable pub to_model_message : ChatMessage → ModelMessage
to_model_message message = elim message.role [
  | user ↦ request message.content
  | assistant ↦ response message.content
]

-- `_to_model_messages(history) or None`
unfoldable pub to_model_messages : List ChatMessage → Option (List ModelMessage)
unfolding to_model_message
to_model_messages [] = none
to_model_messages (message ∷ messages) = some (map to_model_message (message ∷ messages))

-- The list that the tools fill, call by call.
unfoldable pub accumulate_batches : List ChatSource → List (List ChatSource) → List ChatSource
unfolding accumulate_sources
accumulate_batches accumulated [] = accumulated
accumulate_batches accumulated (batch ∷ batches) =
    accumulate_batches (accumulate_sources accumulated batch) batches

-- The exception that goes on as it is.
unfoldable pub error_of : AgentError → Exception
error_of (model_http_error status) = other (codes "ModelHTTPError")
error_of (fallback_group causes) = other (codes "FallbackExceptionGroup")
error_of usage_limit_exceeded =
    ai (provider_unavailable_error (codes "질문 처리에 필요한 검색 단계가 너무 많습니다. 질문을 나누어 다시 시도해주세요."))
error_of (other_error error) = error

abbrev pub overloaded : Exception
overloaded = ai (provider_unavailable_error (codes "Gemini가 일시적으로 응답하지 못했습니다. 잠시 후 다시 시도해주세요."))

module _ (agent : Agent) where
  open agent use {World, run}

  -- `waits` are the pauses, in units of the backoff, the last one first.
  pub record State : Type 0 where
    pub world : World
    pub retrieved_sources : List ChatSource
    pub waits : List ℕ

  -- After the run of one attempt; `again` is what the attempts after it give.
  unfoldable pub judge :
      ℕ
      → ℕ
      → Outcome
      → State
      → Raises GeneratedChatAnswer × State
      → Raises GeneratedChatAnswer × State
  unfolding is_retryable_overload error_of
  judge max_retries attempt (output answer) s again = (returned answer, s)
  judge max_retries attempt (failed error) s again =
      if not (is_retryable_overload error)
      then (raised (error_of error), s)
      else if nat_beq attempt max_retries
      then (raised overloaded, s)
      else again

  unfoldable pub after_run : State → Run × World → State
  unfolding accumulate_batches
  after_run s (r, world) = record s {
    world = world;
    retrieved_sources = accumulate_batches s.retrieved_sources r.batches;
  }

  -- The wait before the next attempt, with the sources cleared.
  unfoldable pub before_retry : ℕ → State → State
  before_retry attempt s = record s { retrieved_sources = []; waits = 2 ^ attempt ∷ s.waits }

  module _ (max_retries : ℕ) (question : Text) (message_history : Option (List ModelMessage)) where
    -- The attempts from `attempt` on, as many as are left. A loop that ends has no result to read.
    unfoldable pub attempts : ℕ → ℕ → State → Raises GeneratedChatAnswer × State
    unfolding judge after_run before_retry
    attempts zero attempt s = (raised (other (codes "AttributeError")), s)
    attempts (suc left) attempt s =
        let ran = run question message_history s.world in
        let s' = after_run s ran in
        judge max_retries attempt ran.0.outcome s'
          (attempts left (suc attempt) (before_retry attempt s'))

  unfoldable pub run_with_retry : ℕ → ChatCommand → State → Raises GeneratedChatAnswer × State
  unfolding attempts to_model_messages
  run_with_retry max_retries command s =
      attempts max_retries command.question (to_model_messages command.message_history)
        (suc max_retries) 0 s

  abbrev pub start : World → State
  start world = record { world = world; retrieved_sources = []; waits = [] }

  unfoldable pub result_of :
      Patterns → Text → Text → Raises GeneratedChatAnswer × State → Raises ChatResult × State
  unfolding normalize_answer_format select_cited_sources validate_result
  result_of patterns model_name prompt_version (returned generated, s) = (
    validate_result (record {
      answer = normalize_answer_format patterns generated.answer;
      sources = select_cited_sources s.retrieved_sources generated.cited_indices;
      model = model_name;
      prompt_version = prompt_version;
    }),
    s,
  )
  result_of patterns model_name prompt_version (raised error, s) = (raised error, s)

  unfoldable pub answer :
      Patterns → Text → Text → ℕ → ChatCommand → World → Raises ChatResult × State
  unfolding run_with_retry result_of
  answer patterns model_name prompt_version max_retries command world =
      result_of patterns model_name prompt_version
        (run_with_retry max_retries command (start world))
