-- ===== src/Providers/Routing.antt =====
-- The providers that hand a request on: app/providers/routing_chat.py with app/rag/chat_router.py and
-- app/workflows/chat.py, app/providers/fallback_structured_generation.py,
-- app/providers/structured_generation_router.py and app/providers/embedding_router.py. The regular
-- expressions of the chat router are parameters.
pub mod Handed
use be25_fin_thanos_meetbowl.Prelude.{
  Bool, true, false, ◌&&◌, ◌||◌, none, some, ◌++◌, if◌then◌else◌, nat_eq, list_eq,
}
use be25_fin_thanos_meetbowl.Prelude.Dict.{Dict, lookup}
use be25_fin_thanos_meetbowl.Text.{Text, codes}
use be25_fin_thanos_meetbowl.Errors.{
  Raises, returned, raised, ai, other, AiError, ErrorClass, provider_unavailable,
  model_profile_not_configured,
}
use be25_fin_thanos_meetbowl.Schemas.Chat.{ChatCommand, ChatResult}

pub data Mode : Type 0 where
  no_search single_pass agentic : Mode

-- A field per pattern: whether it is found in a text.
pub record Patterns : Type 0 where
  pub greeting : Text → Bool
  pub chat_help : Text → Bool
  pub chat_identity : Text → Bool
  pub counting : Text → Bool
  pub listing : Text → Bool
  pub recency : Text → Bool
  pub create_or_show : Text → Bool

unfoldable pub route_chat_mode : Patterns → Text → Mode
route_chat_mode patterns question =
    if patterns.greeting question
      || (patterns.chat_help question || patterns.chat_identity question)
    then no_search
    else if patterns.counting question || patterns.listing question
    then agentic
    else if patterns.recency question && patterns.create_or_show question
    then agentic
    else single_pass

-- `RoutingChatProvider.answer`
unfoldable pub route_answer :
    Patterns
    → (ChatCommand → Raises ChatResult)
    → (ChatCommand → Raises ChatResult)
    → ChatCommand
    → Raises ChatResult
unfolding route_chat_mode
route_answer patterns single_pass_answer agentic_answer command =
    elim (route_chat_mode patterns command.question) [
      | no_search ↦ agentic_answer command
      | single_pass ↦ single_pass_answer command
      | agentic ↦ agentic_answer command
    ]

-- `ChatWorkflow.execute`
unfoldable pub execute_chat : (ChatCommand → Raises ChatResult) → ChatCommand → Raises ChatResult
execute_chat answer command = answer command

abbrev pub model_profile_not_configured_error : Text → AiError
model_profile_not_configured_error model_profile = record {
  class = model_profile_not_configured;
  code = codes "AI_MODEL_PROFILE_NOT_CONFIGURED";
  message = codes "AI 모델 프로필이 설정되지 않았습니다: " ++ model_profile;
  retryable = false;
  status_code = 500;
}

abbrev pub is_unavailable : ErrorClass → Bool
is_unavailable provider_unavailable = true
is_unavailable _ = false

module _ {ℓ κ} {Request : Type ℓ} {Result : Type κ} where
  -- After the first of two generators: only an unavailable provider goes on to the second.
  unfoldable pub or_fallback : (Request → Raises Result) → Request → Raises Result → Raises Result
  or_fallback fallback request (returned result) = returned result
  or_fallback fallback request (raised (other name)) = raised (other name)
  or_fallback fallback request (raised (ai error)) =
      if is_unavailable error.class then fallback request else raised (ai error)

  -- `FallbackStructuredGenerationProvider.generate_structured`
  unfoldable pub generate_with_fallback :
      (Request → Raises Result) → (Request → Raises Result) → Request → Raises Result
  unfolding or_fallback
  generate_with_fallback primary fallback request = or_fallback fallback request (primary request)

  -- `generate_structured` and `embed` of the two routers, with the profile of the request.
  unfoldable pub route_profile :
      Dict Text (Request → Raises Result) → Text → Request → Raises Result
  unfolding lookup
  route_profile routes profile request = elim (lookup profile routes) [
    | none ↦ raised (ai (model_profile_not_configured_error profile))
    | some provider ↦ provider request
  ]
