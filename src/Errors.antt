-- ===== src/Errors.antt =====
-- app/core/errors.py: the errors that the program raises, and computations that may raise.
use be25_fin_thanos_meetbowl.Prelude.{ℕ, ◌≡◌, refl, Bool, true, false, if◌then◌else◌}
use be25_fin_thanos_meetbowl.Text.{Text, codes}

-- The subclasses of `AiError`; `base` is the class itself, and a stage error carries its stage.
pub data ErrorClass : Type 0 where
  base context_not_found response_validation provider_unavailable : ErrorClass
  model_profile_not_configured response_parse document_index_failed : ErrorClass
  document_index_stage : Text → ErrorClass

pub record AiError : Type 0 where
  pub class : ErrorClass
  pub code : Text
  pub message : Text
  pub retryable : Bool
  pub status_code : ℕ

-- `AiError(code, message)` with the defaults of the keyword arguments.
abbrev pub ai_error : Text → Text → AiError
ai_error code message = record {
  class = base;
  code = code;
  message = message;
  retryable = false;
  status_code = 500;
}

abbrev pub context_not_found_error : Text → AiError
context_not_found_error message = record {
  class = context_not_found;
  code = codes "AI_CONTEXT_NOT_FOUND";
  message = message;
  retryable = true;
  status_code = 404;
}

abbrev pub response_validation_error : Text → AiError
response_validation_error message = record {
  class = response_validation;
  code = codes "AI_RESPONSE_VALIDATION_FAILED";
  message = message;
  retryable = false;
  status_code = 502;
}

abbrev pub provider_unavailable_error : Text → AiError
provider_unavailable_error message = record {
  class = provider_unavailable;
  code = codes "AI_PROVIDER_UNAVAILABLE";
  message = message;
  retryable = true;
  status_code = 503;
}

abbrev pub document_index_failed_error : Text → Bool → AiError
document_index_failed_error message retryable = record {
  class = document_index_failed;
  code = codes "AI_DOCUMENT_INDEX_FAILED";
  message = message;
  retryable = retryable;
  status_code = if retryable then 503 else 500;
}

-- The stage is added; code, message, retryability and status are those of the cause.
abbrev pub document_index_stage_error : Text → AiError → AiError
document_index_stage_error stage cause = record cause { class = document_index_stage stage }

-- What Python code can raise: an `AiError`, or any other exception, by the name of its class.
pub data Exception : Type 0 where
  ai : AiError → Exception
  other : Text → Exception

pub data Raises {ℓ} (A : Type ℓ) : Type ℓ where
  returned : A → Raises A
  raised : Exception → Raises A

infixl 5 ◌>>=◌
abbrev pub ◌>>=◌ {ℓ κ} : {A : Type ℓ} {B : Type κ} → Raises A → (A → Raises B) → Raises B
returned a >>= f = f a
raised x >>= f = raised x

-- `try: m except AiError as exc: raise DocumentIndexStageError(stage, exc) from exc`
abbrev pub at_stage {ℓ} : {A : Type ℓ} → Text → Raises A → Raises A
at_stage stage (returned a) = returned a
at_stage stage (raised (ai error)) = raised (ai (document_index_stage_error stage error))
at_stage stage (raised (other name)) = raised (other name)

-- Inversion of a successful chain, for proofs where the parts stay shut.
pub >>=-eq-returned {ℓ κ} :
    {A : Type ℓ} {B : Type κ} (m : Raises A) (f : A → Raises B) {b : B}
    → (m >>= f) ≡ returned b
    → (a : A) × (m ≡ returned a) × (f a ≡ returned b)
>>=-eq-returned (returned a) f h = (a, refl, h)
>>=-eq-returned (raised x) f h = cc

pub returned-eq {ℓ} : {A : Type ℓ} {a b : A} → returned a ≡ returned b → a ≡ b
returned-eq h = cc
