-- ===== src/Schemas/Chat.antt =====
-- app/schemas/chat.py.
use be25_fin_thanos_meetbowl.Prelude.{
  ℕ, ◌+◌, ◌≤◌, ◌≡◌, refl, inl, inr, arith, Bool-cases, Bool, true, false, ◌&&◌, List, [], ◌∷◌,
  Option, leb, length, if◌then◌else◌,
}
use be25_fin_thanos_meetbowl.Text.{Text, codes}
use be25_fin_thanos_meetbowl.Errors.{Raises, returned, raised, other, returned-eq}
use be25_fin_thanos_meetbowl.Schemas.{Uuid, Score}

pub data ChatSourceType : Type 0 where
  backup_mail minutes personal_memo personal_drive_file : ChatSourceType
  shared_workspace_file_version : ChatSourceType

pub data Role : Type 0 where
  user assistant : Role

pub record ChatMessage : Type 0 where
  pub role : Role
  pub content : Text

pub record ChatCommand : Type 0 where
  pub request_id : Uuid
  pub correlation_id : Uuid
  pub user_id : Uuid
  pub organization_id : Option Uuid
  pub question : Text
  pub message_history : List ChatMessage
  pub shared_workspace_ids : List Uuid

pub record ChatSource : Type 0 where
  pub type : ChatSourceType
  pub resource_id : Uuid
  pub title : Text
  pub snippet : Text
  pub score : Score

pub record ChatResult : Type 0 where
  pub answer : Text
  pub sources : List ChatSource
  pub model : Text
  pub prompt_version : Text

-- Within the bounds of the fields of `ChatResult`; the sources are sources already.
abbrev pub fits : ChatResult → Bool
fits result =
    (leb 1 (length result.answer) && leb (length result.answer) 20000)
    && leb (length result.sources) 20
    && (leb 1 (length result.model) && leb (length result.model) 100)
    && (leb 1 (length result.prompt_version) && leb (length result.prompt_version) 50)

-- `ChatResult(…)`
unfoldable pub validate_result : ChatResult → Raises ChatResult
validate_result result =
    if fits result then returned result else raised (other (codes "ValidationError"))

pub validate_result-eq-returned :
    (result valid : ChatResult) → validate_result result ≡ returned valid → result ≡ valid
unfolding validate_result
validate_result-eq-returned result valid h = elim (Bool-cases (fits result)) [
  | inl good ↦ returned-eq (rw good at h)
  | inr bad ↦ cc (rw bad at h)
]

pub validate_result-returned :
    (result : ChatResult)
    → (1 ≤ length result.answer) × (length result.answer ≤ 20000)
    → length result.sources ≤ 20
    → (1 ≤ length result.model) × (length result.model ≤ 100)
    → (1 ≤ length result.prompt_version) × (length result.prompt_version ≤ 50)
    → validate_result result ≡ returned result
unfolding validate_result
validate_result-returned result a s m v =
    let good : fits result ≡ true = ground arith in rw good refl

pub record GeneratedChatAnswer : Type 0 where
  pub answer : Text
  pub cited_indices : List ℕ

abbrev pub is_user : Role → Bool
is_user user = true
is_user assistant = false

abbrev pub same_role : Role → Role → Bool
same_role user user = true
same_role assistant assistant = true
same_role _ _ = false

-- `self.message_history[0].role != "user"`, if there is a message
abbrev pub starts_with_user : List ChatMessage → Bool
starts_with_user [] = true
starts_with_user (m ∷ ms) = is_user m.role

abbrev pub ends_with_assistant : List ChatMessage → Bool
ends_with_assistant [] = true
ends_with_assistant (m ∷ []) = same_role m.role assistant
ends_with_assistant (m ∷ n ∷ ms) = ends_with_assistant (n ∷ ms)

-- The loop over neighbours.
abbrev pub roles_alternate : List ChatMessage → Bool
roles_alternate [] = true
roles_alternate (m ∷ []) = true
roles_alternate (m ∷ n ∷ ms) =
    (if same_role m.role n.role then false else true) && roles_alternate (n ∷ ms)

abbrev pub content_length : List ChatMessage → ℕ
content_length [] = 0
content_length (m ∷ ms) = length m.content + content_length ms

-- `ChatCommand.validate_history`: whether the command is accepted.
unfoldable pub validate_history : ChatCommand → Bool
validate_history command =
    let history = command.message_history in
    starts_with_user history
    && ends_with_assistant history
    && roles_alternate history
    && leb (content_length history) 40000
