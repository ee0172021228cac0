-- ===== src/Providers/ContextLoader/Matching.antt =====
-- The context of a command is of its meeting, and so are the minutes.
use be25_fin_thanos_meetbowl.Prelude.{
  ◌≡◌, refl, ◌∙◌, inl, inr, ◌&&◌, Option, some, List, arith, null, some_eq, Bool-cases,
  Option-cases, ◌==◌, nat_eq, list_eq, option_eq, pair_eq, beq_sound,
}
use be25_fin_thanos_meetbowl.Text.{Text}
use be25_fin_thanos_meetbowl.Errors.{returned, returned-eq, >>=-eq-returned}
use be25_fin_thanos_meetbowl.Schemas.{Uuid, Moment}
use be25_fin_thanos_meetbowl.Schemas.Minutes.{
  Participant, MinutesGenerationCommand, MinutesGenerationContext, MinutesGenerationResult,
}
use be25_fin_thanos_meetbowl.Workflows.MinutesGeneration.{Ports, execute}
use be25_fin_thanos_meetbowl.Workflows.MinutesGeneration.Result.{execute-IsDelivered}
use be25_fin_thanos_meetbowl.Providers.ContextLoader.{
  Response, request, parse_response, ensure_event_matches_context, inline_of, inline_context,
  loaded, load, validate_context,
}

-- Of the meeting, the organization and the reviewer that the command names.
abbrev pub Matches : MinutesGenerationCommand → MinutesGenerationContext → Type 0
Matches command context =
    (context.meeting_id ≡ command.meeting_id)
    × (context.organization_id ≡ command.organization_id)
    × (context.reviewer_user_id ≡ command.reviewer_user_id)

ensure-Matches :
    (command : MinutesGenerationCommand) (context found : MinutesGenerationContext)
    → ensure_event_matches_context command context ≡ returned found
    → Matches command found
unfolding ensure_event_matches_context
ensure-Matches command context found h =
    elim (Bool-cases (
      context.meeting_id == command.meeting_id
      && (context.organization_id == command.organization_id
          && context.reviewer_user_id == command.reviewer_user_id))) [
            | inr differs ↦ cc (rw differs at h)
            | inl same ↦ rw (← returned-eq (rw same at h)) (
              beq_sound context.meeting_id command.meeting_id (ground arith),
              beq_sound context.organization_id command.organization_id (ground arith),
              beq_sound context.reviewer_user_id command.reviewer_user_id (ground arith),
            )
          ]

validate_context-eq-returned :
    (context found : MinutesGenerationContext)
    → validate_context context ≡ returned found
    → context ≡ found
unfolding validate_context
validate_context-eq-returned context found h = elim (Bool-cases (null context.title)) [
  | inl untitled ↦ cc (rw untitled at h)
  | inr titled ↦ returned-eq (rw titled at h)
]

inline-Matches :
    (command : MinutesGenerationCommand) (host : Option Uuid) (title : Option Text)
    (started ended : Option Moment) (participants : Option (List Participant))
    (transcript : Option Text) (found : MinutesGenerationContext)
    → inline_of command host title started ended participants transcript ≡ some found
    → Matches command found
unfolding inline_of
inline-Matches command (some a) (some b) (some c) (some d) (some e) (some f) found h =
    rw (← some_eq h) (refl, refl, refl)
inline-Matches command _ _ _ _ _ _ found h = cc

module _ (get : Uuid → Option Response) where
  load-Matches :
      (command : MinutesGenerationCommand) (context : MinutesGenerationContext)
      → load get command ≡ returned context
      → Matches command context
  unfolding load loaded inline_context
  load-Matches command context h = elim (Option-cases (inline_context command)) [
    | inr (inline, there) ↦
        rw (← validate_context-eq-returned inline context (rw there at h))
          (inline-Matches command _ _ _ _ _ _ inline there)
    | inl absent ↦
        let (response, _, h₁) =
          >>=-eq-returned (request (get command.meeting_id)) _ (rw absent at h) in
        let (parsed, _, h₂) = >>=-eq-returned (parse_response response) _ h₁ in
        ensure-Matches command parsed context h₂
  ]

  -- Minutes that the workflow generates with this loader, from a context that the command carries or
  -- that the meeting server gives, are those of the command's meeting.
  pub minutes-Matches :
      (ports : Ports) (now : Moment) (command : MinutesGenerationCommand)
      (result : MinutesGenerationResult)
      → execute (record ports { load = load get }) now command ≡ returned result
      → result.meeting_id ≡ command.meeting_id
  minutes-Matches ports now command result h =
      let (context, loaded_, _, meeting, _) =
        execute-IsDelivered (record ports { load = load get }) now command result h in
      meeting ∙ (load-Matches command context loaded_).0
