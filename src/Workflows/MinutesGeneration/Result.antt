-- ===== src/Workflows/MinutesGeneration/Result.antt =====
-- What a generated result promises.
use be25_fin_thanos_meetbowl.Prelude.{
  ◌≡◌, refl, inl, inr, false, Option, List, Bool-cases, nat_eq, list_eq, option_eq, pair_eq, null,
}
use be25_fin_thanos_meetbowl.Text.{Text}
use be25_fin_thanos_meetbowl.Errors.{returned-eq, returned, >>=-eq-returned}
use be25_fin_thanos_meetbowl.Schemas.{Moment}
use be25_fin_thanos_meetbowl.Schemas.Minutes.{
  TranscriptSegment, MinutesEvidence, MinutesDraft, MinutesGenerationCommand,
  MinutesGenerationContext, MinutesGenerationResult,
}
use be25_fin_thanos_meetbowl.Pipelines.Evidence.{
  finalize_minutes_evidence, evidence_to_minutes_draft,
}
use be25_fin_thanos_meetbowl.Pipelines.Evidence.Grounding.{IsGrounded, finalize-IsGrounded}
use be25_fin_thanos_meetbowl.Pipelines.Quality.{finalize_minutes_draft}
use be25_fin_thanos_meetbowl.Pipelines.Quality.Accepted.{IsAccepted, finalize-IsAccepted}
use be25_fin_thanos_meetbowl.Pipelines.Tiptap.{minutes_draft_to_tiptap}
use be25_fin_thanos_meetbowl.Workflows.MinutesGeneration.{
  Ports, transcript_of, segments_from_context, prepared_segments, valid_output, finish, generate,
  execute,
}

module _ (ports : Ports) where
  open ports use {load, generate_structured, prompt_version, casefold}

  -- The draft comes from grounded evidence, it is accepted, and the editor shows it.
  pub record IsDelivered (raw_transcript : Text) (segments : List TranscriptSegment)
      (result : MinutesGenerationResult) : Type 0 where
    pub evidence : MinutesEvidence
    pub grounded : IsGrounded casefold segments evidence
    pub converted : MinutesDraft
    pub converts : evidence_to_minutes_draft casefold evidence ≡ returned converted
    pub refined :
        finalize_minutes_draft casefold raw_transcript converted ≡ returned result.minutes_draft
    pub accepted : IsAccepted casefold raw_transcript result.minutes_draft
    pub shown : minutes_draft_to_tiptap result.minutes_draft ≡ returned result.editor_content

  finish-IsDelivered :
      (now : Moment) (raw_transcript : Text) (context : MinutesGenerationContext)
      (segments : List TranscriptSegment) (version : Text) (output : Option MinutesEvidence × Text)
      (result : MinutesGenerationResult)
      → finish ports now raw_transcript context segments version output ≡ returned result
      → IsDelivered raw_transcript segments result × (result.meeting_id ≡ context.meeting_id)
  unfolding finish
  finish-IsDelivered now raw_transcript context segments version (output, model) result h =
      let (evidence, _, h₁) = >>=-eq-returned (valid_output output) _ h in
      let kept = finalize_minutes_evidence casefold evidence segments in
      let (converted, converts, h₂) =
        >>=-eq-returned (evidence_to_minutes_draft casefold kept) _ h₁ in
      let (draft, refined, h₃) =
        >>=-eq-returned (finalize_minutes_draft casefold raw_transcript converted) _ h₂ in
      let (editor, shown, h₄) = >>=-eq-returned (minutes_draft_to_tiptap draft) _ h₃ in
      let (accepted, _) = finalize-IsAccepted casefold raw_transcript converted draft refined in
      rw (← returned-eq h₄) (
        record {
          evidence = kept;
          grounded = finalize-IsGrounded casefold segments evidence;
          converted = converted;
          converts = converts;
          refined = refined;
          accepted = accepted;
          shown = shown;
        },
        refl,
      )

  -- A result comes from a context that was loaded, with a transcript that is not empty; the draft is made
  -- from evidence that is grounded in the segments, it has passed the quality gate, and the editor's
  -- document is the conversion of this draft.
  pub execute-IsDelivered :
      (now : Moment) (command : MinutesGenerationCommand) (result : MinutesGenerationResult)
      → execute ports now command ≡ returned result
      → (context : MinutesGenerationContext) × (load command ≡ returned context)
        × (null (transcript_of context (segments_from_context context)) ≡ false)
        × (result.meeting_id ≡ context.meeting_id)
        × IsDelivered
            (transcript_of context (segments_from_context context))
            (prepared_segments ports context
              (transcript_of context (segments_from_context context)))
            result
  unfolding execute generate
  execute-IsDelivered now command result h =
      let (context, loaded, h₁) = >>=-eq-returned (load command) _ h in
      elim (Bool-cases (null (transcript_of context (segments_from_context context)))) [
        | inl empty ↦ cc (rw empty at h₁)
        | inr full ↦
            let (output, _, h₂) = >>=-eq-returned (generate_structured _ _ _) _ (rw full at h₁) in
            let (delivered, meeting) =
              finish-IsDelivered now (transcript_of context (segments_from_context context))
                (record context {
                  raw_transcript = transcript_of context (segments_from_context context);
                })
                _ _ output result h₂ in
            (context, loaded, full, meeting, delivered)
      ]
