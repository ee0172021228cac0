-- ===== src/Workflows/MinutesGeneration.antt =====
-- app/workflows/minutes_generation.py: `MinutesGenerationWorkflow`. The context loader and the structured
-- generation port are parameters. The prompt is made from the version, the context and the segments, so
-- that the port takes these; `none` is an output that does not fit the schema.
pub mod Result
use be25_fin_thanos_meetbowl.Prelude.{
  ℕ, Bool, Option, none, some, List, [], ◌∷◌, map, not, null, select, if◌then◌else◌,
}
use be25_fin_thanos_meetbowl.Text.{Text, codes, strip, join}
use be25_fin_thanos_meetbowl.Errors.{
  Raises, returned, raised, ai, context_not_found_error, response_validation_error, ◌>>=◌,
}
use be25_fin_thanos_meetbowl.Schemas.{Moment}
use be25_fin_thanos_meetbowl.Schemas.Minutes.{
  TranscriptSegment, MinutesEvidence, MinutesGenerationCommand, MinutesGenerationContext,
  MinutesGenerationResult,
}
use be25_fin_thanos_meetbowl.Pipelines.Evidence.{
  if_present, finalize_minutes_evidence, evidence_to_minutes_draft,
}
use be25_fin_thanos_meetbowl.Pipelines.Quality.{finalize_minutes_draft}
use be25_fin_thanos_meetbowl.Pipelines.Transcript.{
  normalize_raw_transcript, transcript_to_segments, mark_suspicious_segments,
}
use be25_fin_thanos_meetbowl.Pipelines.Tiptap.{minutes_draft_to_tiptap}

-- What the workflow is built with, and `str.casefold` and `str.isalpha`.
pub record Ports : Type 0 where
  pub load : MinutesGenerationCommand → Raises MinutesGenerationContext
  pub generate_structured :
      Text
      → MinutesGenerationContext
      → List TranscriptSegment
      → Raises (Option MinutesEvidence × Text)
  pub prompt_version : Text
  pub casefold : Text → Text
  pub is_alpha : ℕ → Bool

-- `segment.source_text and segment.source_text.strip()`
unfoldable pub segments_from_context : MinutesGenerationContext → List TranscriptSegment
segments_from_context context =
    select (λ segment. not (null (strip segment.source_text))) context.segments

-- The transcript that counts: that of the segments, if there are any.
unfoldable pub transcript_of : MinutesGenerationContext → List TranscriptSegment → Text
unfolding normalize_raw_transcript
transcript_of context [] = normalize_raw_transcript context.raw_transcript
transcript_of context (segment ∷ segments) =
    normalize_raw_transcript (join (codes "\n") (map (λ s. s.source_text) (segment ∷ segments)))

unfoldable pub segments_or_lines : Text → List TranscriptSegment → List TranscriptSegment
unfolding transcript_to_segments
segments_or_lines raw_transcript [] = transcript_to_segments raw_transcript
segments_or_lines raw_transcript (segment ∷ segments) = segment ∷ segments

-- `MinutesEvidence.model_validate`
unfoldable pub valid_output : Option MinutesEvidence → Raises MinutesEvidence
valid_output none = raised (ai (response_validation_error (codes "AI 응답 스키마 검증에 실패했습니다.")))
valid_output (some evidence) = returned evidence

module _ (ports : Ports) where
  open ports use {load, generate_structured, prompt_version, casefold, is_alpha}

  unfoldable pub prepared_segments : MinutesGenerationContext → Text → List TranscriptSegment
  unfolding segments_or_lines segments_from_context mark_suspicious_segments
  prepared_segments context raw_transcript =
      mark_suspicious_segments is_alpha
        (segments_or_lines raw_transcript (segments_from_context context))

  -- From the output of the model on.
  unfoldable pub finish :
      Moment
      → Text
      → MinutesGenerationContext
      → List TranscriptSegment
      → Text
      → Option MinutesEvidence × Text
      → Raises MinutesGenerationResult
  unfolding valid_output
  finish now raw_transcript context segments version (output, model_name) = do
    evidence ← valid_output output
    converted ←
        evidence_to_minutes_draft casefold (finalize_minutes_evidence casefold evidence segments)
    draft ← finalize_minutes_draft casefold raw_transcript converted
    editor_content ← minutes_draft_to_tiptap draft
    returned (record {
      meeting_id = context.meeting_id;
      organization_id = context.organization_id;
      reviewer_user_id = context.reviewer_user_id;
      minutes_draft = draft;
      editor_content = editor_content;
      model = model_name;
      prompt_version = version;
      generated_at = now;
    })

  unfoldable pub generate :
      Moment → MinutesGenerationCommand → MinutesGenerationContext → Raises MinutesGenerationResult
  unfolding finish transcript_of segments_from_context prepared_segments
  generate now command context =
      let raw_transcript = transcript_of context (segments_from_context context) in
      let version = if_present (λ v. v) prompt_version command.prompt_version in
      let context' = record context { raw_transcript = raw_transcript } in
      let segments = prepared_segments context raw_transcript in
      if null raw_transcript
      then raised (ai (context_not_found_error (codes "회의록을 생성할 회의 원문이 없습니다.")))
      else generate_structured version context' segments
        >>= finish now raw_transcript context' segments version

  unfoldable pub execute : Moment → MinutesGenerationCommand → Raises MinutesGenerationResult
  unfolding generate
  execute now command = load command >>= generate now command
