-- ===== src/Tests/Workflows.antt =====
-- Minutes generation from a transcript of one line.
use be25_fin_thanos_meetbowl.Providers.ContextLoader.{
  Response, object, uncoded, load, loaded, inline_context, inline_of, request, parse_response,
  successful, valid_data, ensure_event_matches_context,
}
use be25_fin_thanos_meetbowl.Providers.ContextLoader.Matching.{minutes-Matches}
use be25_fin_thanos_meetbowl.Prelude.{
  arith, ◌≡◌, refl, false, none, some, [], map, null, Distinct, list_eq, nat_eq, leb, ℕ, Option,
  true,
}
use be25_fin_thanos_meetbowl.Text.{Text, codes, splitlines, collapse, strip, join, is_infix}
use be25_fin_thanos_meetbowl.Dedupe.{dedupe}
use be25_fin_thanos_meetbowl.Errors.{returned}
use be25_fin_thanos_meetbowl.Schemas.Minutes.{
  MinutesEvidence, MinutesDraft, MinutesGenerationCommand, MinutesGenerationContext,
  MinutesGenerationResult, TiptapNodes, heading, paragraph, text, end, node,
}
use be25_fin_thanos_meetbowl.Pipelines.Evidence.{
  finalize_minutes_evidence, evidence_to_minutes_draft, refine_all, unique_preserve_order,
  action_items, agenda_item,
}
use be25_fin_thanos_meetbowl.Pipelines.Evidence.Converted.{evidence_to_minutes_draft-Returns}
use be25_fin_thanos_meetbowl.Pipelines.Quality.{
  finalize_minutes_draft, validate_summary_quality, refine_draft, clean_text, is_korean_dominant,
  refine_agenda_items, refine_decisions, refine_action_items, cleaned_actions,
}
use be25_fin_thanos_meetbowl.Pipelines.Transcript.{spoken_lines, transcript_to_segments}
use be25_fin_thanos_meetbowl.Pipelines.Transcript.Segments.{Numbered, transcript_to_segments_lem}
use be25_fin_thanos_meetbowl.Pipelines.Tiptap.{
  minutes_draft_to_tiptap, collect, draft_nodes, heading_node, paragraph_node, agenda_section,
  list_section,
}
use be25_fin_thanos_meetbowl.Pipelines.Tiptap.Total.{minutes_draft_to_tiptap-Returns}
use be25_fin_thanos_meetbowl.Workflows.MinutesGeneration.{
  Ports, execute, generate, transcript_of, segments_from_context, prepared_segments,
}
use be25_fin_thanos_meetbowl.Workflows.MinutesGeneration.Result.{IsDelivered, execute-IsDelivered}

abbrev transcript : Text
transcript = codes " we  talk\nhttp://x\nok"

transcript_to_segments_lem_example :
    (map (λ s. s.source_text) (transcript_to_segments transcript) ≡ spoken_lines transcript)
    × Numbered 1 (transcript_to_segments transcript)
transcript_to_segments_lem_example = transcript_to_segments_lem transcript

abbrev summary : Text
summary = codes "we agreed on the budget"

abbrev draft : MinutesDraft
draft = record { summary = summary; agenda_items = []; decisions = []; action_items = [] }

minutes_draft_to_tiptap-Returns_example :
    (nodes : TiptapNodes) × (minutes_draft_to_tiptap draft ≡ returned nodes)
unfolding is_korean_dominant
minutes_draft_to_tiptap-Returns_example =
    minutes_draft_to_tiptap-Returns (λ s. s) transcript draft
      (record {
        summarised = omega arith;
        in_language = refl;
        readable = tt;
        decisions_meaningful = tt;
        decisions_distinct = tt;
        actions_meaningful = tt;
        actions_distinct = tt;
      })

abbrev evidence : MinutesEvidence
evidence = record { summary = summary; agenda_items = []; decisions = []; action_items = [] }

abbrev command : MinutesGenerationCommand
command = record {
  meeting_id = 1;
  organization_id = 2;
  reviewer_user_id = 3;
  host_user_id = none;
  requested_by_user_id = none;
  title = none;
  started_at = none;
  ended_at = none;
  prompt_version = none;
  reason = none;
  participants = none;
  raw_transcript = none;
}

abbrev context : MinutesGenerationContext
context = record {
  meeting_id = 1;
  organization_id = 2;
  host_user_id = 4;
  reviewer_user_id = 3;
  title = codes "budget";
  started_at = 0;
  ended_at = 1;
  participants = [];
  segments = [];
  raw_transcript = transcript;
}

abbrev ports : Ports
ports = record {
  load = λ c. returned context;
  generate_structured = λ version c segments. returned (some evidence, codes "model");
  prompt_version = codes "v1";
  casefold = λ s. s;
  is_alpha = leb 65;
}

abbrev leaf : Text → TiptapNodes
leaf s = node (text s) end

abbrev result : MinutesGenerationResult
result = record {
  meeting_id = 1;
  organization_id = 2;
  reviewer_user_id = 3;
  minutes_draft = draft;
  editor_content =
      node (heading 1 (leaf (codes "회의록")))
        (node (heading 2 (leaf (codes "회의 요약"))) (node (paragraph (leaf summary)) end));
  model = codes "model";
  prompt_version = codes "v1";
  generated_at = 5;
}

execute-IsDelivered_example :
    (c : MinutesGenerationContext) × (returned context ≡ returned c)
    × (null (transcript_of c (segments_from_context c)) ≡ false)
    × (1 ≡ c.meeting_id)
    × IsDelivered ports
        (transcript_of c (segments_from_context c))
        (prepared_segments ports c (transcript_of c (segments_from_context c)))
        result
unfolding execute generate join splitlines collapse is_infix finalize_minutes_draft
    validate_summary_quality refine_draft clean_text evidence_to_minutes_draft
    finalize_minutes_evidence strip is_korean_dominant refine_agenda_items refine_decisions
    refine_action_items refine_all cleaned_actions dedupe unique_preserve_order action_items
    minutes_draft_to_tiptap collect draft_nodes heading_node paragraph_node agenda_section
    list_section
execute-IsDelivered_example = execute-IsDelivered ports 5 command result refl

evidence_to_minutes_draft-Returns_example :
    (d : MinutesDraft) × (evidence_to_minutes_draft
        (λ s. s)
        (finalize_minutes_evidence (λ s. s) evidence [])
      ≡ returned d)
    × (d.summary ≡ evidence.summary)
    × (d.agenda_items
        ≡ map (agenda_item (λ s. s)) (finalize_minutes_evidence (λ s. s) evidence []).agenda_items)
    × Distinct (map (λ s. s) d.decisions)
evidence_to_minutes_draft-Returns_example =
    evidence_to_minutes_draft-Returns (λ s. s) [] evidence refl

abbrev server : ℕ → Option Response
server meeting_id = some (record {
  status_code = 200;
  body = object (record { error = uncoded; success = true; context = some context });
})

minutes-Matches_example : result.meeting_id ≡ command.meeting_id
unfolding execute generate join splitlines collapse is_infix finalize_minutes_draft
    validate_summary_quality refine_draft clean_text evidence_to_minutes_draft
    finalize_minutes_evidence strip is_korean_dominant refine_agenda_items refine_decisions
    refine_action_items refine_all cleaned_actions dedupe unique_preserve_order action_items
    minutes_draft_to_tiptap collect draft_nodes heading_node paragraph_node agenda_section
    list_section load loaded inline_context inline_of request parse_response successful valid_data
    ensure_event_matches_context
minutes-Matches_example = minutes-Matches server ports 5 command result refl
