-- ===== src/Tests/Pipelines.antt =====
-- The pipelines on a short transcript and a short document.
use be25_fin_thanos_meetbowl.Prelude.{
  list_eq, option_eq, pair_eq, ℕ, ◌≡◌, refl, Bool, true, false, none, List, [], ◌∷◌, arith, nat_eq,
}
use be25_fin_thanos_meetbowl.Text.{Text, codes, strip, collapse}
use be25_fin_thanos_meetbowl.Dedupe.{dedupe}
use be25_fin_thanos_meetbowl.Errors.{returned}
use be25_fin_thanos_meetbowl.Schemas.Indexing.{DocumentChunk}
use be25_fin_thanos_meetbowl.Schemas.Minutes.{TranscriptSegment, MinutesEvidence, MinutesDraft}
use be25_fin_thanos_meetbowl.Pipelines.Chunking.{split_document_into_chunks}
use be25_fin_thanos_meetbowl.Pipelines.Chunking.Bounds.{AreChunks, split_document-AreChunks}
use be25_fin_thanos_meetbowl.Pipelines.Evidence.{finalize_minutes_evidence}
use be25_fin_thanos_meetbowl.Pipelines.Evidence.Grounding.{IsGrounded, finalize-IsGrounded}
use be25_fin_thanos_meetbowl.Pipelines.Quality.{
  finalize_minutes_draft, validate_summary_quality, refine_draft, clean_text, is_korean_dominant,
  refine_agenda_items, refine_decisions, refine_action_items, is_meaningful_text, cleaned_actions,
}
use be25_fin_thanos_meetbowl.Pipelines.Quality.Accepted.{IsAccepted, finalize-IsAccepted}

abbrev document : Text
document = codes "first part\n\n\na second part that is longer\n\n| a | b |\n|---|---|\n| 1 | 2 |"

split_document-AreChunks_example :
    (chunks : List DocumentChunk) × (split_document_into_chunks (codes "title") document 12 3
      ≡ returned chunks)
    × AreChunks 12 (codes "title") 0 chunks
split_document-AreChunks_example =
    split_document-AreChunks (codes "title") document 12 3 (omega arith)

abbrev said : ℕ → Bool → TranscriptSegment
said sequence suspicious = record {
  segment_id = none;
  sequence = sequence;
  language = none;
  source_text = codes "text";
  started_at_ms = none;
  ended_at_ms = none;
  suspicious = suspicious;
}

abbrev transcript : List TranscriptSegment
transcript = said 1 false ∷ said 2 true ∷ []

abbrev evidence : MinutesEvidence
evidence = record {
  summary = codes "summary";
  agenda_items =
      record {
        title = codes " budget ";
        discussion_points = codes "point" ∷ codes "point" ∷ [];
        source_sequences = 2 ∷ 1 ∷ 2 ∷ 5 ∷ [];
        decision = none;
      }
      ∷ [];
  decisions = record { content = codes "agreed"; source_sequences = 2 ∷ [] } ∷ [];
  action_items = [];
}

finalize-IsGrounded_example :
    IsGrounded (λ s. s) transcript (finalize_minutes_evidence (λ s. s) evidence transcript)
finalize-IsGrounded_example = finalize-IsGrounded (λ s. s) transcript evidence

abbrev draft : MinutesDraft
draft = record {
  summary = codes "the budget of the next year was agreed";
  agenda_items =
      record {
        title = codes "budget";
        discussion = codes "the budget of the next year";
        decision = none;
      }
      ∷ [];
  decisions = codes "the budget is agreed" ∷ codes "ok" ∷ [];
  action_items = [];
}

abbrev refined : MinutesDraft
refined = record draft { decisions = codes "the budget is agreed" ∷ [] }

finalize-IsAccepted_example :
    IsAccepted (λ s. s) (codes "we talk about the budget") refined
    × (refined.summary ≡ clean_text draft.summary)
unfolding finalize_minutes_draft validate_summary_quality refine_draft clean_text strip collapse
    is_korean_dominant refine_agenda_items refine_decisions refine_action_items dedupe
    is_meaningful_text cleaned_actions
finalize-IsAccepted_example =
    finalize-IsAccepted (λ s. s) (codes "we talk about the budget") draft refined refl
