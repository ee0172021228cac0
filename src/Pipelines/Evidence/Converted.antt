-- ===== src/Pipelines/Evidence/Converted.antt =====
-- The draft that is made from grounded evidence.
use be25_fin_thanos_meetbowl.Prelude.{
  ◌≡◌, refl, true, false, not, List, [], ◌∷◌, map, nat_eq, list_eq, option_eq, pair_eq, Distinct,
  null, all, All, select,
}
use be25_fin_thanos_meetbowl.Text.{Text}
use be25_fin_thanos_meetbowl.Dedupe.{dedupe, Distinct-dedupe, All-dedupe}
use be25_fin_thanos_meetbowl.Errors.{returned}
use be25_fin_thanos_meetbowl.Schemas.Minutes.{
  TranscriptSegment, EvidenceActionItem, EvidenceAgendaItem, MinutesEvidence, MinutesDraft,
}
use be25_fin_thanos_meetbowl.Pipelines.Evidence.{
  is_agenda, is_action, validate_draft, or_title, agenda_item, unique_preserve_order, action_key,
  action_items, finalize_minutes_evidence, evidence_to_minutes_draft,
}
use be25_fin_thanos_meetbowl.Pipelines.Evidence.Grounding.{
  IsAgenda, IsStatement, finalize-IsGrounded, IsGrounded,
}

module _ (casefold : Text → Text) (segments : List TranscriptSegment) where
  or_title-filled :
      (title text : Text) → null title ≡ false → null (or_title casefold title text) ≡ false
  or_title-filled title [] h = h
  or_title-filled title (c ∷ text) h = refl

  agenda_items-valid :
      (items : List EvidenceAgendaItem)
      → All (IsAgenda casefold segments) items
      → all is_agenda (map (agenda_item casefold) items) ≡ true
  unfolding agenda_item
  agenda_items-valid [] h = refl
  agenda_items-valid (item ∷ items) h =
      rw (h.0.titled, or_title-filled item.title _ h.0.titled) (agenda_items-valid items h.1)

  actions-valid :
      (items : List EvidenceActionItem)
      → All (λ item. null item.content ≡ false) items
      → all is_action (
          map
            (λ item. record {
              content = item.content;
              assignee_name = item.assignee_name;
              due_date = item.due_date;
            })
            items)
        ≡ true
  actions-valid [] h = refl
  actions-valid (item ∷ items) h = rw (h.0) (actions-valid items h.1)

  stated :
      (items : List EvidenceActionItem)
      → All (λ item. IsStatement casefold segments item.content item.source_sequences) items
      → All (λ item. null item.content ≡ false) items
  stated [] h = tt
  stated (item ∷ items) h = (h.0.stated, stated items h.1)

  grounded-Returns :
      (evidence : MinutesEvidence)
      → IsGrounded casefold segments evidence
      → null evidence.summary ≡ false
      → (draft : MinutesDraft) × (evidence_to_minutes_draft casefold evidence ≡ returned draft)
        × (draft.summary ≡ evidence.summary)
        × (draft.agenda_items ≡ map (agenda_item casefold) evidence.agenda_items)
        × Distinct (map casefold draft.decisions)
  unfolding evidence_to_minutes_draft validate_draft action_items unique_preserve_order
  grounded-Returns evidence grounded h = (
    record {
      summary = evidence.summary;
      agenda_items = map (agenda_item casefold) evidence.agenda_items;
      decisions = unique_preserve_order casefold (
          select (λ text. not (null text)) (map (λ decision. decision.content) evidence.decisions));
      action_items = action_items casefold evidence.action_items;
    },
    rw
        (
          h,
          agenda_items-valid evidence.agenda_items grounded.agenda_items,
          actions-valid (dedupe (action_key casefold) [] evidence.action_items) (
              All-dedupe (action_key casefold) (λ item. null item.content ≡ false) []
                evidence.action_items (stated evidence.action_items grounded.action_items)),
        )
        refl,
    refl,
    refl,
    Distinct-dedupe casefold [] _,
  )

  -- If the model gave a summary, what the evidence gate leaves of its evidence always fits the schema of a
  -- draft: it is converted without an error into a draft with this summary and an agenda item for each that
  -- was kept, and no two of its decisions are the same up to case.
  pub evidence_to_minutes_draft-Returns :
      (evidence : MinutesEvidence)
      → null evidence.summary ≡ false
      → (draft : MinutesDraft) × (evidence_to_minutes_draft casefold
            (finalize_minutes_evidence casefold evidence segments)
          ≡ returned draft)
        × (draft.summary ≡ evidence.summary)
        × (draft.agenda_items
            ≡ map
                (agenda_item casefold)
                (finalize_minutes_evidence casefold evidence segments).agenda_items)
        × Distinct (map casefold draft.decisions)
  unfolding finalize_minutes_evidence
  evidence_to_minutes_draft-Returns evidence h =
      grounded-Returns (finalize_minutes_evidence casefold evidence segments)
        (finalize-IsGrounded casefold segments evidence) h
