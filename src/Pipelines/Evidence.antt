-- ===== src/Pipelines/Evidence.antt =====
-- app/pipelines/minutes_evidence.py: what the model extracted, held against the transcript.
pub mod Sequences
pub mod Grounding
pub mod Converted
use be25_fin_thanos_meetbowl.Prelude.{
  ℕ, ◌-◌, Bool, true, false, not, ◌&&◌, ◌||◌, Option, none, some, List, [], ◌∷◌, map, ltb, leb,
  if◌then◌else◌, nat_eq, list_eq, option_eq, pair_eq, contains, length, null, select, all,
}
use be25_fin_thanos_meetbowl.Text.{Text, codes, strip, collapse, join}
use be25_fin_thanos_meetbowl.Errors.{Raises, returned, raised, other}
use be25_fin_thanos_meetbowl.Dedupe.{dedupe}
use be25_fin_thanos_meetbowl.Schemas.Minutes.{
  AgendaItem, TranscriptSegment, EvidenceDecision, EvidenceActionItem, EvidenceAgendaItem,
  MinutesEvidence, ActionItem, MinutesDraft,
}
use be25_fin_thanos_meetbowl.Pipelines.Evidence.Sequences.{sanitize_sequences}

abbrev pub is_agenda : AgendaItem → Bool
is_agenda item = not (null item.title) && not (null item.discussion)

abbrev pub is_action : ActionItem → Bool
is_action item = not (null item.content)

-- The constructors of `MinutesDraft`, `AgendaItem` and `ActionItem`: each wants its texts filled.
unfoldable pub validate_draft : MinutesDraft → Raises MinutesDraft
validate_draft draft =
    if not (null draft.summary)
      && all is_agenda draft.agenda_items
      && all is_action draft.action_items
    then returned draft
    else raised (other (codes "ValidationError"))

unfoldable pub all_suspicious : List ℕ → List ℕ → Bool
all_suspicious source_sequences suspicious =
    not (null source_sequences) && all (λ sequence. contains sequence suspicious) source_sequences

-- `[refined for item in items if (refined := refine(item)) is not None]`
unfoldable pub refine_all {ℓ} : {A : Type ℓ} → (A → Option A) → List A → List A
refine_all refine [] = []
refine_all refine (item ∷ items) =
    let rest = refine_all refine items in
    elim (refine item) [ none ↦ rest | some refined ↦ refined ∷ rest ]

abbrev pub if_present {ℓ} : {A : Type ℓ} → (Text → A) → A → Option Text → A
if_present f d none = d
if_present f d (some []) = d
if_present f d (some (c ∷ s)) = f (c ∷ s)

module _ (casefold : Text → Text) where
  -- The loop of `_unique_texts` with room for `limit` more texts; it leaves by `break` after the last.
  unfoldable pub unique_texts_from : ℕ → List Text → List Text → List Text
  unique_texts_from limit seen [] = []
  unique_texts_from limit seen (value ∷ values) =
      let normalized = strip (collapse value) in
      let lowered = casefold normalized in
      elim (null normalized || contains lowered seen) [
        | true ↦ unique_texts_from limit seen values
        | false ↦ elim (leb limit 1) [
          | true ↦ normalized ∷ []
          | false ↦ normalized ∷ unique_texts_from (limit - 1) (lowered ∷ seen) values
        ]
      ]

  unfoldable pub unique_texts : List Text → ℕ → List Text
  unique_texts values limit = unique_texts_from limit [] values

  unfoldable pub refine_evidence_agenda_item :
      List ℕ → List ℕ → EvidenceAgendaItem → Option EvidenceAgendaItem
  refine_evidence_agenda_item valid suspicious item =
      let sequences = sanitize_sequences item.source_sequences valid in
      let discussion_points = unique_texts item.discussion_points 3 in
      if null (strip item.title) || null sequences
      then none
      else if all_suspicious sequences suspicious
      then none
      else if ltb (length sequences) 2 && if_present (λ s. false) true item.decision
      then none
      else if null discussion_points
      then none
      else some (record {
        title = strip item.title;
        discussion_points = discussion_points;
        source_sequences = sequences;
        decision = if_present (λ s. some (strip s)) none item.decision;
      })

  unfoldable pub refine_evidence_decision :
      List ℕ → List ℕ → EvidenceDecision → Option EvidenceDecision
  refine_evidence_decision valid suspicious item =
      let sequences = sanitize_sequences item.source_sequences valid in
      let content = strip item.content in
      if null content || null sequences || all_suspicious sequences suspicious
      then none
      else some (record item { content = content; source_sequences = sequences })

  unfoldable pub refine_evidence_action_item :
      List ℕ → List ℕ → EvidenceActionItem → Option EvidenceActionItem
  refine_evidence_action_item valid suspicious item =
      let sequences = sanitize_sequences item.source_sequences valid in
      let content = strip item.content in
      if null content || null sequences || all_suspicious sequences suspicious
      then none
      else some (record item { content = content; source_sequences = sequences })

  abbrev pub valid_sequences : List TranscriptSegment → List ℕ
  valid_sequences segments = map (λ segment. segment.sequence) segments

  abbrev pub suspicious_sequences : List TranscriptSegment → List ℕ
  suspicious_sequences segments =
      map (λ segment. segment.sequence) (select (λ segment. segment.suspicious) segments)

  unfoldable pub finalize_minutes_evidence :
      MinutesEvidence → List TranscriptSegment → MinutesEvidence
  finalize_minutes_evidence evidence segments =
      let valid = valid_sequences segments in
      let suspicious = suspicious_sequences segments in
      record evidence {
        agenda_items =
            refine_all (refine_evidence_agenda_item valid suspicious) evidence.agenda_items;
        decisions = refine_all (refine_evidence_decision valid suspicious) evidence.decisions;
        action_items =
            refine_all (refine_evidence_action_item valid suspicious) evidence.action_items;
      }

  abbrev pub or_title : Text → Text → Text
  or_title title [] = title
  or_title title (c ∷ s) = c ∷ s

  unfoldable pub agenda_item : EvidenceAgendaItem → AgendaItem
  agenda_item item =
      let points = map strip (select (λ point. not (null (strip point))) item.discussion_points) in
      record {
        title = item.title;
        discussion = or_title item.title (strip (join (codes " ") points));
        decision = item.decision;
      }

  unfoldable pub unique_preserve_order : List Text → List Text
  unfolding dedupe
  unique_preserve_order values = dedupe casefold [] values

  -- The key of an action item: its content and its assignee with case folded, and its date.
  abbrev pub ActionKey : Type 0
  ActionKey = Text × (Option Text × Option Text)

  unfoldable pub action_key : EvidenceActionItem → ActionKey
  action_key item = (
    casefold item.content,
    (if_present (λ s. some (casefold s)) none item.assignee_name, item.due_date),
  )

  unfoldable pub action_items : List EvidenceActionItem → List ActionItem
  unfolding dedupe action_key
  action_items items =
      map
        (λ item. record {
          content = item.content;
          assignee_name = item.assignee_name;
          due_date = item.due_date;
        })
        (dedupe action_key [] items)

  unfoldable pub evidence_to_minutes_draft : MinutesEvidence → Raises MinutesDraft
  unfolding agenda_item unique_preserve_order action_items validate_draft
  evidence_to_minutes_draft evidence = validate_draft (record {
    summary = evidence.summary;
    agenda_items = map agenda_item evidence.agenda_items;
    decisions =
        unique_preserve_order (
          select (λ text. not (null text)) (map (λ decision. decision.content) evidence.decisions));
    action_items = action_items evidence.action_items;
  })
