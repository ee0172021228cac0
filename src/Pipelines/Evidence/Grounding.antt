-- ===== src/Pipelines/Evidence/Grounding.antt =====
-- What is left of the evidence is grounded in the transcript.
use be25_fin_thanos_meetbowl.Prelude.{
  ℕ, ◌-◌, ◌≤◌, ◌<◌, ◌≡◌, refl, inl, inr, Bool, true, false, ◌&&◌, ◌||◌, Option, some, List, [], ◌∷◌,
  arith, ltb, leb, nat_beq_iff, tests, Bool-cases, Option-cases, is_none, nat_eq, list_eq,
  option_eq, pair_eq, contains, length, null, all, All,
}
use be25_fin_thanos_meetbowl.Text.{Text, strip, collapse}
use be25_fin_thanos_meetbowl.Schemas.Minutes.{
  TranscriptSegment, EvidenceDecision, EvidenceActionItem, EvidenceAgendaItem, MinutesEvidence,
}
use be25_fin_thanos_meetbowl.Pipelines.Evidence.Sequences.{
  Rises, sanitize_sequences, sanitize_sequences_lem,
}
use be25_fin_thanos_meetbowl.Pipelines.Evidence.{
  all_suspicious, refine_all, unique_texts_from, unique_texts, refine_evidence_agenda_item,
  refine_evidence_decision, refine_evidence_action_item, valid_sequences, suspicious_sequences,
  finalize_minutes_evidence,
}

refine_all-All {ℓ κ} :
    {A : Type ℓ} (P : A → Type κ) (refine : A → Option A)
    → ((a b : A) → refine a ≡ some b → P b)
    → (items : List A) → All P (refine_all refine items)
unfolding refine_all
refine_all-All P refine h [] = tt
refine_all-All P refine h (item ∷ items) = elim (Option-cases (refine item)) [
  | inl gone ↦ rw (gone, refine_all) (refine_all-All P refine h items)
  | inr (refined, kept) ↦
      rw (kept, refine_all) (h item refined kept, refine_all-All P refine h items)
]

-- References to the transcript: some, in strictly rising order, all of them known, and not all of them
-- to suspicious segments.
pub record IsSourced (valid suspicious sequences : List ℕ) : Type 0 where
  pub present : null sequences ≡ false
  pub rises : Rises 0 sequences
  pub known : all (λ sequence. contains sequence valid) sequences ≡ true
  pub trusted : all (λ sequence. contains sequence suspicious) sequences ≡ false

all_of_contains :
    (p : ℕ → Bool) (xs : List ℕ) → ((a : ℕ) → contains a xs ≡ true → p a ≡ true) → all p xs ≡ true
all_of_contains p [] h = refl
all_of_contains p (x ∷ xs) h =
    ground (arith, h x, (nat_beq_iff x x).1 refl, all_of_contains p xs (λ a k. h a (ground arith)))

sanitized-known :
    (source valid : List ℕ)
    → all (λ sequence. contains sequence valid) (sanitize_sequences source valid) ≡ true
sanitized-known source valid =
    all_of_contains (λ sequence. contains sequence valid) (sanitize_sequences source valid)
      (λ a h. ground (arith, (sanitize_sequences_lem source valid a).1))

sanitized-IsSourced :
    (source valid suspicious : List ℕ)
    → null (sanitize_sequences source valid) ≡ false
    → all_suspicious (sanitize_sequences source valid) suspicious ≡ false
    → IsSourced valid suspicious (sanitize_sequences source valid)
unfolding all_suspicious
sanitized-IsSourced source valid suspicious h k = record {
  present = h;
  rises = (sanitize_sequences_lem source valid 0).0;
  known = sanitized-known source valid;
  trusted = ground arith;
}

-- At most `limit` texts, none empty.
pub unique_texts_from-bound :
    (casefold : Text → Text) (limit : ℕ) (seen values : List Text)
    → 0 < limit
    → length (unique_texts_from casefold limit seen values) ≤ limit
unfolding unique_texts_from
unique_texts_from-bound casefold limit seen [] h = omega arith
unique_texts_from-bound casefold limit seen (value ∷ values) h =
    let normalized = strip (collapse value) in
    elim (Bool-cases (null normalized || contains (casefold normalized) seen)) [
      | inl skipped ↦
          rw (skipped, unique_texts_from) (unique_texts_from-bound casefold limit seen values h)
      | inr taken ↦ elim (Bool-cases (leb limit 1)) [
        | inl last ↦ rw (taken, last, unique_texts_from) (omega arith)
        | inr more ↦
            rw (taken, more, unique_texts_from)
              (omega (
                tests,
                more,
                unique_texts_from-bound casefold (limit - 1) (casefold normalized ∷ seen) values,
              ))
      ]
    ]

module _ (casefold : Text → Text) (segments : List TranscriptSegment) where
  abbrev pub Sourced : List ℕ → Type 0
  Sourced sequences =
      IsSourced (valid_sequences casefold segments) (suspicious_sequences casefold segments)
        sequences

  -- An agenda item has a title, one to three points, and two references or a decision.
  pub record IsAgenda (item : EvidenceAgendaItem) : Type 0 where
    pub sourced : Sourced item.source_sequences
    pub titled : null item.title ≡ false
    pub discussed : null item.discussion_points ≡ false
    pub brief : length item.discussion_points ≤ 3
    pub weighty : (ltb (length item.source_sequences) 2 && is_none item.decision) ≡ false

  pub record IsStatement (content : Text) (sequences : List ℕ) : Type 0 where
    pub sourced : Sourced sequences
    pub stated : null content ≡ false

  pub record IsGrounded (evidence : MinutesEvidence) : Type 0 where
    pub agenda_items : All IsAgenda evidence.agenda_items
    pub decisions : All (λ item. IsStatement item.content item.source_sequences) evidence.decisions
    pub action_items :
        All (λ item. IsStatement item.content item.source_sequences) evidence.action_items

  unique_texts-bound : (values : List Text) → length (unique_texts casefold values 3) ≤ 3
  unfolding unique_texts
  unique_texts-bound values = unique_texts_from-bound casefold 3 [] values (omega arith)

  refine_evidence_agenda_item-IsAgenda :
      (item refined : EvidenceAgendaItem)
      → refine_evidence_agenda_item casefold
          (valid_sequences casefold segments)
          (suspicious_sequences casefold segments)
          item
        ≡ some refined
      → IsAgenda refined
  unfolding refine_evidence_agenda_item
  refine_evidence_agenda_item-IsAgenda item refined h = ground (
    arith,
    sanitized-IsSourced item.source_sequences (valid_sequences casefold segments)
        (suspicious_sequences casefold segments),
    unique_texts-bound item.discussion_points,
  )

  refine_evidence_decision-IsStatement :
      (item refined : EvidenceDecision)
      → refine_evidence_decision casefold
          (valid_sequences casefold segments)
          (suspicious_sequences casefold segments)
          item
        ≡ some refined
      → IsStatement refined.content refined.source_sequences
  unfolding refine_evidence_decision
  refine_evidence_decision-IsStatement item refined h = ground (
    arith,
    sanitized-IsSourced item.source_sequences (valid_sequences casefold segments)
        (suspicious_sequences casefold segments),
  )

  refine_evidence_action_item-IsStatement :
      (item refined : EvidenceActionItem)
      → refine_evidence_action_item casefold
          (valid_sequences casefold segments)
          (suspicious_sequences casefold segments)
          item
        ≡ some refined
      → IsStatement refined.content refined.source_sequences
  unfolding refine_evidence_action_item
  refine_evidence_action_item-IsStatement item refined h = ground (
    arith,
    sanitized-IsSourced item.source_sequences (valid_sequences casefold segments)
        (suspicious_sequences casefold segments),
  )

  -- Whatever the model extracted, every item that is kept refers to segments of the transcript: its
  -- references are present, known and in strictly rising order, and not all of them are suspicious.
  -- An agenda item has a title, one to three discussion points, and two references or a decision; a
  -- decision or an action item has a content.
  pub finalize-IsGrounded :
      (evidence : MinutesEvidence)
      → IsGrounded (finalize_minutes_evidence casefold evidence segments)
  unfolding finalize_minutes_evidence
  finalize-IsGrounded evidence = record {
    agenda_items =
        refine_all-All IsAgenda _ refine_evidence_agenda_item-IsAgenda evidence.agenda_items;
    decisions =
        refine_all-All (λ item. IsStatement item.content item.source_sequences) _
          refine_evidence_decision-IsStatement evidence.decisions;
    action_items =
        refine_all-All (λ item. IsStatement item.content item.source_sequences) _
          refine_evidence_action_item-IsStatement evidence.action_items;
  }
