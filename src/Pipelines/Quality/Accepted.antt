-- ===== src/Pipelines/Quality/Accepted.antt =====
-- What a draft that passes the gate looks like, and which drafts pass.
use be25_fin_thanos_meetbowl.Prelude.{
  ◌≤◌, ◌≡◌, refl, sym, ap, ◌∙◌, inl, inr, Bool, true, false, not, ◌&&◌, ◌||◌, List, [], ◌∷◌, map,
  arith, ltb, tests, Bool-cases, nat_eq, list_eq, option_eq, pair_eq, Distinct, length, null,
  select, All,
}
use be25_fin_thanos_meetbowl.Text.{Text}
use be25_fin_thanos_meetbowl.Dedupe.{Distinct-dedupe, All-dedupe}
use be25_fin_thanos_meetbowl.Errors.{Raises, returned, raised}
use be25_fin_thanos_meetbowl.Schemas.Minutes.{AgendaItem, ActionItem, MinutesDraft}
use be25_fin_thanos_meetbowl.Pipelines.Quality.{
  clean_text, is_meaningful_text, looks_like_korean, is_korean_dominant, refine_agenda_items,
  cleaned_actions, validate_summary_quality, with_clean_content, refine_draft, unless_raised,
  refine_action_items, refine_decisions, finalize_minutes_draft,
}

select-All {ℓ} : {A : Type ℓ} (p : A → Bool) (xs : List A) → All (λ x. p x ≡ true) (select p xs)
select-All p [] = tt
select-All p (x ∷ xs) = elim (Bool-cases (p x)) [
  | inl yes' ↦ rw yes' (yes', select-All p xs)
  | inr no' ↦ rw no' (select-All p xs)
]

abbrev pub IsReadable : AgendaItem → Type 0
IsReadable item = (null item.title ≡ false) × (20 ≤ length item.discussion)

refine_agenda_items-IsReadable :
    (items : List AgendaItem) → All IsReadable (refine_agenda_items items)
unfolding refine_agenda_items
refine_agenda_items-IsReadable [] = tt
refine_agenda_items-IsReadable (item ∷ items) =
    elim (Bool-cases (null (clean_text item.title) || null (clean_text item.discussion))) [
      | inl empty ↦ rw empty (refine_agenda_items-IsReadable items)
      | inr full ↦ elim (Bool-cases (ltb (length (clean_text item.discussion)) 20)) [
        | inl short ↦ rw (full, short) (refine_agenda_items-IsReadable items)
        | inr long ↦
            rw (full, long)
              ((ground arith, omega (tests, long)), refine_agenda_items-IsReadable items)
      ]
    ]

module _ (casefold : Text → Text) where
  -- The summary is long enough, and Korean if the transcript is; every agenda item has a title and a
  -- discussion of 20 characters or more; decisions and action items say something, and no two of them
  -- are the same up to case.
  pub record IsAccepted (raw_transcript : Text) (draft : MinutesDraft) : Type 0 where
    pub summarised : 20 ≤ length draft.summary
    pub in_language :
        (is_korean_dominant raw_transcript && not (looks_like_korean draft.summary)) ≡ false
    pub readable : All IsReadable draft.agenda_items
    pub decisions_meaningful : All (λ text. is_meaningful_text text ≡ true) draft.decisions
    pub decisions_distinct : Distinct (map casefold draft.decisions)
    pub actions_meaningful : All (λ item. is_meaningful_text item.content ≡ true) draft.action_items
    pub actions_distinct : Distinct (map (λ item. casefold item.content) draft.action_items)

  quality_returned :
      (raw_transcript summary : Text)
      → validate_summary_quality raw_transcript summary ≡ returned tt
      → (20 ≤ length summary)
        × ((is_korean_dominant raw_transcript && not (looks_like_korean summary)) ≡ false)
  unfolding validate_summary_quality
  quality_returned raw_transcript summary h = (ground arith, ground arith)

  unless_raised-returned :
      (check : Raises (Unit {0})) (draft refined : MinutesDraft)
      → unless_raised casefold check draft ≡ returned refined
      → (check ≡ returned tt) × (draft ≡ refined)
  unless_raised-returned (returned _) draft refined h = (refl, cc)
  unless_raised-returned (raised x) draft refined h = cc

  refine_draft-IsAccepted :
      (raw_transcript : Text) (draft : MinutesDraft)
      → validate_summary_quality raw_transcript (refine_draft casefold draft).summary ≡ returned tt
      → IsAccepted raw_transcript (refine_draft casefold draft)
  unfolding refine_draft refine_decisions refine_action_items cleaned_actions
  refine_draft-IsAccepted raw_transcript draft passed =
      let (long, korean) = quality_returned raw_transcript (clean_text draft.summary) passed in
      record {
        summarised = long;
        in_language = korean;
        readable = refine_agenda_items-IsReadable draft.agenda_items;
        decisions_meaningful =
            All-dedupe casefold _ [] _
              (select-All is_meaningful_text (map clean_text draft.decisions));
        decisions_distinct = Distinct-dedupe casefold [] _;
        actions_meaningful =
            All-dedupe (λ (item : ActionItem). casefold item.content) _ [] _
              (select-All (λ (item : ActionItem). is_meaningful_text item.content)
                (map with_clean_content draft.action_items));
        actions_distinct = Distinct-dedupe (λ (item : ActionItem). casefold item.content) [] _;
      }

  -- A draft that the gate returns has a summary of at least 20 characters, in Korean if the transcript is
  -- mostly Korean, which is the given one with its white space cleaned; every agenda item has a title and a
  -- discussion of 20 characters or more; decisions and action items say something, and no two of them are
  -- the same up to case.
  pub finalize-IsAccepted :
      (raw_transcript : Text) (draft refined : MinutesDraft)
      → finalize_minutes_draft casefold raw_transcript draft ≡ returned refined
      → IsAccepted raw_transcript refined × (refined.summary ≡ clean_text draft.summary)
  unfolding finalize_minutes_draft
  finalize-IsAccepted raw_transcript draft refined h =
      let (passed, same) =
        unless_raised-returned
          (validate_summary_quality raw_transcript (refine_draft casefold draft).summary)
          (refine_draft casefold draft) refined h in
      (
        rw same at (refine_draft-IsAccepted raw_transcript draft passed),
        sym (ap (λ (d : MinutesDraft). d.summary) same) ∙ (unfold refine_draft in refl),
      )
