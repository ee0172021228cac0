-- ===== src/Pipelines/Quality.antt =====
-- app/pipelines/minutes_quality.py: the last gate of a minutes draft. `casefold` is `str.casefold`.
pub mod Accepted
use be25_fin_thanos_meetbowl.Prelude.{
  ℕ, Bool, not, ◌&&◌, ◌||◌, Option, none, some, List, [], ◌∷◌, map, ltb, leb, if◌then◌else◌, nat_eq,
  list_eq, option_eq, pair_eq, length, null, select,
}
use be25_fin_thanos_meetbowl.Text.{Text, codes, strip, collapse, split_words}
use be25_fin_thanos_meetbowl.Dedupe.{dedupe}
use be25_fin_thanos_meetbowl.Errors.{Raises, returned, raised, ai, response_validation_error}
use be25_fin_thanos_meetbowl.Schemas.Minutes.{AgendaItem, ActionItem, MinutesDraft}
use be25_fin_thanos_meetbowl.Pipelines.Evidence.{if_present}

-- `_clean_text`; `collapse` of the empty text is empty.
unfoldable pub clean_text : Text → Text
clean_text text = if null text then [] else strip (collapse text)

unfoldable pub looks_like_fragment : Text → Bool
looks_like_fragment text = leb (length (split_words text)) 1 && ltb (length text) 10

unfoldable pub is_meaningful_text : Text → Bool
unfolding looks_like_fragment
is_meaningful_text text = not (null text) && leb 8 (length text) && not (looks_like_fragment text)

-- `[가-힣]` and `[A-Za-z]`
abbrev pub is_hangul : ℕ → Bool
is_hangul c = leb 0xac00 c && leb c 0xd7a3

abbrev pub is_latin : ℕ → Bool
is_latin c = (leb 65 c && leb c 90) || (leb 97 c && leb c 122)

unfoldable pub looks_like_korean : Text → Bool
looks_like_korean text =
    let hangul_count = length (select is_hangul text) in
    let latin_count = length (select is_latin text) in
    ltb 0 hangul_count && leb latin_count hangul_count

-- The same test on the transcript.
unfoldable pub is_korean_dominant : Text → Bool
is_korean_dominant text =
    let hangul_count = length (select is_hangul text) in
    let latin_count = length (select is_latin text) in
    ltb 0 hangul_count && leb latin_count hangul_count

abbrev pub meaningful_or_none : Option Text → Option Text
meaningful_or_none none = none
meaningful_or_none (some []) = some []
meaningful_or_none (some (c ∷ s)) = if is_meaningful_text (c ∷ s) then some (c ∷ s) else none

unfoldable pub refine_agenda_items : List AgendaItem → List AgendaItem
refine_agenda_items [] = []
refine_agenda_items (item ∷ items) =
    let title = clean_text item.title in
    let discussion = clean_text item.discussion in
    let decision = if_present (λ s. some (clean_text s)) none item.decision in
    let rest = refine_agenda_items items in
    if null title || null discussion
    then rest
    else if ltb (length discussion) 20
    then rest
    else record { title = title; discussion = discussion; decision = meaningful_or_none decision }
      ∷ rest

-- The items whose cleaned content says something.
unfoldable pub with_clean_content : ActionItem → ActionItem
with_clean_content item = record item { content = clean_text item.content }

unfoldable pub cleaned_actions : List ActionItem → List ActionItem
unfolding with_clean_content
cleaned_actions items =
    select (λ item. is_meaningful_text item.content) (map with_clean_content items)

abbrev pub summary_too_short : Text
summary_too_short = codes "AI 회의록 요약이 너무 짧습니다."

abbrev pub summary_not_korean : Text
summary_not_korean = codes "한국어 회의 원문에 대한 요약이 한국어로 생성되지 않았습니다."

unfoldable pub validate_summary_quality : Text → Text → Raises (Unit {0})
validate_summary_quality raw_transcript summary =
    if ltb (length summary) 20
    then raised (ai (response_validation_error summary_too_short))
    else if is_korean_dominant raw_transcript && not (looks_like_korean summary)
    then raised (ai (response_validation_error summary_not_korean))
    else returned tt

module _ (casefold : Text → Text) where
  unfoldable pub refine_action_items : List ActionItem → List ActionItem
  refine_action_items items = dedupe (λ item. casefold item.content) [] (cleaned_actions items)

  -- The generator of `decisions`, and `_dedupe_texts`.
  unfoldable pub refine_decisions : List Text → List Text
  refine_decisions decisions =
      dedupe casefold [] (select is_meaningful_text (map clean_text decisions))

  unfoldable pub refine_draft : MinutesDraft → MinutesDraft
  refine_draft draft = record {
    summary = clean_text draft.summary;
    agenda_items = refine_agenda_items draft.agenda_items;
    decisions = refine_decisions draft.decisions;
    action_items = refine_action_items draft.action_items;
  }

  -- The refined draft, unless the check of its summary raises.
  abbrev pub unless_raised : Raises (Unit {0}) → MinutesDraft → Raises MinutesDraft
  unless_raised (returned _) refined = returned refined
  unless_raised (raised x) refined = raised x

  unfoldable pub finalize_minutes_draft : Text → MinutesDraft → Raises MinutesDraft
  finalize_minutes_draft raw_transcript draft =
      let refined = refine_draft draft in
      unless_raised (validate_summary_quality raw_transcript refined.summary) refined
