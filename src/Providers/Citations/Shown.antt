-- ===== src/Providers/Citations/Shown.antt =====
-- The numbers that a model reads.
use be25_fin_thanos_meetbowl.Rag.Merging.Known.{ids}
use be25_fin_thanos_meetbowl.Prelude.{
  ℕ, ◌+◌, ◌-◌, ◌<◌, ◌≡◌, refl, true, ◌&&◌, some, List, [], ◌∷◌, arith, leb, or-true, ◌==◌, nat_eq,
  list_eq, option_eq, pair_eq, contains, Distinct, beq_refl, length, get_elem?,
}
use be25_fin_thanos_meetbowl.Prelude.Dict.{lookup}
use be25_fin_thanos_meetbowl.Text.{Text, codes, join}
use be25_fin_thanos_meetbowl.Errors.{returned}
use be25_fin_thanos_meetbowl.Schemas.{Uuid}
use be25_fin_thanos_meetbowl.Schemas.Chat.{ChatSource}
use be25_fin_thanos_meetbowl.Providers.Citations.{
  accumulate_sources, index_by_id, format_source, format_all, format_with_citation_numbers,
  select_from, select_cited_sources,
}
use be25_fin_thanos_meetbowl.Providers.Citations.Numbers.{
  accumulate-Distinct, lookup-index, contains-get, get-bound,
}

-- Each text shows its source under a number, and a citation of this number alone gives a source of the
-- same document.
abbrev pub AreNumbered : List ChatSource → List ChatSource → List Text → Type 0
AreNumbered acc [] [] = Unit
AreNumbered acc (source ∷ sources) (text ∷ texts) =
    ((number : ℕ) × (cited : ChatSource) × (format_source source (some number) ≡ returned text)
      × (select_cited_sources acc (number ∷ []) ≡ cited ∷ [])
      × (cited.resource_id ≡ source.resource_id))
    × AreNumbered acc sources texts
AreNumbered acc _ _ = ⊥

ranges : (i n : ℕ) → i < n → (leb 1 (1 + i) && leb (1 + i) n && true) ≡ true
ranges i n h = ground arith

select-number :
    (acc : List ChatSource) (n : ℕ) (cited : ChatSource)
    → (leb 1 n && leb n (length acc) && true) ≡ true
    → get_elem? acc (n - 1) ≡ some cited
    → select_cited_sources acc (n ∷ []) ≡ cited ∷ []
unfolding select_cited_sources select_from
select-number acc n cited ranges there = rw (ranges, select_from) (rw there refl)

select-one :
    (acc : List ChatSource) (i : ℕ) (cited : ChatSource)
    → get_elem? acc i ≡ some cited
    → select_cited_sources acc ((1 + i) ∷ []) ≡ cited ∷ []
select-one acc i cited there =
    let place : (1 + i) - 1 ≡ i = omega arith in
    select-number acc (1 + i) cited (ranges i (length acc) (get-bound acc i there)) (rw place there)

format_all-AreNumbered :
    (acc shown : List ChatSource)
    → Distinct (ids acc)
    → ((a : Uuid) → contains a (ids shown) ≡ true → contains a (ids acc) ≡ true)
    → (texts : List Text) × (format_all (index_by_id 1 acc []) shown ≡ returned texts)
      × AreNumbered acc shown texts
unfolding format_all format_source
format_all-AreNumbered acc [] h k = ([], refl, tt)
format_all-AreNumbered acc (source ∷ sources) h k =
    let (i, cited, there, same) =
      contains-get source.resource_id acc
        (k source.resource_id (rw (beq_refl source.resource_id) refl)) in
    let (texts, returns, numbered) =
      format_all-AreNumbered acc sources h
        (λ a known. k a (rw known (or-true (source.resource_id == a)))) in
    let number : lookup source.resource_id (index_by_id 1 acc []) ≡ some (1 + i) =
      rw (← same) (lookup-index 1 acc [] i cited h there) in
    (
      _ ∷ texts,
      rw (number, returns) refl,
      ((1 + i, cited, refl, select-one acc i cited there, same), numbered),
    )

-- Whatever a tool shows after its finds were added to the list: no find lacks a number, and an answer
-- that cites the number of a find has a source of its document.
pub format-AreNumbered :
    (accumulated found : List ChatSource)
    → Distinct (ids accumulated)
    → (texts : List Text) × (format_with_citation_numbers
          (accumulate_sources accumulated found)
          found
        ≡ returned (join (codes "\n\n") texts))
      × AreNumbered (accumulate_sources accumulated found) found texts
unfolding format_with_citation_numbers
format-AreNumbered acc found h =
    let all_found = accumulate-Distinct acc found in
    let (texts, returns, numbered) =
      format_all-AreNumbered (accumulate_sources acc found) found (all_found 0 h).0
        (λ a there. rw ((all_found a h).2, there) (or-true (contains a (ids acc)))) in
    (texts, rw returns refl, numbered)
