-- ===== src/Providers/Citations/Cited.antt =====
-- Which sources an answer cites.
use be25_fin_thanos_meetbowl.Rag.Merging.Known.{ids}
use be25_fin_thanos_meetbowl.Prelude.{
  ℕ, suc, ◌-◌, ◌≤◌, ◌<◌, ◌≡◌, refl, ◌∙◌, inl, inr, Bool, true, false, not, ◌&&◌, ◌||◌, some, List,
  [], ◌∷◌, arith, leb, nat_beq, nat_beq_iff, and-true, and-false, Bool-cases, nat_eq, list_eq,
  option_eq, pair_eq, contains, Distinct, beq_refl, length, get_elem?,
}
use be25_fin_thanos_meetbowl.Schemas.Chat.{ChatSource}
use be25_fin_thanos_meetbowl.Providers.Citations.{select_from, select_cited_sources}
use be25_fin_thanos_meetbowl.Providers.Citations.Numbers.{get-Distinct, get-bound, get-some}

-- In range and not yet seen.
abbrev citable : List ChatSource → List ℕ → ℕ → Bool
citable acc seen n = leb 1 n && leb n (length acc) && not (contains n seen)

previous : (n i : ℕ) → 1 ≤ n → nat_beq n (suc i) ≡ false → nat_beq (n - 1) i ≡ false
previous n i h k = ground arith

-- A number that is seen is not taken again.
hidden :
    (seen ns : List ℕ) (n : ℕ)
    → 1 ≤ n
    → (contains (suc (n - 1)) ns && not (contains (suc (n - 1)) (n ∷ seen))) ≡ false
hidden seen ns n h =
    let e : suc (n - 1) ≡ n = omega arith in rw (e, beq_refl n) (and-false (contains n ns))

taken_number :
    (acc : List ChatSource) (seen ns : List ℕ) (n i : ℕ)
    → citable acc seen n ≡ true
    → (nat_beq (n - 1) i || (contains (suc i) ns && not (contains (suc i) (n ∷ seen))))
      ≡ (contains (suc i) (n ∷ ns) && not (contains (suc i) seen))
taken_number acc seen ns n i taken = elim (Bool-cases (nat_beq n (suc i))) [
  | inl same ↦
      let e : n ≡ suc i = (nat_beq_iff n (suc i)).0 same in
      let fresh : contains (suc i) seen ≡ false = rw (← e) (ground arith) in
      rw (same, fresh) (ground arith)
  | inr other ↦
      let apart : nat_beq (n - 1) i ≡ false = previous n i (ground arith) other in
      rw (other, apart) refl
]

passed_number :
    (acc : List ChatSource) (seen ns : List ℕ) (n i : ℕ)
    → i < length acc
    → citable acc seen n ≡ false
    → (contains (suc i) ns && not (contains (suc i) seen))
      ≡ (contains (suc i) (n ∷ ns) && not (contains (suc i) seen))
passed_number acc seen ns n i bound passed = elim (Bool-cases (nat_beq n (suc i))) [
  | inl same ↦
      let e : n ≡ suc i = (nat_beq_iff n (suc i)).0 same in
      let known : contains (suc i) seen ≡ true = rw (← e) (ground arith) in
      rw (same, known) (ground arith)
  | inr other ↦ rw other refl
]

select_from-contains :
    (acc : List ChatSource) (seen numbers : List ℕ) (i : ℕ) (source : ChatSource)
    → Distinct (ids acc)
    → get_elem? acc i ≡ some source
    → contains source.resource_id (ids (select_from acc seen numbers))
      ≡ (contains (suc i) numbers && not (contains (suc i) seen))
unfolding select_from
select_from-contains acc seen [] i source h e = refl
select_from-contains acc seen (n ∷ ns) i source h e = elim (Bool-cases (citable acc seen n)) [
  | inl taken ↦
      let (c, there) = get-some acc (n - 1) (ground arith) in
      rw (taken, select_from)
        (rw there (
          rw
            (
              get-Distinct acc (n - 1) i c source h there e,
              select_from-contains acc (n ∷ seen) ns i source h e,
            )
            (taken_number acc seen ns n i taken)))
  | inr passed ↦
      rw (passed, select_from)
        (rw (select_from-contains acc seen ns i source h e)
          (passed_number acc seen ns n i (get-bound acc i e) passed))
]

pub select_from-Distinct :
    (acc : List ChatSource) (seen numbers : List ℕ)
    → Distinct (ids acc)
    → Distinct (ids (select_from acc seen numbers))
unfolding select_from
select_from-Distinct acc seen [] h = tt
select_from-Distinct acc seen (n ∷ ns) h = elim (Bool-cases (citable acc seen n)) [
  | inl taken ↦
      let (c, there) = get-some acc (n - 1) (ground arith) in
      rw (taken, select_from)
        (rw there (
          select_from-contains acc (n ∷ seen) ns (n - 1) c h there
              ∙ hidden seen ns n (ground arith),
          select_from-Distinct acc (n ∷ seen) ns h,
        ))
  | inr passed ↦ rw (passed, select_from) (select_from-Distinct acc seen ns h)
]

-- Among the sources of an answer a document of the list stands exactly if its number is cited, and no
-- document stands there twice.
pub select_cited-Distinct :
    (accumulated : List ChatSource) (cited_indices : List ℕ) (i : ℕ) (source : ChatSource)
    → Distinct (ids accumulated)
    → get_elem? accumulated i ≡ some source
    → (contains source.resource_id (ids (select_cited_sources accumulated cited_indices))
        ≡ contains (suc i) cited_indices)
      × Distinct (ids (select_cited_sources accumulated cited_indices))
unfolding select_cited_sources
select_cited-Distinct acc cited i source h e = (
  select_from-contains acc [] cited i source h e ∙ and-true _,
  select_from-Distinct acc [] cited h,
)
