-- ===== src/Providers/Citations/Few.antt =====
-- How many sources an answer can cite.
use be25_fin_thanos_meetbowl.Prelude.{
  ℕ, zero, suc, ◌+◌, ◌-◌, ◌≤◌, ◌≡◌, refl, inl, inr, false, not, ◌&&◌, List, [], ◌∷◌, arith, leb,
  nat_beq, nat_beq_iff, if◌then◌else◌, Bool-cases, nat_eq, contains, length,
}
use be25_fin_thanos_meetbowl.Schemas.Chat.{ChatSource}
use be25_fin_thanos_meetbowl.Dedupe.{dedupe}
use be25_fin_thanos_meetbowl.Providers.Citations.{
  accumulate_sources, select_from, select_cited_sources,
}
use be25_fin_thanos_meetbowl.Providers.Citations.Numbers.{get-some}

-- How many of the numbers 1, …, n are not in the list.
abbrev unseen : List ℕ → ℕ → ℕ
unseen seen zero = 0
unseen seen (suc n) = (if contains (suc n) seen then 0 else 1) + unseen seen n

unseen-nil : (n : ℕ) → unseen [] n ≡ n
unseen-nil zero = refl
unseen-nil (suc n) = omega (arith, unseen-nil n)

unseen-le : (number : ℕ) (seen : List ℕ) (n : ℕ) → unseen (number ∷ seen) n ≤ unseen seen n
unseen-le number seen zero = omega arith
unseen-le number seen (suc n) = ground (arith, unseen-le number seen n)

unseen-lt :
    (number : ℕ) (seen : List ℕ) (n : ℕ)
    → 1 ≤ number
    → number ≤ n
    → contains number seen ≡ false
    → unseen (number ∷ seen) n + 1 ≤ unseen seen n
unseen-lt number seen zero h k new = ground arith
unseen-lt number seen (suc n) h k new = elim (Bool-cases (nat_beq number (suc n))) [
  | inl same ↦
      let e : number ≡ suc n = (nat_beq_iff number (suc n)).0 same in
      let absent : contains (suc n) seen ≡ false = rw (← e) new in
      rw (same, absent) (omega (arith, unseen-le number seen n))
  | inr other ↦ ground (arith, unseen-lt number seen n)
]

length-select_from-le :
    (acc : List ChatSource) (seen numbers : List ℕ)
    → length (select_from acc seen numbers) ≤ unseen seen (length acc)
unfolding select_from
length-select_from-le acc seen [] = omega arith
length-select_from-le acc seen (n ∷ ns) =
    elim (Bool-cases (leb 1 n && leb n (length acc) && not (contains n seen))) [
      | inl taken ↦
          let (c, there) = get-some acc (n - 1) (ground arith) in
          let fewer : unseen (n ∷ seen) (length acc) + 1 ≤ unseen seen (length acc) =
            unseen-lt n seen (length acc) (ground arith) (ground arith) (ground arith) in
          rw (taken, select_from)
            (rw there (omega (arith, fewer, length-select_from-le acc (n ∷ seen) ns)))
      | inr passed ↦ rw (passed, select_from) (length-select_from-le acc seen ns)
    ]

-- An answer cites no more sources than there are.
pub length-select_cited_sources-le :
    (acc : List ChatSource) (cited : List ℕ) → length (select_cited_sources acc cited) ≤ length acc
unfolding select_cited_sources
length-select_cited_sources-le acc cited =
    omega (arith, length-select_from-le acc [] cited, unseen-nil (length acc))

length-dedupe-le :
    (seen : List ℕ) (xs : List ChatSource)
    → length (dedupe (λ s. s.resource_id) seen xs) ≤ length xs
unfolding dedupe
length-dedupe-le seen [] = omega arith
length-dedupe-le seen (x ∷ xs) = elim (Bool-cases (contains x.resource_id seen)) [
  | inl known ↦ rw (known, dedupe) (omega (arith, length-dedupe-le seen xs))
  | inr new ↦ rw (new, dedupe) (omega (arith, length-dedupe-le (x.resource_id ∷ seen) xs))
]

pub length-accumulate-le :
    (sources : List ChatSource) → length (accumulate_sources [] sources) ≤ length sources
unfolding accumulate_sources
length-accumulate-le sources = length-dedupe-le [] sources
