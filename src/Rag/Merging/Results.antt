-- ===== src/Rag/Merging/Results.antt =====
-- What the reranker and the search of several queries give back.
use be25_fin_thanos_meetbowl.Prelude.{
  ℕ, zero, suc, ◌≤◌, ◌≡◌, refl, ap, ◌≢◌, inl, inr, true, false, not, List, [], ◌∷◌, ◌++◌, arith,
  leb, nat_beq, if◌then◌else◌, leb→le, nat_beq_iff, or-true, Bool-cases, Option-cases, ◌==◌, nat_eq,
  list_eq, option_eq, pair_eq, contains, Distinct, beq_refl, contains-append, length, get_elem?,
  take, select, All, length-take, length-take-le, All-take, All-imp, All-both, All-select, All-get,
}
use be25_fin_thanos_meetbowl.Sort.{sort_by, All-sort_by}
use be25_fin_thanos_meetbowl.Errors.{returned-eq, returned}
use be25_fin_thanos_meetbowl.Schemas.{Uuid, Score}
use be25_fin_thanos_meetbowl.Schemas.Chat.{ChatSource}
use be25_fin_thanos_meetbowl.Rag.Merging.{
  max_snippet_chars, merged_snippet, merge_chat_sources, Collected, nothing_collected, diversify,
  ordered_by_score, rerank, merge_hit, merge_rank, merge_ranks, merge_ranked,
}
use be25_fin_thanos_meetbowl.Rag.Merging.Known.{ids, Holds, nothing-Holds, absorb-Holds}

-- The schema's bound on a snippet.
abbrev pub IsShort : ChatSource → Type 0
IsShort source = length source.snippet ≤ max_snippet_chars

-- Short, of at least the threshold, and of a known document.
abbrev pub IsHit : Score → List Uuid → ChatSource → Type 0
IsHit threshold known source =
    IsShort source × (threshold ≤ source.score) × (contains source.resource_id known ≡ true)

pub record AreSources (limit : ℕ) (threshold : Score) (known : List Uuid)
    (sources : List ChatSource) : Type 0 where
  pub bounded : length sources ≤ limit
  pub distinct : Distinct (ids sources)
  pub each : All (IsHit threshold known) sources

merge-IsHit :
    (threshold : Score) (known : List Uuid) (a b m : ChatSource)
    → IsHit threshold known a
    → IsHit threshold known b
    → merge_chat_sources a b ≡ returned m
    → IsHit threshold known m
unfolding merge_chat_sources merged_snippet
merge-IsHit threshold known a b m h k e = elim (Bool-cases (a.resource_id == b.resource_id)) [
  | inr other ↦ cc (rw other at e)
  | inl same ↦
      rw (← returned-eq (rw same at e))
        (length-take-le max_snippet_chars _, omega (arith, h.1), h.2)
]

contains-take :
    (a : Uuid) (n : ℕ) (xs : List Uuid) → contains a xs ≡ false → contains a (take n xs) ≡ false
contains-take a zero xs h = refl
contains-take a (suc n) [] h = refl
contains-take a (suc n) (x ∷ xs) h = ground (arith, contains-take a n xs)

ids-take : (n : ℕ) (xs : List ChatSource) → ids (take n xs) ≡ take n (ids xs)
ids-take zero xs = refl
ids-take (suc n) [] = refl
ids-take (suc n) (x ∷ xs) = ap (λ ys. x.resource_id ∷ ys) (ids-take n xs)

Distinct-take : (n : ℕ) (xs : List ChatSource) → Distinct (ids xs) → Distinct (ids (take n xs))
Distinct-take zero xs h = tt
Distinct-take (suc n) [] h = tt
Distinct-take (suc n) (x ∷ xs) h =
    (rw (ids-take n xs) (contains-take x.resource_id n (ids xs) h.0), Distinct-take n xs h.1)

-- Every source is of a document that is known, if the sources' documents are.
pub all_known :
    (xs : List ChatSource) (known : List Uuid)
    → ((a : Uuid) → contains a (ids xs) ≡ true → contains a known ≡ true)
    → All (λ source. contains source.resource_id known ≡ true) xs
all_known [] known h = tt
all_known (x ∷ xs) known h = (
  h x.resource_id (rw (beq_refl x.resource_id) refl),
  all_known xs known (λ a there. h a (rw there (ground arith))),
)

diversify-Holds :
    (threshold : Score) (known : List Uuid) (xs : List ChatSource) (state : Collected)
    → All (IsHit threshold known) xs
    → Holds (IsHit threshold known) (merge-IsHit threshold known) state
    → (state' : Collected) × (diversify xs state ≡ returned state')
      × Holds (IsHit threshold known) (merge-IsHit threshold known) state'
unfolding diversify
diversify-Holds threshold known [] state h k = (state, refl, k)
diversify-Holds threshold known (x ∷ xs) state h k =
    let (next, returns, holds, _) =
      absorb-Holds (IsHit threshold known) (merge-IsHit threshold known) true state x k h.0 in
    let (last, returns', holds') = diversify-Holds threshold known xs next h.1 holds in
    (last, rw (returns, returns') refl, holds')

-- Reranking does not raise: at most `top_n` sources of distinct documents come back, each of a document
-- that was found, with a score of at least the threshold and a snippet of at most 2000 characters.
pub rerank-AreSources :
    (threshold : Score) (sources : List ChatSource) (top_n : ℕ)
    → All IsShort sources
    → (result : List ChatSource) × (rerank threshold sources top_n ≡ returned result)
      × AreSources top_n threshold (ids sources) result
unfolding rerank ordered_by_score
rerank-AreSources threshold sources top_n h =
    let known = ids sources in
    let found = all_known sources known (λ a there. there) in
    let (state, returns, holds) =
      diversify-Holds threshold known
        (select (λ source. leb threshold source.score)
          (sort_by (λ a b. leb b.score a.score) sources))
        nothing_collected
        (All-imp _ (IsHit threshold known) (λ s (p, q). (p.0, leb→le _ _ q, p.1)) _
          (All-select (λ s. IsShort s × (contains s.resource_id known ≡ true))
            (λ s. leb threshold s.score) _
            (All-sort_by _ _ sources (All-both IsShort _ sources h found))))
        (nothing-Holds (IsHit threshold known) (merge-IsHit threshold known)) in
    (
      take top_n state.sources,
      rw returns refl,
      record {
        bounded = omega (arith, length-take top_n state.sources);
        distinct = Distinct-take top_n state.sources holds.distinct;
        each = All-take (IsHit threshold known) top_n state.sources holds.each;
      },
    )

not_equal : (a b : ℕ) → nat_beq a b ≡ false → a ≢ b
not_equal a b h e = ground (arith, nat_beq_iff a b)

-- The sources of every query.
abbrev pub all_ids : List (List ChatSource) → List Uuid
all_ids [] = []
all_ids (ranked ∷ lists) = ids ranked ++ all_ids lists

module _ (top_n : ℕ) (known : List Uuid) where
  abbrev Full : Collected → Type 0
  Full state = Holds (IsHit 0 known) (merge-IsHit 0 known) state × (length state.sources ≤ top_n)

  room_left :
      (state next : Collected)
      → length next.sources ≤ (
          if not (nat_beq (length state.sources) top_n)
          then suc (length state.sources)
          else length state.sources)
      → length state.sources ≤ top_n
      → length next.sources ≤ top_n
  room_left state next h k = elim (Bool-cases (nat_beq (length state.sources) top_n)) [
    | inl full ↦ omega (arith, rw full at h, k)
    | inr room ↦ omega (arith, rw room at h, k, not_equal _ _ room)
  ]

  merge_hit-Full :
      (state : Collected) (ranked : List ChatSource) (rank : ℕ)
      → All (IsHit 0 known) ranked
      → Full state
      → (state' : Collected) × (merge_hit top_n state (get_elem? ranked rank) ≡ returned state')
        × Full state'
  unfolding merge_hit
  merge_hit-Full state ranked rank h (k, bound) = elim (Option-cases (get_elem? ranked rank)) [
    | inl past ↦ (state, rw past refl, (k, bound))
    | inr (source, there) ↦
        let (next, returns, holds, count) =
          absorb-Holds (IsHit 0 known) (merge-IsHit 0 known)
            (not (nat_beq (length state.sources) top_n)) state source k
            (All-get (IsHit 0 known) ranked rank source h there) in
        (next, rw there returns, (holds, room_left state next count bound))
  ]

  merge_rank-Full :
      (lists : List (List ChatSource)) (state : Collected) (rank : ℕ)
      → All (All (IsHit 0 known)) lists
      → Full state
      → (state' : Collected) × (merge_rank top_n rank lists state ≡ returned state') × Full state'
  unfolding merge_rank
  merge_rank-Full [] state rank h k = (state, refl, k)
  merge_rank-Full (ranked ∷ lists) state rank h k =
      let (next, returns, full) = merge_hit-Full state ranked rank h.0 k in
      let (last, returns', full') = merge_rank-Full lists next rank h.1 full in
      (last, rw (returns, returns') refl, full')

  merge_ranks-Full :
      (left rank : ℕ) (lists : List (List ChatSource)) (state : Collected)
      → All (All (IsHit 0 known)) lists
      → Full state
      → (state' : Collected) × (merge_ranks top_n left rank lists state ≡ returned state')
        × Full state'
  unfolding merge_ranks
  merge_ranks-Full zero rank lists state h k = (state, refl, k)
  merge_ranks-Full (suc left) rank lists state h k =
      let (next, returns, full) = merge_rank-Full lists state rank h k in
      let (last, returns', full') = merge_ranks-Full left (suc rank) lists next h full in
      (last, rw (returns, returns') refl, full')

all_hits :
    (known : List Uuid) (lists : List (List ChatSource))
    → All (All IsShort) lists
    → ((a : Uuid) → contains a (all_ids lists) ≡ true → contains a known ≡ true)
    → All (All (IsHit 0 known)) lists
all_hits known [] h k = tt
all_hits known (ranked ∷ lists) h k = (
  All-imp _ (IsHit 0 known) (λ s (p, q). (p, omega arith, q)) ranked
      (All-both IsShort _ ranked h.0 (
        all_known ranked known
          (λ a there. k a (rw (contains-append a (ids ranked) (all_ids lists), there) refl)))),
  all_hits known lists h.1 (λ a there. k a (
      rw (contains-append a (ids ranked) (all_ids lists), there)
        (or-true (contains a (ids ranked))))),
)

-- Whatever the queries find, in however many lists, the merging of their hits does not raise: at most
-- `top_n` sources of distinct documents, each found by some query, each with a snippet of at most 2000
-- characters.
pub merge_ranked-AreSources :
    (top_n : ℕ) (lists : List (List ChatSource))
    → All (All IsShort) lists
    → (result : List ChatSource) × (merge_ranked top_n lists ≡ returned result)
      × AreSources top_n 0 (all_ids lists) result
unfolding merge_ranked
merge_ranked-AreSources top_n lists h =
    let known = all_ids lists in
    let (state, returns, (holds, bound)) =
      merge_ranks-Full top_n known top_n 0 lists nothing_collected
        (all_hits known lists h (λ a there. there))
        (nothing-Holds (IsHit 0 known) (merge-IsHit 0 known), omega arith) in
    (
      state.sources,
      rw returns refl,
      record { bounded = bound; distinct = holds.distinct; each = holds.each },
    )
