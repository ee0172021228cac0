-- ===== src/Rag/QueryExpansion/Planned.antt =====
-- How many searches a question makes.
use be25_fin_thanos_meetbowl.Prelude.{
  ℕ, ◌≤◌, ◌≡◌, refl, inl, inr, false, Option, none, some, List, arith, leb, Bool-cases, nat_eq,
  list_eq, option_eq, pair_eq, length, drop, null, length-take,
}
use be25_fin_thanos_meetbowl.Prelude.Dict.{Dict}
use be25_fin_thanos_meetbowl.Text.{Text}
use be25_fin_thanos_meetbowl.Errors.{Raises, returned}
use be25_fin_thanos_meetbowl.Cache.{
  Cache, lookup_value, with_lock, computed, or_compute, locked, get_or_compute,
}
use be25_fin_thanos_meetbowl.Rag.QueryExpansion.{
  expand_queries, Expansion, merge_queries, compute_queries, search_queries,
}

merge_queries-few :
    (expanded : List Text)
    → null (merge_queries expanded) ≡ false × (length (merge_queries expanded) ≤ 3)
unfolding merge_queries
merge_queries-few expanded = elim (Bool-cases (leb (length expanded) 2)) [
  | inl few ↦ rw few (refl, omega arith)
  | inr many ↦ rw many (refl, omega (arith, length-take 2 (drop 2 expanded)))
]

or-returned :
    (max_size : ℕ) (key : Text) (end : ℕ) (value : List Text)
    (found : Option (List Text) × Cache (List Text))
    → (v : List Text) × ((or_compute max_size key end (returned value) found).0 ≡ returned v)
unfolding or_compute computed
or-returned max_size key end value (some v, c) = (v, refl)
or-returned max_size key end value (none, c) = (value, refl)

locked-returned :
    (max_size : ℕ) (ttl : Option ℕ) (key : Text) (again end : ℕ) (value : List Text)
    (found : Option (List Text) × Cache (List Text))
    → (v : List Text) × ((locked max_size ttl key again end (returned value) found).0 ≡ returned v)
unfolding locked
locked-returned max_size ttl key again end value (some v, c) = (v, refl)
locked-returned max_size ttl key again end value (none, c) =
    or-returned max_size key end value (lookup_value ttl key again (with_lock key c))

module _ (generate : Text → Raises Expansion) (lower : Text → Text)
    (glossary : Dict Text Text) where
  get-returned :
      (max_size : ℕ) (ttl : Option ℕ) (key : Text) (now again end : ℕ) (value : List Text)
      (c : Cache (List Text))
      → (found : List Text) × ((get_or_compute max_size ttl key now again end (returned value) c).0
          ≡ returned found)
  unfolding get_or_compute
  get-returned max_size ttl key now again end value c =
      locked-returned max_size ttl key again end value (lookup_value ttl key now c)

  -- Whether the model answers or fails, and whether the cache has the question or not, a question makes
  -- between one and three searches.
  pub search_queries-few :
      (max_size : ℕ) (ttl : Option ℕ) (now again end : ℕ) (query : Text)
      (cache : Option (Cache (List Text)))
      → (queries : List Text) × ((search_queries generate lower glossary max_size ttl now again end
            query cache).0
          ≡ returned queries)
        × (null queries ≡ false)
        × (length queries ≤ 3)
  unfolding search_queries expand_queries
  search_queries-few max_size ttl now again end query none =
      let (some_, few) = merge_queries-few (compute_queries generate lower glossary query) in
      (merge_queries (compute_queries generate lower glossary query), refl, some_, few)
  search_queries-few max_size ttl now again end query (some cache) =
      let (found, same) =
        get-returned max_size ttl query now again end
          (compute_queries generate lower glossary query) cache in
      let (some_, few) = merge_queries-few found in (merge_queries found, rw same refl, some_, few)
