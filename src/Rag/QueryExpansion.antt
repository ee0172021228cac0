-- ===== src/Rag/QueryExpansion.antt =====
-- app/rag/query_expansion.py: `QueryExpander`. The generation port, which makes its prompt from the query,
-- and `str.lower` are parameters.
pub mod Planned
use be25_fin_thanos_meetbowl.Prelude.{
  ℕ, not, Option, none, some, List, [], ◌∷◌, ◌++◌, map, leb, if◌then◌else◌, nat_eq, list_eq, length,
  take, drop, null, select,
}
use be25_fin_thanos_meetbowl.Prelude.Dict.{Dict}
use be25_fin_thanos_meetbowl.Text.{Text, codes, strip, join, is_infix}
use be25_fin_thanos_meetbowl.Dedupe.{dedupe}
use be25_fin_thanos_meetbowl.Errors.{Raises, returned, raised, ◌>>=◌}
use be25_fin_thanos_meetbowl.Cache.{Cache, get_or_compute}

abbrev pub max_search_queries : ℕ
max_search_queries = 4

abbrev pub max_parallel_searches : ℕ
max_parallel_searches = 3

pub record Expansion : Type 0 where
  pub translation : Text
  pub name_aliases : List Text
  pub search_facets : List Text

-- `_DEFAULT_NAME_GLOSSARY`
abbrev pub default_name_glossary : Dict Text Text
default_name_glossary =
    (codes "이다윗", codes "Dawit Lee")
    ∷ (codes "최진우", codes "Jinwoo Choi")
    ∷ (codes "박서연", codes "Suhyun Park")
    ∷ (codes "김민지", codes "Minji Kim")
    ∷ []

-- `[x.strip() for x in xs if x.strip()]`
unfoldable pub stripped : List Text → List Text
stripped xs = select (λ x. not (null x)) (map strip xs)

-- The queries, once the aliases, the translation and the facets are known.
unfoldable pub plan_queries : Text → List Text → Text → List Text → List Text
unfolding dedupe
plan_queries query aliases translation facets =
    let deduped_aliases = dedupe (λ alias. alias) [] aliases in
    let original =
      if null deduped_aliases
      then query
      else query ++ codes "\n" ++ join (codes " ") deduped_aliases in
    take max_search_queries (
      dedupe (λ q. q) [] (original ∷ (if null translation then [] else translation ∷ []) ++ facets))

-- What is searched for several queries: the first two as one.
unfoldable pub merge_queries : List Text → List Text
merge_queries expanded =
    if leb (length expanded) 2
    then join (codes "\n") expanded ∷ []
    else take max_parallel_searches (join (codes "\n") (take 2 expanded) ∷ drop 2 expanded)

module _ (generate : Text → Raises Expansion) (lower : Text → Text)
    (glossary : Dict Text Text) where
  unfoldable pub aliases_in : Text → Dict Text Text → List Text
  aliases_in query [] = []
  aliases_in query ((korean, english) ∷ names) =
      let rest = aliases_in query names in
      if is_infix korean query
      then english ∷ rest
      else if is_infix (lower english) (lower query)
      then korean ∷ rest
      else rest

  unfoldable pub glossary_aliases : Text → List Text
  unfolding aliases_in
  glossary_aliases query = aliases_in query glossary

  -- Whatever the generation raises, the query goes on without it.
  unfoldable pub expanded_by : Text → Raises Expansion → List Text
  unfolding plan_queries glossary_aliases stripped
  expanded_by query (returned expansion) =
      plan_queries query (glossary_aliases query ++ stripped expansion.name_aliases)
        (strip expansion.translation) (stripped (take 3 expansion.search_facets))
  expanded_by query (raised error) = plan_queries query (glossary_aliases query) [] []

  unfoldable pub compute_queries : Text → List Text
  unfolding expanded_by
  compute_queries query = expanded_by query (generate query)

  -- With a cache, its size, its time to live and the moments of the calls; `none` is no cache.
  unfoldable pub expand_queries :
      ℕ
      → Option ℕ
      → ℕ
      → ℕ
      → ℕ
      → Text
      → Option (Cache (List Text))
      → Raises (List Text) × Option (Cache (List Text))
  unfolding compute_queries get_or_compute
  expand_queries max_size ttl now again end query none = (returned (compute_queries query), none)
  expand_queries max_size ttl now again end query (some cache) =
      let (queries, cache') =
        get_or_compute max_size ttl query now again end (returned (compute_queries query)) cache in
      (queries, some cache')

  unfoldable pub search_queries :
      ℕ
      → Option ℕ
      → ℕ
      → ℕ
      → ℕ
      → Text
      → Option (Cache (List Text))
      → Raises (List Text) × Option (Cache (List Text))
  unfolding merge_queries expand_queries
  search_queries max_size ttl now again end query cache =
      let (queries, cache') = expand_queries max_size ttl now again end query cache in
      (queries >>= (λ expanded. returned (merge_queries expanded)), cache')
