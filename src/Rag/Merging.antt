-- ===== src/Rag/Merging.antt =====
-- app/rag/source_merge.py, app/providers/vector_score_reranker.py and app/rag/multi_query_search.py:
-- hits of one document become one source. The embedding, the search and the reranking of one query are
-- parameters; of several queries that fail, the error is that of the first in the list.
pub mod Known
pub mod Results
use be25_fin_thanos_meetbowl.Prelude.{
  ℕ, zero, suc, ◌+◌, ◌-◌, ◌*◌, ◌/◌, ◌%◌, ◌^◌, ◌≤◌, ◌<◌, min, max, ◌≡◌, refl, sym, ap, ◌∙◌, ◌≢◌, ◌↔◌,
  ◌⊎◌, inl, inr, Bool, true, false, not, ◌&&◌, ◌||◌, Option, none, some, List, [], ◌∷◌, ◌++◌, map,
  append-nil, append_assoc, arith, ltb, leb, nat_beq, if◌then◌else◌, ltb→lt, lt→ltb, leb→le, le→leb,
  not-ltb→le, not-leb→lt, nat_beq_iff, tests, Bool-cases, Option-cases, is_none, Bool-ext, Eq, ◌==◌,
  nat_eq, list_eq, option_eq, pair_eq, contains, Distinct, beq_refl, beq_sound, beq_comm,
  contains-append, Distinct-snoc, list_beq_iff, length, get_elem?, set, take, drop, null, select,
  all, All, length-append, length-take, length-drop, take-append-drop, length-select-le, All-append,
  All-take, length-map,
}
use be25_fin_thanos_meetbowl.Prelude.Dict.{Dict, lookup, insert}
use be25_fin_thanos_meetbowl.Text.{Text, codes, strip, split_on, join}
use be25_fin_thanos_meetbowl.Dedupe.{dedupe}
use be25_fin_thanos_meetbowl.Sort.{sort_by}
use be25_fin_thanos_meetbowl.Errors.{Raises, returned, raised, other, ◌>>=◌}
use be25_fin_thanos_meetbowl.Schemas.{Uuid, Score}
use be25_fin_thanos_meetbowl.Schemas.Chat.{ChatSource}

abbrev pub max_snippet_chars : ℕ
max_snippet_chars = 2000

abbrev pub max_sections : ℕ
max_sections = 6

abbrev pub section_separator : Text
section_separator = codes "\n\n--- related chunk ---\n\n"

-- The sections of both snippets, stripped, each once, at most six.
unfoldable pub sections_of : Text → Text → List Text
unfolding dedupe
sections_of primary additional = take max_sections (
    dedupe (λ section. section) []
      (select (λ section. not (null section))
        (map strip (split_on section_separator primary ++ split_on section_separator additional))))

-- `max(1, (2000 - separators) // max(1, sections))`
unfoldable pub section_limit : ℕ → ℕ
section_limit count =
    max 1 ((max_snippet_chars - length section_separator * (count - 1)) / max 1 count)

unfoldable pub merged_snippet : List Text → Text
unfolding section_limit
merged_snippet sections =
    take max_snippet_chars
      (join section_separator (map (take (section_limit (length sections))) sections))

unfoldable pub merge_chat_sources : ChatSource → ChatSource → Raises ChatSource
unfolding sections_of merged_snippet
merge_chat_sources primary additional =
    if primary.resource_id == additional.resource_id
    then returned (record primary {
      snippet = merged_snippet (sections_of primary.snippet additional.snippet);
      score = max primary.score additional.score;
    })
    else raised (other (codes "ValueError"))

-- `sources[i] = merge_chat_sources(sources[i], source)`
unfoldable pub merge_at : List ChatSource → ℕ → ChatSource → Raises (List ChatSource)
unfolding merge_chat_sources
merge_at [] i source = raised (other (codes "IndexError"))
merge_at (x ∷ xs) zero source = merge_chat_sources x source >>= (λ merged. returned (merged ∷ xs))
merge_at (x ∷ xs) (suc i) source = merge_at xs i source >>= (λ merged. returned (x ∷ merged))

-- A list that grows, with `index_by_resource_id`.
pub record Collected : Type 0 where
  pub sources : List ChatSource
  pub index : Dict Uuid ℕ

abbrev pub nothing_collected : Collected
nothing_collected = record { sources = []; index = [] }

unfoldable pub absorb_at : Bool → Collected → ChatSource → Option ℕ → Raises Collected
unfolding merge_at
absorb_at room state source (some i) =
    merge_at state.sources i source >>= (λ merged. returned (record state { sources = merged }))
absorb_at true state source none = returned (record {
  sources = state.sources ++ source ∷ [];
  index = insert source.resource_id (length state.sources) state.index;
})
absorb_at false state source none = returned state

-- A source whose document is known is merged, a new one is added while there is room.
unfoldable pub absorb : Bool → Collected → ChatSource → Raises Collected
unfolding absorb_at
absorb room state source = absorb_at room state source (lookup source.resource_id state.index)

unfoldable pub diversify : List ChatSource → Collected → Raises Collected
unfolding absorb
diversify [] state = returned state
diversify (source ∷ sources) state = absorb true state source >>= diversify sources

-- `sorted(sources, key=score, reverse=True)` keeps the order of equal scores.
unfoldable pub ordered_by_score : List ChatSource → List ChatSource
unfolding sort_by
ordered_by_score sources = sort_by (λ a b. leb b.score a.score) sources

-- `VectorScoreReranker.rerank`
unfoldable pub rerank : Score → List ChatSource → ℕ → Raises (List ChatSource)
unfolding diversify ordered_by_score
rerank score_threshold sources top_n =
    diversify (select (λ source. leb score_threshold source.score) (ordered_by_score sources))
      nothing_collected
    >>= (λ state. returned (take top_n state.sources))

-- The inner loop: the hits of one rank, while fewer than `top_n` sources are collected.
unfoldable pub merge_hit : ℕ → Collected → Option ChatSource → Raises Collected
unfolding absorb
merge_hit top_n state none = returned state
merge_hit top_n state (some source) =
    absorb (not (nat_beq (length state.sources) top_n)) state source

unfoldable pub merge_rank : ℕ → ℕ → List (List ChatSource) → Collected → Raises Collected
unfolding merge_hit
merge_rank top_n rank [] state = returned state
merge_rank top_n rank (ranked ∷ lists) state =
    merge_hit top_n state (get_elem? ranked rank) >>= merge_rank top_n rank lists

-- The ranks from `rank` on, as many as are left.
unfoldable pub merge_ranks : ℕ → ℕ → ℕ → List (List ChatSource) → Collected → Raises Collected
unfolding merge_rank
merge_ranks top_n zero rank lists state = returned state
merge_ranks top_n (suc left) rank lists state =
    merge_rank top_n rank lists state >>= merge_ranks top_n left (suc rank) lists

unfoldable pub merge_ranked : ℕ → List (List ChatSource) → Raises (List ChatSource)
unfolding merge_ranks
merge_ranked top_n lists =
    merge_ranks top_n top_n 0 lists nothing_collected >>= (λ state. returned state.sources)

-- What the search of one query is made of.
pub record Retrieval : Type 1 where
  pub Vector : Type 0
  pub embed : Text → Raises Vector
  pub search : Vector → Text → Raises (List ChatSource)
  pub rerank_sources : Text → List ChatSource → ℕ → Raises (List ChatSource)

module _ (retrieval : Retrieval) where
  open retrieval use {embed, search, rerank_sources}

  unfoldable pub search_one : ℕ → Text → Raises (List ChatSource)
  search_one top_n query = do
    vector ← embed query
    candidates ← search vector query
    rerank_sources query candidates top_n

  unfoldable pub gather : ℕ → List Text → Raises (List (List ChatSource))
  unfolding search_one
  gather top_n [] = returned []
  gather top_n (query ∷ queries) = do
    ranked ← search_one top_n query
    lists ← gather top_n queries
    returned (ranked ∷ lists)

  unfoldable pub search_queries_in_parallel : ℕ → List Text → Raises (List ChatSource)
  unfolding gather merge_ranked
  search_queries_in_parallel top_n queries = gather top_n queries >>= merge_ranked top_n
