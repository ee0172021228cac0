-- ===== src/Providers/GeminiReranker/Reranked.antt =====
-- What the reranker by the model gives back.
use be25_fin_thanos_meetbowl.Prelude.{
  ℕ, suc, ◌≤◌, min, ◌≡◌, inl, inr, true, List, [], ◌∷◌, leb, Bool-cases, nat_eq, list_eq, option_eq,
  pair_eq, contains, length, All, length-take-le, All-take, All-imp, All-select,
}
use be25_fin_thanos_meetbowl.Text.{Text}
use be25_fin_thanos_meetbowl.Sort.{All-sort_by}
use be25_fin_thanos_meetbowl.Errors.{Raises, returned, raised}
use be25_fin_thanos_meetbowl.Schemas.{Score}
use be25_fin_thanos_meetbowl.Schemas.Chat.{ChatSource}
use be25_fin_thanos_meetbowl.Prelude.Dict.{Dict}
use be25_fin_thanos_meetbowl.Rag.Merging.Results.{all_known}
use be25_fin_thanos_meetbowl.Rag.Merging.Known.{ids}
use be25_fin_thanos_meetbowl.Providers.GeminiReranker.{
  RankedItem, rescored_from, apply_scores, kept_of, rerank,
}

abbrev IsFound : List ChatSource → ChatSource → Type 0
IsFound sources source = contains source.resource_id (ids sources) ≡ true

rescored-IsFound :
    (clamp : Score → Score) (scores : Dict ℕ Score) (index : ℕ) (found sources : List ChatSource)
    → All (IsFound found) sources
    → All (IsFound found) (rescored_from clamp scores index sources)
unfolding rescored_from
rescored-IsFound clamp scores index found [] h = tt
rescored-IsFound clamp scores index found (source ∷ sources) h =
    (h.0, rescored-IsFound clamp scores (suc index) found sources h.1)

kept_of-IsFound :
    (one threshold : Score) (sources : List ChatSource) (top_n : ℕ)
    (answer : Raises (List RankedItem))
    → All (IsFound sources) sources
    → (length (kept_of one threshold sources top_n answer) ≤ top_n)
      × All (IsFound sources) (kept_of one threshold sources top_n answer)
unfolding kept_of apply_scores
kept_of-IsFound one threshold sources top_n (raised error) h =
    (length-take-le top_n sources, All-take (IsFound sources) top_n sources h)
kept_of-IsFound one threshold sources top_n (returned items) h = (
  length-take-le top_n _,
  All-take (IsFound sources) top_n _ (
      All-imp _ (IsFound sources) (λ s k. k.0) _
        (All-select (IsFound sources) (λ source. leb threshold source.score) _
          (All-sort_by (λ a b. leb b.score a.score) (IsFound sources) _
            (rescored-IsFound (min one) _ 0 sources sources h)))),
)

-- Whether the model answers, errs or names sources that do not exist: at most `top_n` sources come back,
-- each of a document that was found.
pub rerank-IsFound :
    (ask : Text → Raises (List RankedItem)) (one threshold : Score) (query : Text)
    (sources : List ChatSource) (top_n : ℕ)
    → (length (rerank ask one threshold query sources top_n) ≤ top_n)
      × All
          (λ source. contains source.resource_id (ids sources) ≡ true)
          (rerank ask one threshold query sources top_n)
unfolding rerank
rerank-IsFound ask one threshold query sources top_n =
    let found = all_known sources (ids sources) (λ a there. there) in
    elim (Bool-cases (leb (length sources) 1)) [
      | inl few ↦
          rw few (length-take-le top_n sources, All-take (IsFound sources) top_n sources found)
      | inr many ↦ rw many (kept_of-IsFound one threshold sources top_n _ found)
    ]
