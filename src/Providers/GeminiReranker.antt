-- ===== src/Providers/GeminiReranker.antt =====
-- app/providers/gemini_reranker.py: `GeminiReranker.rerank`. The call of the model with the reading of its
-- answer is a parameter; any exception in it is `raised`.
pub mod Reranked
use be25_fin_thanos_meetbowl.Prelude.{
  ℕ, suc, min, Option, none, some, List, [], ◌∷◌, ◌++◌, ltb, leb, if◌then◌else◌, nat_eq, length,
  take, select,
}
use be25_fin_thanos_meetbowl.Prelude.Dict.{Dict, lookup, insert}
use be25_fin_thanos_meetbowl.Text.{Text, codes, decimal, join}
use be25_fin_thanos_meetbowl.Sort.{sort_by}
use be25_fin_thanos_meetbowl.Errors.{Raises, returned, raised}
use be25_fin_thanos_meetbowl.Schemas.{Score}
use be25_fin_thanos_meetbowl.Schemas.Chat.{ChatSource}

abbrev pub snippet_preview_chars : ℕ
snippet_preview_chars = 400

-- A score below 0, which the reranker moves to 0, is 0 here.
pub record RankedItem : Type 0 where
  pub index : ℕ
  pub score : Score

unfoldable pub candidates_from : ℕ → List ChatSource → List Text
candidates_from index [] = []
candidates_from index (source ∷ sources) =
    (codes "["
      ++ decimal index
      ++ codes "] "
      ++ source.title
      ++ codes "\n"
      ++ take snippet_preview_chars source.snippet)
    ∷ candidates_from (suc index) sources

unfoldable pub build_prompt : Text → List ChatSource → Text
unfolding candidates_from
build_prompt query sources =
    codes "다음 질문과 각 문서의 관련도를 0~1 사이 점수로 평가하세요.\n모든 문서를 index와 score로 빠짐없이 채점해 JSON으로만 답하세요.\n\n질문: "
    ++ query
    ++ codes "\n\n문서:\n"
    ++ join (codes "\n\n") (candidates_from 0 sources)

-- `{item.index: item.score for item in items if 0 <= item.index < count}`
unfoldable pub score_by_index : ℕ → List RankedItem → Dict ℕ Score → Dict ℕ Score
unfolding insert
score_by_index count [] scores = scores
score_by_index count (item ∷ items) scores =
    score_by_index count items
      (if ltb item.index count then insert item.index item.score scores else scores)

abbrev pub or_zero : Option Score → Score
or_zero none = 0
or_zero (some score) = score

-- `clamp` is `max(0.0, min(1.0, score))`.
unfoldable pub rescored_from :
    (Score → Score) → Dict ℕ Score → ℕ → List ChatSource → List ChatSource
unfolding lookup
rescored_from clamp scores index [] = []
rescored_from clamp scores index (source ∷ sources) =
    record source { score = clamp (or_zero (lookup index scores)) }
    ∷ rescored_from clamp scores (suc index) sources

unfoldable pub apply_scores : Score → List RankedItem → List ChatSource → List ChatSource
unfolding score_by_index rescored_from sort_by
apply_scores one items sources =
    sort_by (λ a b. leb b.score a.score)
      (rescored_from (min one) (score_by_index (length sources) items []) 0 sources)

unfoldable pub kept_of :
    Score → Score → List ChatSource → ℕ → Raises (List RankedItem) → List ChatSource
unfolding apply_scores
kept_of one score_threshold sources top_n (raised error) = take top_n sources
kept_of one score_threshold sources top_n (returned items) =
    take top_n
      (select (λ source. leb score_threshold source.score) (apply_scores one items sources))

-- `one` is the score 1.0; `ask` is `_score` after the prompt is built.
unfoldable pub rerank :
    (Text → Raises (List RankedItem)) → Score → Score → Text → List ChatSource → ℕ → List ChatSource
unfolding kept_of build_prompt
rerank ask one score_threshold query sources top_n =
    if leb (length sources) 1
    then take top_n sources
    else kept_of one score_threshold sources top_n (ask (build_prompt query sources))
