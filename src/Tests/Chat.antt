-- ===== src/Tests/Chat.antt =====
-- Chat sources of two documents, an agent that is overloaded once, and a small cache.
use be25_fin_thanos_meetbowl.Rag.Merging.Known.{ids}
use be25_fin_thanos_meetbowl.Prelude.{
  ℕ, suc, ◌≤◌, ◌≡◌, refl, true, false, none, some, List, [], ◌∷◌, arith, nat_beq, if◌then◌else◌,
  nat_eq, list_eq, option_eq, pair_eq, contains, Distinct, length, All,
}
use be25_fin_thanos_meetbowl.Text.{Text, codes, join, strip, splitlines}
use be25_fin_thanos_meetbowl.Errors.{returned}
use be25_fin_thanos_meetbowl.Schemas.{Uuid}
use be25_fin_thanos_meetbowl.Schemas.Chat.{ChatSource, ChatResult, GeneratedChatAnswer, minutes}
use be25_fin_thanos_meetbowl.Rag.Merging.{gather, merge_ranked, rerank}
use be25_fin_thanos_meetbowl.Rag.Merging.Results.{
  IsShort, AreSources, all_ids, rerank-AreSources, merge_ranked-AreSources,
}
use be25_fin_thanos_meetbowl.Providers.Citations.{
  accumulate_sources, format_with_citation_numbers, select_cited_sources,
}
use be25_fin_thanos_meetbowl.Providers.Citations.Shown.{AreNumbered, format-AreNumbered}
use be25_fin_thanos_meetbowl.Providers.Citations.Cited.{select_cited-Distinct}
use be25_fin_thanos_meetbowl.Providers.AnswerFormat.{Patterns, normalize_answer_format}
use be25_fin_thanos_meetbowl.Providers.Chat.{
  model_http_error, output, failed, Agent, is_retryable_overload, accumulate_batches, State,
  run_with_retry, start, answer,
}
use be25_fin_thanos_meetbowl.Providers.Chat.Retry.{calm, overload, run_with_retry-settled}
use be25_fin_thanos_meetbowl.Providers.Chat.Answer.{IsCited, answer-IsCited}
use be25_fin_thanos_meetbowl.Providers.SinglePass
use be25_fin_thanos_meetbowl.Providers.SinglePass.{search_queries_of}
use be25_fin_thanos_meetbowl.Cache.{Cache, entry_of, expired, get_or_compute}
use be25_fin_thanos_meetbowl.Cache.Kept.{IsKept, get_or_compute-IsKept, get_or_compute-remembers}
use be25_fin_thanos_meetbowl.Providers.SinglePass.Answered.{IsSourced, answer-IsSourced}
use be25_fin_thanos_meetbowl.Tests.Access.{question}

-- A hit in a document.
abbrev hit : Uuid → Text → ℕ → ChatSource
hit resource_id snippet score = record {
  type = minutes;
  resource_id = resource_id;
  title = codes "title";
  snippet = snippet;
  score = score;
}

abbrev hits : List ChatSource
hits = hit 1 (codes "a") 5 ∷ hit 2 (codes "b") 9 ∷ hit 1 (codes "c") 7 ∷ []

hits_within : All IsShort hits
hits_within = (omega arith, (omega arith, (omega arith, tt)))

rerank-AreSources_example :
    (result : List ChatSource) × (rerank 6 hits 1 ≡ returned result)
    × AreSources 1 6 (ids hits) result
rerank-AreSources_example = rerank-AreSources 6 hits 1 hits_within

merge_ranked-AreSources_example :
    (result : List ChatSource) × (merge_ranked 2 (hits ∷ hits ∷ []) ≡ returned result)
    × AreSources 2 0 (all_ids (hits ∷ hits ∷ [])) result
merge_ranked-AreSources_example =
    merge_ranked-AreSources 2 (hits ∷ hits ∷ []) (hits_within, (hits_within, tt))

abbrev known : List ChatSource
known = hit 2 (codes "b") 9 ∷ []

format-AreNumbered_example :
    (texts : List Text) × (format_with_citation_numbers (accumulate_sources known hits) hits
      ≡ returned (join (codes "\n\n") texts))
    × AreNumbered (accumulate_sources known hits) hits texts
format-AreNumbered_example = format-AreNumbered known hits (refl, tt)

abbrev listed : List ChatSource
listed = hit 2 (codes "b") 9 ∷ hit 1 (codes "a") 5 ∷ []

select_cited-Distinct_example :
    (contains 1 (ids (select_cited_sources listed (2 ∷ 7 ∷ 2 ∷ []))) ≡ true)
    × Distinct (ids (select_cited_sources listed (2 ∷ 7 ∷ 2 ∷ [])))
select_cited-Distinct_example =
    select_cited-Distinct listed (2 ∷ 7 ∷ 2 ∷ []) 1 (hit 1 (codes "a") 5) (refl, (refl, tt)) refl

abbrev generated : GeneratedChatAnswer
generated = record { answer = codes "yes"; cited_indices = 2 ∷ [] }

-- Overloaded while its state is 0.
abbrev agent : Agent
agent = record {
  World = ℕ;
  run = λ question history world. (
    record {
      batches = hits ∷ [];
      outcome = if nat_beq world 0 then failed (model_http_error 503) else output generated;
    },
    suc world,
  );
}

abbrev patterns : Patterns
patterns = record {
  remove_markers = λ t. t;
  tighten_punctuation = λ t. t;
  squeeze_blanks = λ t. t;
  is_heading = λ t. false;
  has_tag = λ t. false;
  feed = λ t. [];
  unescape = λ t. t;
  trim_line_ends = λ t. t;
  trim_line_starts = λ t. t;
  squeeze_lines = λ t. t;
  split_sentences = λ t. t ∷ [];
}

run_with_retry-settled_example :
    (s : State agent) × (run_with_retry agent 2 question (start agent 0) ≡ (returned generated, s))
    × (s.retrieved_sources ≡ accumulate_batches [] (hits ∷ []))
    × (length s.waits ≡ 1)
unfolding is_retryable_overload
run_with_retry-settled_example =
    run_with_retry-settled agent 2 1 question 0 1 (overload refl calm) (omega arith) refl

abbrev answered : ChatResult
answered = record {
  answer = codes "yes";
  sources = hit 1 (codes "a") 5 ∷ [];
  model = codes "m";
  prompt_version = codes "v";
}

abbrev after_answer : State agent
after_answer = record {
  world = 2;
  retrieved_sources = hit 1 (codes "a") 5 ∷ hit 2 (codes "b") 9 ∷ [];
  waits = 1 ∷ [];
}

abbrev cited : ChatResult
cited = record answered { sources = hit 2 (codes "b") 9 ∷ [] }

runs : answer agent patterns (codes "m") (codes "v") 2 question 0 ≡ (returned cited, after_answer)
unfolding answer strip splitlines
runs = refl

answer-IsCited_example : IsCited agent patterns question cited × (1 ≤ 2)
answer-IsCited_example =
    answer-IsCited agent patterns (codes "m") (codes "v") 2 question 0 cited after_answer runs

abbrev single_pass : SinglePass.Ports
single_pass = record {
  retrieval = record {
    Vector = ℕ;
    embed = λ query. returned 0;
    search = λ vector query. returned hits;
    rerank_sources = λ query sources top_n. returned sources;
  };
  expand = none;
  generate_structured = λ documents query. returned (generated, codes "m");
  patterns = patterns;
  model_name = codes "m";
  prompt_version = codes "v";
  top_n = 2;
}

answer-IsSourced_example :
    (result : ChatResult) × (found : List ChatSource) × (SinglePass.answer single_pass question
      ≡ returned result)
    × AreSources 2 0 (all_ids (hits ∷ [])) found
    × IsSourced single_pass question found result
unfolding gather search_queries_of normalize_answer_format strip splitlines
answer-IsSourced_example =
    answer-IsSourced single_pass question (question.question ∷ []) (hits ∷ [])
      (omega arith, (omega arith, omega arith), (omega arith, omega arith)) refl refl
      (hits_within, tt)
      (λ documents.
        ((generated, codes "m"), refl, (omega arith, omega arith), (omega arith, omega arith)))

abbrev full : Cache ℕ
full = record { store = (codes "a", (1, 5)) ∷ []; key_locks = codes "a" ∷ [] }

get_or_compute-IsKept_example :
    IsKept 1 (get_or_compute 1 none (codes "b") 2 3 4 (returned 6) full).1
get_or_compute-IsKept_example =
    get_or_compute-IsKept 1 none (codes "b") 2 3 4 (returned 6) full
      (record { bounded = omega arith; distinct = (refl, tt) })

get_or_compute-remembers_example :
    ((get_or_compute 1 (some 9) (codes "b") 2 3 4 (returned 6) full).0 ≡ returned 6)
    × ((get_or_compute 1
          (some 9)
          (codes "b")
          7
          8
          9
          (returned 0)
          (get_or_compute 1 (some 9) (codes "b") 2 3 4 (returned 6) full).1).0
        ≡ returned 6)
unfolding entry_of expired
get_or_compute-remembers_example =
    get_or_compute-remembers 1 (some 9) (codes "b") 2 3 4 7 8 9 6 (returned 0) full (omega arith)
      refl refl
