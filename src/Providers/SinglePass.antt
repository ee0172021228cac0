-- ===== src/Providers/SinglePass.antt =====
-- app/providers/single_pass_chat.py: `SinglePassChatProvider.answer`. The generation port, which makes its
-- prompt from the documents and the question, and the query expansion are parameters.
pub mod Answered
use be25_fin_thanos_meetbowl.Prelude.{ℕ, Option, none, some, List, [], ◌∷◌}
use be25_fin_thanos_meetbowl.Text.{Text, codes}
use be25_fin_thanos_meetbowl.Errors.{Raises, returned, raised, ◌>>=◌}
use be25_fin_thanos_meetbowl.Schemas.Chat.{
  ChatCommand, ChatSource, ChatResult, GeneratedChatAnswer, validate_result,
}
use be25_fin_thanos_meetbowl.Rag.Merging.{Retrieval, search_queries_in_parallel}
use be25_fin_thanos_meetbowl.Providers.Citations.{
  accumulate_sources, format_with_citation_numbers, select_cited_sources,
}
use be25_fin_thanos_meetbowl.Providers.AnswerFormat.{Patterns, normalize_answer_format}

pub record Ports : Type 1 where
  pub retrieval : Retrieval
  pub expand : Option (Text → Raises (List Text))
  pub generate_structured : Text → Text → Raises (GeneratedChatAnswer × Text)
  pub patterns : Patterns
  pub model_name : Text
  pub prompt_version : Text
  pub top_n : ℕ

module _ (ports : Ports) where
  open ports use {retrieval, generate_structured, patterns, model_name, prompt_version, top_n}

  unfoldable pub search_queries_of : Text → Option (Text → Raises (List Text)) → Raises (List Text)
  search_queries_of question none = returned (question ∷ [])
  search_queries_of question (some expand) = expand question

  abbrev pub no_evidence : ChatResult
  no_evidence = record {
    answer = codes "검색 가능한 자료에서 근거를 찾지 못했습니다.";
    sources = [];
    model = model_name;
    prompt_version = prompt_version;
  }

  unfoldable pub result_of : List ChatSource → GeneratedChatAnswer × Text → Raises ChatResult
  unfolding select_cited_sources normalize_answer_format validate_result
  result_of accumulated (generated, model) = validate_result (record {
    answer = normalize_answer_format patterns generated.answer;
    sources = select_cited_sources accumulated generated.cited_indices;
    model = model;
    prompt_version = prompt_version;
  })

  -- From the sources on.
  unfoldable pub answer_from : ChatCommand → List ChatSource → Raises ChatResult
  unfolding accumulate_sources format_with_citation_numbers result_of validate_result
  answer_from command [] = validate_result no_evidence
  answer_from command (source ∷ sources) = do
    documents ←
        format_with_citation_numbers (accumulate_sources [] (source ∷ sources)) (source ∷ sources)
    output ← generate_structured documents command.question
    result_of (accumulate_sources [] (source ∷ sources)) output

  unfoldable pub answer : ChatCommand → Raises ChatResult
  unfolding search_queries_of search_queries_in_parallel answer_from
  answer command = do
    queries ← search_queries_of command.question ports.expand
    sources ← search_queries_in_parallel retrieval top_n queries
    answer_from command sources
