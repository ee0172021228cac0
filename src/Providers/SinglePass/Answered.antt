-- ===== src/Providers/SinglePass/Answered.antt =====
-- The single pass from the searches to the answer.
use be25_fin_thanos_meetbowl.Prelude.{
  ◌≤◌, arith, length, ◌≡◌, refl, ◌⊎◌, inl, inr, List, [], ◌∷◌, nat_eq, list_eq, option_eq, pair_eq,
  All,
}
use be25_fin_thanos_meetbowl.Text.{Text, codes, join}
use be25_fin_thanos_meetbowl.Errors.{returned}
use be25_fin_thanos_meetbowl.Schemas.Chat.{
  ChatCommand, ChatSource, ChatResult, GeneratedChatAnswer, validate_result-returned,
}
use be25_fin_thanos_meetbowl.Rag.Merging.{gather, search_queries_in_parallel}
use be25_fin_thanos_meetbowl.Rag.Merging.Results.{
  IsShort, AreSources, all_ids, merge_ranked-AreSources,
}
use be25_fin_thanos_meetbowl.Providers.Citations.{
  accumulate_sources, format_with_citation_numbers, select_cited_sources,
}
use be25_fin_thanos_meetbowl.Providers.Citations.Few.{
  length-select_cited_sources-le, length-accumulate-le,
}
use be25_fin_thanos_meetbowl.Providers.AnswerFormat.{normalize_answer_format}
use be25_fin_thanos_meetbowl.Providers.Citations.Shown.{format-AreNumbered}
use be25_fin_thanos_meetbowl.Providers.SinglePass.{
  Ports, no_evidence, search_queries_of, result_of, answer_from, answer,
}

module _ (ports : Ports) where
  open ports use {retrieval, generate_structured, patterns, model_name, prompt_version, top_n}

  -- Nothing found and nothing claimed, or sources that an answer of the model cites by number.
  abbrev pub IsSourced : ChatCommand → List ChatSource → ChatResult → Type 0
  IsSourced command found result =
      ((found ≡ []) × (result ≡ no_evidence ports))
      ⊎ ((documents : Text) × (output : GeneratedChatAnswer × Text) × (format_with_citation_numbers
              (accumulate_sources [] found) found
            ≡ returned documents)
          × (generate_structured documents command.question ≡ returned output)
          × (result.sources
              ≡ select_cited_sources (accumulate_sources [] found) output.0.cited_indices))

  -- Settings that every result can carry, with no more sources than a result can have.
  abbrev pub IsConfigured : Type 0
  IsConfigured =
      (top_n ≤ 20)
      × ((1 ≤ length model_name) × (length model_name ≤ 100))
      × ((1 ≤ length prompt_version) × (length prompt_version ≤ 50))

  -- The model answers: with a text that keeps some characters when it is formatted, but not too many, and
  -- with a name.
  abbrev pub Answers : Text → Text → Type 0
  Answers documents question =
      (output : GeneratedChatAnswer × Text) × (generate_structured documents question
        ≡ returned output)
      × ((1 ≤ length (normalize_answer_format patterns output.0.answer))
          × (length (normalize_answer_format patterns output.0.answer) ≤ 20000))
      × ((1 ≤ length output.1) × (length output.1 ≤ 100))

  answer_from-IsSourced :
      (command : ChatCommand) (found : List ChatSource)
      → IsConfigured
      → length found ≤ top_n
      → ((documents : Text) → Answers documents command.question)
      → (result : ChatResult) × (answer_from ports command found ≡ returned result)
        × IsSourced command found result
  unfolding answer_from result_of
  answer_from-IsSourced command [] (few, named, versioned) bound answers = (
    no_evidence ports,
    validate_result-returned (no_evidence ports) (omega arith, omega arith) (omega arith) named
        versioned,
    inl (refl, refl),
  )
  answer_from-IsSourced command (source ∷ sources) (few, named, versioned) bound answers =
      let (texts, shown, _) = format-AreNumbered [] (source ∷ sources) tt in
      let (output, generated, written, model_named) = answers (join (codes "\n\n") texts) in
      let accumulated = accumulate_sources [] (source ∷ sources) in
      let formed : ChatResult = record {
        answer = normalize_answer_format patterns output.0.answer;
        sources = select_cited_sources accumulated output.0.cited_indices;
        model = output.1;
        prompt_version = prompt_version;
      } in
      let at_most : length formed.sources ≤ 20 = omega (
        arith,
        few,
        bound,
        length-select_cited_sources-le accumulated output.0.cited_indices,
        length-accumulate-le (source ∷ sources),
      ) in
      (
        formed,
        rw (shown, generated)
            (validate_result-returned formed written at_most model_named versioned),
        inr (join (codes "\n\n") texts, output, shown, generated, refl),
      )

  -- Let the settings be such as a result can carry, with a `top_n` of at most 20. If the searches of all
  -- queries come back with snippets within the schema's bound, and the model answers whatever documents it
  -- is given, with 1 to 20000 characters after formatting, then there is a result: nothing was found and it
  -- says so without a source, or its sources are those that the model cites, by the numbers it was shown,
  -- from at most `top_n` sources of distinct documents that the searches found.
  pub answer-IsSourced :
      (command : ChatCommand) (queries : List Text) (lists : List (List ChatSource))
      → IsConfigured
      → search_queries_of ports command.question ports.expand ≡ returned queries
      → gather retrieval top_n queries ≡ returned lists
      → All (All IsShort) lists
      → ((documents : Text) → Answers documents command.question)
      → (result : ChatResult) × (found : List ChatSource) × (answer ports command ≡ returned result)
        × AreSources top_n 0 (all_ids lists) found
        × IsSourced command found result
  unfolding answer search_queries_in_parallel
  answer-IsSourced command queries lists configured planned gathered short answers =
      let (found, merged, are) = merge_ranked-AreSources top_n lists short in
      let (result, returns, sourced) =
        answer_from-IsSourced command found configured are.bounded answers in
      (result, found, rw (planned, gathered, merged) returns, are, sourced)
