-- ===== src/Providers/Chat/Answer.antt =====
-- Where the sources of a chat answer come from.
use be25_fin_thanos_meetbowl.Rag.Merging.Known.{ids}
use be25_fin_thanos_meetbowl.Prelude.{
  ℕ, zero, suc, ◌≤◌, ◌≡◌, refl, ap, ◌⊎◌, inl, inr, false, Option, List, [], ◌∷◌, arith, nat_beq,
  Bool-cases, nat_eq, list_eq, option_eq, pair_eq, Distinct, length,
}
use be25_fin_thanos_meetbowl.Text.{Text}
use be25_fin_thanos_meetbowl.Errors.{returned-eq, Raises, returned, raised, Exception}
use be25_fin_thanos_meetbowl.Schemas.Chat.{
  validate_result-eq-returned, ChatCommand, ChatSource, ChatResult, GeneratedChatAnswer,
}
use be25_fin_thanos_meetbowl.Providers.Citations.{accumulate_sources, select_cited_sources}
use be25_fin_thanos_meetbowl.Providers.Citations.Numbers.{accumulate-Distinct}
use be25_fin_thanos_meetbowl.Providers.Citations.Cited.{select_from-Distinct}
use be25_fin_thanos_meetbowl.Providers.AnswerFormat.{Patterns, normalize_answer_format}
use be25_fin_thanos_meetbowl.Providers.Chat.{
  ModelMessage, Outcome, output, failed, Agent, is_retryable_overload, to_model_messages,
  accumulate_batches, State, judge, after_run, before_retry, attempts, run_with_retry, start,
  result_of, answer,
}

accumulate_batches-Distinct :
    (acc : List ChatSource) (batches : List (List ChatSource))
    → Distinct (ids acc)
    → Distinct (ids (accumulate_batches acc batches))
unfolding accumulate_batches
accumulate_batches-Distinct acc [] h = h
accumulate_batches-Distinct acc (batch ∷ batches) h =
    accumulate_batches-Distinct (accumulate_sources acc batch) batches
      (accumulate-Distinct acc batch 0 h).0

select_cited_sources-Distinct :
    (acc : List ChatSource) (cited : List ℕ)
    → Distinct (ids acc)
    → Distinct (ids (select_cited_sources acc cited))
unfolding select_cited_sources
select_cited_sources-Distinct acc cited h = select_from-Distinct acc [] cited h

module _ (agent : Agent) where
  open agent use {World, run}

  first-eq {ℓ κ} : {A : Type ℓ} {B : Type κ} {x y : A × B} → x ≡ y → x.0 ≡ y.0
  first-eq h = ap (λ t. t.0) h

  judge-returned :
      (limit attempt : ℕ) (o : Outcome) (s s' : State agent)
      (again : Raises GeneratedChatAnswer × State agent) (a : GeneratedChatAnswer)
      → judge agent limit attempt o s again ≡ (returned a, s')
      → ((o ≡ output a) × (s ≡ s')) ⊎ ((nat_beq attempt limit ≡ false) × (again ≡ (returned a, s')))
  unfolding judge
  judge-returned limit attempt (output b) s s' again a h =
      inl (ap output (returned-eq (first-eq h)), ap (λ t. t.1) h)
  judge-returned limit attempt (failed error) s s' again a h =
      elim (Bool-cases (is_retryable_overload error)) [
        | inr hard ↦ cc (rw hard at (first-eq h))
        | inl soft ↦ elim (Bool-cases (nat_beq attempt limit)) [
          | inl last ↦ cc (rw (soft, last) at (first-eq h))
          | inr early ↦ inr (early, rw (soft, early) at h)
        ]
      ]

  Raises-cases :
      (m : Raises GeneratedChatAnswer × State agent)
      → ((a : GeneratedChatAnswer) × (s : State agent) × (m ≡ (returned a, s)))
        ⊎ ((x : Exception) × (s : State agent) × (m ≡ (raised x, s)))
  Raises-cases (returned a, s) = inl (a, s, refl)
  Raises-cases (raised x, s) = inr (x, s, refl)

  attempts-Cited :
      (limit : ℕ) (question : Text) (history : Option (List ModelMessage)) (left attempt : ℕ)
      (s s' : State agent) (a : GeneratedChatAnswer)
      → attempts agent limit question history left attempt s ≡ (returned a, s')
      → s.retrieved_sources ≡ []
      → length s.waits ≡ attempt
      → attempt ≤ limit
      → (w : World) × ((run question history w).0.outcome ≡ output a)
        × (s'.retrieved_sources ≡ accumulate_batches [] (run question history w).0.batches)
        × (length s'.waits ≤ limit)
  unfolding attempts after_run before_retry
  attempts-Cited limit question history zero attempt s s' a h clear count bound = cc (first-eq h)
  attempts-Cited limit question history (suc left) attempt s s' a h clear count bound =
      elim (judge-returned limit attempt (run question history s.world).0.outcome _ s' _ a h) [
        | inl (o, same) ↦
            (s.world, o, rw (← same, clear) refl, rw (← same) (omega (arith, count, bound)))
        | inr (early, again) ↦
            attempts-Cited limit question history left (suc attempt) _ s' a again refl
              (omega (arith, count)) (ground arith)
      ]

  module _ (patterns : Patterns) (command : ChatCommand) where
    -- The answer of one run, with the sources that this run found and cites.
    pub record IsCited (result : ChatResult) : Type 0 where
      pub world : World
      pub generated : GeneratedChatAnswer
      pub produced :
          (run command.question (to_model_messages command.message_history) world).0.outcome
          ≡ output generated
      pub sources :
          result.sources
          ≡ select_cited_sources
              (accumulate_batches []
                (run command.question (to_model_messages command.message_history) world).0.batches)
              generated.cited_indices
      pub distinct : Distinct (ids result.sources)
      pub written : result.answer ≡ normalize_answer_format patterns generated.answer

  -- A chat answer is the text of one run of the agent, formatted; its sources are those that this run
  -- found and that its answer cites by number, none of another attempt, no document twice; and there were
  -- at most `max_retries` waits.
  pub answer-IsCited :
      (patterns : Patterns) (model_name prompt_version : Text) (max_retries : ℕ)
      (command : ChatCommand) (world : World) (result : ChatResult) (s : State agent)
      → answer agent patterns model_name prompt_version max_retries command world
        ≡ (returned result, s)
      → IsCited patterns command result × (length s.waits ≤ max_retries)
  unfolding answer result_of run_with_retry
  answer-IsCited patterns model_name prompt_version max_retries command world result s h =
      elim (Raises-cases (run_with_retry agent max_retries command (start agent world))) [
        | inl (a, s', same) ↦
            let (w, produced, kept, waits) =
              attempts-Cited max_retries command.question
                (to_model_messages command.message_history) (suc max_retries) 0 (start agent world)
                s' a same refl refl (omega arith) in
            let batches =
              (run command.question (to_model_messages command.message_history) w).0.batches in
            let e = rw same at h in
            let formed : ChatResult = record {
              answer = normalize_answer_format patterns a.answer;
              sources = select_cited_sources s'.retrieved_sources a.cited_indices;
              model = model_name;
              prompt_version = prompt_version;
            } in
            let t : s' ≡ s = ap (λ t. t.1) e in
            rw (← validate_result-eq-returned formed result (first-eq e), ← t)
              (
                record {
                  world = w;
                  generated = a;
                  produced = produced;
                  sources = rw kept refl;
                  distinct = rw kept (
                      select_cited_sources-Distinct _ a.cited_indices
                        (accumulate_batches-Distinct [] batches tt));
                  written = refl;
                },
                waits,
              )
        | inr (x, s', same) ↦ cc (first-eq (rw same at h))
      ]
