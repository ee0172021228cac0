-- ===== src/Providers/Chat/Retry.antt =====
-- The retries of a chat answer: overloads are waited out, anything else ends the loop.
use be25_fin_thanos_meetbowl.Prelude.{
  ℕ, zero, suc, ◌+◌, ◌^◌, ◌≤◌, ◌≡◌, refl, ◌∙◌, Bool, true, false, Option, List, [], ◌∷◌, arith,
  nat_beq, if◌then◌else◌, nat_eq, list_eq, option_eq, pair_eq, length,
}
use be25_fin_thanos_meetbowl.Text.{Text}
use be25_fin_thanos_meetbowl.Errors.{Raises, returned, raised}
use be25_fin_thanos_meetbowl.Schemas.Chat.{ChatCommand, GeneratedChatAnswer}
use be25_fin_thanos_meetbowl.Providers.Chat.{
  ModelMessage, Outcome, output, failed, Agent, is_retryable_overload, to_model_messages,
  accumulate_batches, error_of, overloaded, State, judge, after_run, before_retry, attempts,
  run_with_retry, start,
}

abbrev pub is_overload : Outcome → Bool
is_overload (output answer) = false
is_overload (failed error) = is_retryable_overload error

-- What the loop gives for an outcome that ends it.
abbrev pub settled : Outcome → Raises GeneratedChatAnswer
settled (output answer) = returned answer
settled (failed error) = raised (error_of error)

module _ (agent : Agent) where
  open agent use {World, run}

  judge-settled :
      (limit attempt : ℕ) (o : Outcome) (s : State agent)
      (again : Raises GeneratedChatAnswer × State agent)
      → is_overload o ≡ false
      → judge agent limit attempt o s again ≡ (settled o, s)
  unfolding judge
  judge-settled limit attempt (output answer) s again h = refl
  judge-settled limit attempt (failed error) s again h = rw h refl

  judge-overload :
      (limit attempt : ℕ) (o : Outcome) (s : State agent)
      (again : Raises GeneratedChatAnswer × State agent)
      → is_overload o ≡ true
      → judge agent limit attempt o s again
        ≡ (if nat_beq attempt limit then (raised overloaded, s) else again)
  unfolding judge
  judge-overload limit attempt (output answer) s again h = cc
  judge-overload limit attempt (failed error) s again h = rw h refl

  module _ (question : Text) (history : Option (List ModelMessage)) where
    -- So many runs in a row that fail with an overload, from one state of the agent to another.
    pub data Overloads : ℕ → World → World → Type 0 where
      calm : {w : World} → Overloads 0 w w
      overload :
          {n : ℕ} {w w' : World}
          → is_overload (run question history w).0.outcome ≡ true
          → Overloads n (run question history w).1 w'
          → Overloads (suc n) w w'

    attempts-settled :
        (limit n left attempt : ℕ) (w w' : World) (waits : List ℕ)
        → Overloads n w w'
        → n ≤ left
        → attempt + left ≡ limit
        → is_overload (run question history w').0.outcome ≡ false
        → (s : State agent) × (attempts agent limit question history
              (suc left)
              attempt
              (record { world = w; retrieved_sources = []; waits = waits })
            ≡ (settled (run question history w').0.outcome, s))
          × (s.retrieved_sources ≡ accumulate_batches [] (run question history w').0.batches)
          × (length s.waits ≡ n + length waits)
    unfolding attempts after_run before_retry
    attempts-settled limit zero left attempt w _ waits calm few e h =
        (_, judge-settled limit attempt _ _ _ h, refl, omega arith)
    attempts-settled limit (suc n) zero attempt w w' waits (overload fails more) few e h =
        ground arith
    attempts-settled limit (suc n) (suc left) attempt w w' waits (overload fails more) few e h =
        let (s, same, sources, count) =
          attempts-settled limit n left (suc attempt) (run question history w).1 w'
            (2 ^ attempt ∷ waits) more (omega arith) (omega arith) h in
        let early : nat_beq attempt limit ≡ false = ground arith in
        (
          s,
          judge-overload limit attempt (run question history w).0.outcome
                (after_run agent (record { world = w; retrieved_sources = []; waits = waits })
                  (run question history w))
                (attempts agent limit question history (suc left) (suc attempt) (record {
                  world = (run question history w).1;
                  retrieved_sources = [];
                  waits = 2 ^ attempt ∷ waits;
                }))
                fails
              ∙ (rw early same),
          sources,
          omega (arith, count),
        )

    attempts-overloaded :
        (limit left attempt : ℕ) (w w' : World) (waits : List ℕ)
        → Overloads (suc left) w w'
        → attempt + left ≡ limit
        → (attempts agent limit question history
            (suc left)
            attempt
            (record { world = w; retrieved_sources = []; waits = waits })).0
          ≡ raised overloaded
    unfolding attempts after_run before_retry
    attempts-overloaded limit zero attempt w w' waits (overload fails more) e =
        let last : nat_beq attempt limit ≡ true = ground arith in
        rw (judge-overload limit attempt _ _ _ fails, last) refl
    attempts-overloaded limit (suc left) attempt w w' waits (overload fails more) e =
        let early : nat_beq attempt limit ≡ false = ground arith in
        rw (judge-overload limit attempt _ _ _ fails, early)
          (attempts-overloaded limit left (suc attempt) (run question history w).1 w'
            (2 ^ attempt ∷ waits) more (omega arith))

  -- After at most `max_retries` overloads in a row, the first run that is no overload decides: its answer
  -- is returned, or its error goes on, one for too many steps as an unavailable provider; the sources are
  -- those of this run alone, and there was one wait for each overload.
  pub run_with_retry-settled :
      (max_retries n : ℕ) (command : ChatCommand) (w w' : World)
      → Overloads command.question (to_model_messages command.message_history) n w w'
      → n ≤ max_retries
      → is_overload (run command.question (to_model_messages command.message_history) w').0.outcome
        ≡ false
      → (s : State agent) × (run_with_retry agent max_retries command (start agent w) ≡ (
        settled (run command.question (to_model_messages command.message_history) w').0.outcome,
        s,
      ))
        × (s.retrieved_sources
            ≡ accumulate_batches []
                (run command.question (to_model_messages command.message_history) w').0.batches)
        × (length s.waits ≡ n)
  unfolding run_with_retry
  run_with_retry-settled limit n command w w' overloads few h =
      let (s, same, sources, count) =
        attempts-settled command.question (to_model_messages command.message_history) limit n limit
          0 w w' [] overloads few (omega arith) h in
      (s, same, sources, omega (arith, count))

  -- One overload more than there are retries, and the model counts as unavailable.
  pub run_with_retry-overloaded :
      (max_retries : ℕ) (command : ChatCommand) (w w' : World)
      → Overloads command.question
          (to_model_messages command.message_history)
          (suc max_retries)
          w
          w'
      → (run_with_retry agent max_retries command (start agent w)).0 ≡ raised overloaded
  unfolding run_with_retry
  run_with_retry-overloaded limit command w w' overloads =
      attempts-overloaded command.question (to_model_messages command.message_history) limit limit 0
        w w' [] overloads (omega arith)
