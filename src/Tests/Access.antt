-- ===== src/Tests/Access.antt =====
-- A search engine that reads filters as documented, and a user of one workspace.
use be25_fin_thanos_meetbowl.Prelude.{
  ◌≡◌, refl, Bool, ◌&&◌, ◌||◌, none, List, [], ◌∷◌, nat_eq, list_eq, ◌==◌, null, all, if◌then◌else◌,
}
use be25_fin_thanos_meetbowl.Text.{Text, codes}
use be25_fin_thanos_meetbowl.Schemas.Chat.{ChatCommand}
use be25_fin_thanos_meetbowl.Rag.AccessFilter.{
  Match, Clause, should, matches, build_chat_access_filter,
}
use be25_fin_thanos_meetbowl.Rag.AccessFilter.Readable.{
  Engine, overlaps, any_match, can_read, chat_filter_lem,
}

abbrev passes : (Text → List Text) → Match → Bool
passes p m = overlaps (p m.key) m.values

abbrev clause_holds : Clause → (Text → List Text) → Bool
clause_holds (matches m) p = passes p m
clause_holds (should ms) p = any_match (passes p) ms

abbrev pub engine : Engine
engine = record {
  Point = Text → List Text;
  values = λ p key. p key;
  holds = clause_holds;
  accepts = λ f p. all (λ c. clause_holds c p) f.must;
  holds-matches = λ m p. refl;
  holds-should = λ ms p. refl;
  accepts-must = λ f p. refl;
}

abbrev pub question : ChatCommand
question = record {
  request_id = 1;
  correlation_id = 2;
  user_id = 3;
  organization_id = none;
  question = codes "what was decided?";
  message_history = [];
  shared_workspace_ids = 4 ∷ [];
}

-- A file of workspace 4 that another user owns.
abbrev pub point : Text → List Text
point key =
    if key == codes "workspaceId"
    then (4 ∷ []) ∷ []
    else if key == codes "sourceType"
    then codes "MINUTES" ∷ []
    else (9 ∷ []) ∷ []

chat_filter_lem_example :
    engine.accepts (build_chat_access_filter (λ n. n ∷ []) question (codes "MINUTES" ∷ [])) point
    ≡ (can_read engine (λ n. n ∷ []) question point
        && (null (codes "MINUTES" ∷ [])
            || overlaps (point (codes "sourceType")) (codes "MINUTES" ∷ [])))
chat_filter_lem_example = chat_filter_lem engine (λ n. n ∷ []) question (codes "MINUTES" ∷ []) point
