-- ===== src/Rag/AccessFilter.antt =====
-- app/rag/access_filter.py: the filter of a chat search. `uuid_text` is `str(UUID)`.
pub mod Readable
use be25_fin_thanos_meetbowl.Prelude.{List, [], ◌∷◌, ◌++◌, map}
use be25_fin_thanos_meetbowl.Text.{Text, codes}
use be25_fin_thanos_meetbowl.Schemas.{Uuid}
use be25_fin_thanos_meetbowl.Schemas.Chat.{ChatCommand}

-- `{"key": …, "match": {"any": […]}}`; a match with one `value` is one with a list of one.
pub record Match : Type 0 where
  pub key : Text
  pub values : List Text

pub data Clause : Type 0 where
  should : List Match → Clause
  matches : Match → Clause

-- `{"must": […]}`
pub record Filter : Type 0 where
  pub must : List Clause

abbrev pub match_of : Text → List Text → Match
match_of key values = record { key = key; values = values }

-- The conditions on shared workspaces, if the user has any.
unfoldable pub workspace_matches : List Text → List Match
workspace_matches [] = []
workspace_matches (w ∷ ws) =
    match_of (codes "workspaceId") (w ∷ ws) ∷ match_of (codes "sharedWorkspaceIds") (w ∷ ws) ∷ []

-- The condition on source types, if some are given.
unfoldable pub type_clauses : List Text → List Clause
type_clauses [] = []
type_clauses (t ∷ ts) = matches (match_of (codes "sourceType") (t ∷ ts)) ∷ []

-- No source types are the empty list.
unfoldable pub build_chat_access_filter : (Uuid → Text) → ChatCommand → List Text → Filter
unfolding workspace_matches type_clauses
build_chat_access_filter uuid_text command source_types = record {
  must =
      should (
        match_of (codes "ownerUserId") (uuid_text command.user_id ∷ [])
        ∷ match_of (codes "allowedUserIds") (uuid_text command.user_id ∷ [])
        ∷ workspace_matches (map uuid_text command.shared_workspace_ids))
      ∷ type_clauses source_types;
}
