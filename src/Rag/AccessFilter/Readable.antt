-- ===== src/Rag/AccessFilter/Readable.antt =====
-- Which documents a chat search can find.
use be25_fin_thanos_meetbowl.Prelude.{
  ◌≡◌, refl, Bool, false, ◌&&◌, ◌||◌, List, [], ◌∷◌, map, arith, contains, nat_eq, list_eq, null,
  all,
}
use be25_fin_thanos_meetbowl.Text.{Text, codes}
use be25_fin_thanos_meetbowl.Schemas.{Uuid}
use be25_fin_thanos_meetbowl.Schemas.Chat.{ChatCommand}
use be25_fin_thanos_meetbowl.Rag.AccessFilter.{
  Match, Clause, should, matches, Filter, workspace_matches, type_clauses, build_chat_access_filter,
}

-- Some element of one list is in the other.
abbrev pub overlaps : List Text → List Text → Bool
overlaps [] values = false
overlaps (x ∷ xs) values = contains x values || overlaps xs values

abbrev pub any_match : (Match → Bool) → List Match → Bool
any_match p [] = false
any_match p (m ∷ ms) = p m || any_match p ms

-- The search engine, with the documented meaning of filters: `values` is what a point's payload holds
-- under a key, one value or the elements of an array.
pub record Engine : Type 1 where
  pub Point : Type 0
  pub values : Point → Text → List Text
  pub holds : Clause → Point → Bool
  pub accepts : Filter → Point → Bool
  pub holds-matches :
      (m : Match) (p : Point) → holds (matches m) p ≡ overlaps (values p m.key) m.values
  pub holds-should :
      (ms : List Match) (p : Point)
      → holds (should ms) p ≡ any_match (λ m. overlaps (values p m.key) m.values) ms
  pub accepts-must : (f : Filter) (p : Point) → accepts f p ≡ all (λ c. holds c p) f.must

overlaps-nil : (xs : List Text) → overlaps xs [] ≡ false
overlaps-nil [] = refl
overlaps-nil (x ∷ xs) = overlaps-nil xs

module _ (engine : Engine) (uuid_text : Uuid → Text) where
  open engine use {Point, values, holds, accepts}

  -- The user owns the document, is named as a reader, or is in a workspace that has it.
  unfoldable pub can_read : ChatCommand → Point → Bool
  can_read command p =
      let user = uuid_text command.user_id ∷ [] in
      let workspaces = map uuid_text command.shared_workspace_ids in
      overlaps (values p (codes "ownerUserId")) user
      || (overlaps (values p (codes "allowedUserIds")) user
          || (overlaps (values p (codes "workspaceId")) workspaces
              || overlaps (values p (codes "sharedWorkspaceIds")) workspaces))

  workspaces_match :
      (ws : List Text) (p : Point)
      → any_match (λ m. overlaps (values p m.key) m.values) (workspace_matches ws) ≡ (
          overlaps (values p (codes "workspaceId")) ws
          || overlaps (values p (codes "sharedWorkspaceIds")) ws)
  unfolding workspace_matches
  workspaces_match [] p =
      rw
        (
          overlaps-nil (values p (codes "workspaceId")),
          overlaps-nil (values p (codes "sharedWorkspaceIds")),
        )
        refl
  workspaces_match (w ∷ ws) p = ground arith

  types_match :
      (ts : List Text) (p : Point)
      → all (λ c. holds c p) (type_clauses ts)
        ≡ (null ts || overlaps (values p (codes "sourceType")) ts)
  unfolding type_clauses
  types_match [] p = refl
  types_match (t ∷ ts) p =
      rw (engine.holds-matches (record { key = codes "sourceType"; values = t ∷ ts }) p)
        (ground arith)

  -- A chat search finds a point exactly if the user can read it and its source type is among those asked
  -- for, or none were: the owner, the named readers, and the workspaces of the user, also if there are none.
  pub chat_filter_lem :
      (command : ChatCommand) (source_types : List Text) (p : Point)
      → accepts (build_chat_access_filter uuid_text command source_types) p ≡ (
          can_read command p
          && (null source_types || overlaps (values p (codes "sourceType")) source_types))
  unfolding build_chat_access_filter can_read
  chat_filter_lem command source_types p =
      rw
        (
          engine.accepts-must (build_chat_access_filter uuid_text command source_types) p,
          engine.holds-should,
          workspaces_match (map uuid_text command.shared_workspace_ids) p,
          types_match source_types p,
        )
        refl
