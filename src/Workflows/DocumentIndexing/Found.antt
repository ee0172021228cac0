-- ===== src/Workflows/DocumentIndexing/Found.antt =====
-- Who finds an indexed document: the payload that app/workflows/document_indexing.py writes, under the
-- filters of app/rag/access_filter.py and app/rag/feedback_access_filter.py.
use mathlib.Core.Option
use be25_fin_thanos_meetbowl.Prelude.{
  ◌≡◌, refl, ◌∙◌, inl, inr, Bool, false, not, ◌&&◌, ◌||◌, Option, none, some, List, [], ◌∷◌, map,
  arith, if◌then◌else◌, or-false, Bool-cases, ◌==◌, nat_eq, list_eq, option_eq, pair_eq, contains,
  beq_refl, beq_sound, beq_comm, elements, null, all,
}
use be25_fin_thanos_meetbowl.Text.{Text, codes}
use be25_fin_thanos_meetbowl.Schemas.{Uuid}
use be25_fin_thanos_meetbowl.Schemas.Chat.{ChatCommand}
use be25_fin_thanos_meetbowl.Schemas.Feedback.{MeetingFeedbackCommand}
use be25_fin_thanos_meetbowl.Schemas.Indexing.{IndexDocumentCommand, DocumentChunk}
use be25_fin_thanos_meetbowl.Rag.AccessFilter.{build_chat_access_filter}
use be25_fin_thanos_meetbowl.Rag.AccessFilter.Readable.{Engine, overlaps, can_read, chat_filter_lem}
use be25_fin_thanos_meetbowl.Rag.FeedbackFilter.{
  FeedbackEngine, build_feedback_access_filter, feedback_filter_lem,
}
use be25_fin_thanos_meetbowl.Workflows.DocumentIndexing.{
  Payload, Ports, chat_source_type, payload_of,
}

-- What the payload holds under the keys that the filters name; there is no key `workspaceId`.
unfoldable pub payload_values : (Uuid → Text) → Payload → Text → List Text
payload_values uuid_text payload key =
    if key == codes "sourceType"
    then payload.source_type ∷ []
    else if key == codes "ownerUserId"
    then payload.owner_user_id ∷ []
    else if key == codes "allowedUserIds"
    then payload.allowed_user_ids
    else if key == codes "sharedWorkspaceIds"
    then payload.shared_workspace_ids
    else if key == codes "organizationId"
    then elements payload.organization_id
    else if key == codes "metadata.meetingId"
    then map uuid_text (elements payload.metadata.meeting_id)
    else []

-- Some identifier is in both lists.
abbrev pub shares : List Uuid → List Uuid → Bool
shares [] ys = false
shares (x ∷ xs) ys = contains x ys || shares xs ys

shares-one : (xs : List Uuid) (y : Uuid) → shares xs (y ∷ []) ≡ contains y xs
shares-one [] y = refl
shares-one (x ∷ xs) y = rw (shares-one xs y, beq_comm y x) (ground arith)

elements-map : (f : Uuid → Text) (o : Option Uuid) → elements (Option.map f o) ≡ map f (elements o)
elements-map f none = refl
elements-map f (some a) = refl

minutes_types :
    (t : Text)
    → overlaps (chat_source_type t ∷ []) (codes "MEETING_MINUTES" ∷ codes "MINUTES" ∷ [])
      ≡ contains t (codes "MEETING_MINUTES" ∷ codes "MINUTES" ∷ [])
unfolding chat_source_type
minutes_types t = elim (Bool-cases (t == codes "MEETING_MINUTES")) [
  | inl minutes ↦ rw (beq_sound t _ minutes) refl
  | inr other ↦ rw other (or-false _)
]

module _ (uuid_text : Uuid → Text)
    (injective : (a b : Uuid) → uuid_text a ≡ uuid_text b → a ≡ b) where
  contains-map :
      (x : Uuid) (ys : List Uuid) → contains (uuid_text x) (map uuid_text ys) ≡ contains x ys
  contains-map x [] = refl
  contains-map x (y ∷ ys) = elim (Bool-cases (y == x)) [
    | inl same ↦ rw (beq_sound y x same, beq_refl (uuid_text x), beq_refl x) refl
    | inr other ↦ elim (Bool-cases (uuid_text y == uuid_text x)) [
      | inl equal ↦ cc (rw (injective y x (beq_sound _ _ equal), beq_refl x) at other)
      | inr unequal ↦ rw (other, unequal) (contains-map x ys)
    ]
  ]

  overlaps-map : (xs ys : List Uuid) → overlaps (map uuid_text xs) (map uuid_text ys) ≡ shares xs ys
  overlaps-map [] ys = refl
  overlaps-map (x ∷ xs) ys = rw (contains-map x ys, overlaps-map xs ys) refl

  overlaps-one :
      (xs : List Uuid) (y : Uuid) → overlaps (map uuid_text xs) (uuid_text y ∷ []) ≡ contains y xs
  overlaps-one xs y = overlaps-map xs (y ∷ []) ∙ shares-one xs y

  all-readers :
      (users ps : List Uuid)
      → all (λ user. overlaps (map uuid_text users) (uuid_text user ∷ [])) ps
        ≡ all (λ user. contains user users) ps
  all-readers users [] = refl
  all-readers users (p ∷ ps) = rw (overlaps-one users p, all-readers users ps) refl

module _ (ports : Ports) (injective : (a b : Uuid) → ports.uuid_text a ≡ ports.uuid_text b → a ≡ b)
    (document : IndexDocumentCommand) (chunk : DocumentChunk) where
  open ports use {uuid_text}

  -- Every point of an indexed document, its payload held as it was written, is found by a chat search
  -- exactly if the user owns the document, is among its users, or has one of the workspaces it is shared
  -- with, and its source type is among those asked for, or none were.
  pub found_in_chat_lem :
      (engine : Engine) (p : engine.Point)
      → ((key : Text)
          → engine.values p key ≡ payload_values uuid_text (payload_of ports document chunk) key)
      → (command : ChatCommand) (types : List Text)
      → engine.accepts (build_chat_access_filter uuid_text command types) p ≡ (
          (document.owner_user_id == command.user_id
            || (contains command.user_id document.access_scope.user_ids
                || shares document.access_scope.shared_workspace_ids command.shared_workspace_ids))
          && (null types || contains (chat_source_type document.document_type) types))
  unfolding payload_values payload_of can_read
  found_in_chat_lem engine p held command types =
      rw
        (
          chat_filter_lem engine uuid_text command types p,
          can_read,
          held (codes "ownerUserId"),
          held (codes "allowedUserIds"),
          held (codes "workspaceId"),
          held (codes "sharedWorkspaceIds"),
          held (codes "sourceType"),
          overlaps-one uuid_text injective (document.owner_user_id ∷ []) command.user_id,
          overlaps-one uuid_text injective document.access_scope.user_ids command.user_id,
          overlaps-map uuid_text injective document.access_scope.shared_workspace_ids
              command.shared_workspace_ids,
        )
        (ground arith)

  -- Every point of an indexed document, its payload held as it was written, is found by a search for
  -- meeting feedback exactly if it is minutes of the meeting's organization, every participant is among
  -- its users, and it is not of the meeting itself; its owner counts as a reader only if named.
  pub found_in_feedback_lem :
      (engine : FeedbackEngine) (p : engine.Point)
      → ((key : Text)
          → engine.values p key ≡ payload_values uuid_text (payload_of ports document chunk) key)
      → (command : MeetingFeedbackCommand)
      → engine.accepts
          (build_feedback_access_filter uuid_text command (uuid_text command.meeting_id))
          p
        ≡ (contains command.organization_id (elements document.organization_id)
            && (contains document.document_type (codes "MEETING_MINUTES" ∷ codes "MINUTES" ∷ [])
                && all
                    (λ user. contains user document.access_scope.user_ids)
                    command.participant_user_ids)
            && not (contains command.meeting_id (elements document.metadata.meeting_id)))
  unfolding payload_values payload_of
  found_in_feedback_lem engine p held command =
      rw
        (
          feedback_filter_lem engine uuid_text command (uuid_text command.meeting_id) p,
          held (codes "organizationId"),
          held (codes "sourceType"),
          held (codes "allowedUserIds"),
          held (codes "metadata.meetingId"),
          minutes_types document.document_type,
        )
        (rw
          (
            elements-map uuid_text document.organization_id,
            overlaps-one uuid_text injective (elements document.organization_id)
                command.organization_id,
            all-readers uuid_text injective document.access_scope.user_ids
                command.participant_user_ids,
            overlaps-one uuid_text injective (elements document.metadata.meeting_id)
                command.meeting_id,
          )
          refl)
