-- ===== src/Rag/QdrantChat/Reading.antt =====
-- What the whole text of a document is read from.
use be25_fin_thanos_meetbowl.Prelude.{
  Bool, ◌&&◌, ◌||◌, [], ◌∷◌, nat_eq, list_eq, option_eq, pair_eq,
}
use be25_fin_thanos_meetbowl.Text.{Text, codes}
use be25_fin_thanos_meetbowl.Schemas.Chat.{ChatCommand}
use be25_fin_thanos_meetbowl.Rag.AccessFilter.Readable.{Engine, overlaps, can_read}
use be25_fin_thanos_meetbowl.Rag.QdrantChat.{Point, Server}

module _ (server : Server) (engine : Engine) where
  open server use {uuid_text}
  open engine use {values, holds, accepts}

  -- Can the user read the point, and is it of the document?
  abbrev pub is_part : ChatCommand → Text → engine.Point → Bool
  is_part command resource_id p =
      can_read engine uuid_text command p
      && (overlaps (values p (codes "documentId")) (resource_id ∷ [])
          || overlaps (values p (codes "sourceId")) (resource_id ∷ []))
