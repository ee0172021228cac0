-- ===== src/Rag/QdrantChat.antt =====
-- app/rag/qdrant_chat.py: `QdrantChatRetriever`. The server is a parameter, `none` for any exception on the
-- way to the points; so are the sparse encoder, the parsers of UUIDs and of ISO moments and `str(UUID)`. A
-- value of a payload that is missing, or is of no use, is `none`.
pub mod Listing
pub mod Reading
use be25_fin_thanos_meetbowl.Prelude.{
  ℕ, ◌+◌, max, Bool, true, false, not, ◌&&◌, Option, none, some, List, [], ◌∷◌, ◌++◌, map, ltb, leb,
  if◌then◌else◌, ◌==◌, nat_eq, list_eq, length, take, elements, null,
}
use be25_fin_thanos_meetbowl.Text.{Text, codes, strip, join, split_on, is_infix}
use be25_fin_thanos_meetbowl.Dedupe.{dedupe}
use be25_fin_thanos_meetbowl.Sort.{sort_by}
use be25_fin_thanos_meetbowl.Errors.{
  Raises, returned, raised, ai, provider_unavailable_error, ◌>>=◌,
}
use be25_fin_thanos_meetbowl.Schemas.{Uuid, Moment, Score}
use be25_fin_thanos_meetbowl.Schemas.Chat.{
  ChatCommand, ChatSource, ChatSourceType, backup_mail, minutes, personal_memo, personal_drive_file,
  shared_workspace_file_version,
}
use be25_fin_thanos_meetbowl.Rag.AccessFilter.{
  Match, match_of, Clause, should, Filter, build_chat_access_filter,
}

abbrev pub prefetch_limit : ℕ
prefetch_limit = 50

abbrev pub scroll_fetch_limit : ℕ
scroll_fetch_limit = 500

pub record PointPayload : Type 0 where
  pub source_type : Option Text
  pub source_id : Option Text
  pub document_id : Option Text
  pub title : Option Text
  pub snippet : Option Text
  pub content : Option Text
  pub created_at : Option Text
  pub chunk_index : Option ℕ

-- A score is already between 0 and 1 here.
pub record Point : Type 0 where
  pub payload : PointPayload
  pub score : Score

pub data Zone : Type 0 where
  utc kst : Zone

pub data Body (Vector Sparse : Type 0) : Type 0 where
  query_points : Vector → Sparse → Filter → ℕ → ℕ → Body Vector Sparse
  scroll_points : Filter → ℕ → Body Vector Sparse

-- `fromisoformat` gives the moment of a text, under the zone that is assumed where it names none.
pub record Server : Type 1 where
  pub Vector : Type 0
  pub Sparse : Type 0
  pub points_of : Body Vector Sparse → Option (List Point)
  pub encode : Text → Sparse
  pub parse_uuid : Text → Option Uuid
  pub uuid_text : Uuid → Text
  pub fromisoformat : Text → Option (Zone → Moment)
  pub top_score : Score

-- `a or b` of two texts.
unfoldable pub either : Option Text → Option Text → Option Text
either none b = b
either (some []) b = b
either (some (c ∷ cs)) b = some (c ∷ cs)

unfoldable pub type_of : Text → Option ChatSourceType
type_of name =
    if name == codes "BACKUP_MAIL"
    then some backup_mail
    else if name == codes "MINUTES"
    then some minutes
    else if name == codes "PERSONAL_MEMO"
    then some personal_memo
    else if name == codes "PERSONAL_DRIVE_FILE"
    then some personal_drive_file
    else if name == codes "SHARED_WORKSPACE_FILE_VERSION"
    then some shared_workspace_file_version
    else none

abbrev pub and_then {ℓ κ} : {A : Type ℓ} {B : Type κ} → Option A → (A → Option B) → Option B
and_then none f = none
and_then (some a) f = f a

-- A string field of the schema, of at least one character and at most `limit`.
unfoldable pub within : ℕ → Text → Option Text
within limit text = if leb 1 (length text) && leb (length text) limit then some text else none

abbrev pub chunk_order : Point → ℕ
chunk_order point = elim point.payload.chunk_index [ none ↦ 0 | some n ↦ n ]

-- `if text: parts.append(str(text))`
unfoldable pub part_of : Point → List Text
unfolding either
part_of point = elim (either point.payload.content point.payload.snippet) [
  | none ↦ []
  | some text ↦ if null text then [] else text ∷ []
]

unfoldable pub parts_of : List Point → List Text
unfolding part_of
parts_of [] = []
parts_of (point ∷ points) = part_of point ++ parts_of points

unfoldable pub join_document_chunks : List Point → ℕ → Text
unfolding parts_of sort_by
join_document_chunks points max_chars = take max_chars (
    strip
      (join (codes "\n") (parts_of (sort_by (λ a b. leb (chunk_order a) (chunk_order b)) points))))

-- A last day counts to its end.
unfoldable pub end_of_day : Text → Bool → Moment → Moment
end_of_day value end bound =
    if end && not (is_infix (codes "T") value) then bound + 86400000 else bound

unfoldable pub not_before : Option Moment → Option Moment → Bool
not_before none created = true
not_before (some after) none = false
not_before (some after) (some created) = leb after created

unfoldable pub before_end : Option Moment → Option Moment → Bool
before_end none created = true
before_end (some before) none = false
before_end (some before) (some created) = ltb created before

abbrev pub or_min : Option Moment → Moment
or_min none = 0
or_min (some created) = created

module _ (server : Server) where
  open server use {
    Vector, Sparse, points_of, encode, parse_uuid, uuid_text, fromisoformat, top_score,
  }

  unfoldable pub payload_to_source : PointPayload → Score → Option ChatSource
  unfolding type_of within either
  payload_to_source payload score = and_then (and_then payload.source_type type_of) λ type.
      and_then (and_then (either payload.source_id payload.document_id) parse_uuid) λ resource_id.
        and_then (and_then payload.title (within 255)) λ title.
          and_then (and_then (either payload.snippet payload.content) (within 2000)) λ snippet.
            some (record {
              type = type;
              resource_id = resource_id;
              title = title;
              snippet = snippet;
              score = score;
            })

  unfoldable pub to_sources : List Point → List ChatSource
  unfolding payload_to_source
  to_sources [] = []
  to_sources (point ∷ points) =
      elements (payload_to_source point.payload point.score) ++ to_sources points

  -- `none` is no value or no text.
  unfoldable pub parse_iso : Option Text → Zone → Option Moment
  parse_iso none zone = none
  parse_iso (some value) zone =
      elim (fromisoformat (join (codes "+00:00") (split_on (codes "Z") value))) [
        | none ↦ none
        | some at_zone ↦ some (at_zone zone)
      ]

  unfoldable pub parse_day_bound : Option Text → Bool → Option Moment
  unfolding parse_iso end_of_day
  parse_day_bound none end = none
  parse_day_bound (some value) end = elim (parse_iso (some value) kst) [
    | none ↦ none
    | some bound ↦ some (end_of_day value end bound)
  ]

  unfoldable pub row_of : Option Moment → Option Moment → Point → List (Moment × ChatSource)
  unfolding parse_iso not_before before_end payload_to_source
  row_of after before point =
      let created = parse_iso point.payload.created_at utc in
      if not_before after created && before_end before created
      then map (λ source. (or_min created, source))
          (elements (payload_to_source point.payload top_score))
      else []

  unfoldable pub rows_of : Option Moment → Option Moment → List Point → List (Moment × ChatSource)
  unfolding row_of
  rows_of after before [] = []
  rows_of after before (point ∷ points) = row_of after before point ++ rows_of after before points

  -- Newest first, of several rows of a document the first.
  unfoldable pub recent_rows :
      Option Moment → Option Moment → List Point → List (Moment × ChatSource)
  unfolding rows_of sort_by dedupe
  recent_rows after before points =
      dedupe (λ row. row.1.resource_id) []
        (sort_by (λ a b. leb b.0 a.0) (rows_of after before points))

  unfoldable pub recent_documents : List Point → Option Text → Option Text → List ChatSource
  unfolding recent_rows parse_day_bound
  recent_documents points created_after created_before =
      map (λ row. row.1)
        (recent_rows (parse_day_bound created_after false) (parse_day_bound created_before true)
          points)

  unfoldable pub requested : Text → Body Vector Sparse → Raises (List Point)
  requested message body = elim (points_of body) [
    | none ↦ raised (ai (provider_unavailable_error message))
    | some points ↦ returned points
  ]

  unfoldable pub search : Vector → Text → ChatCommand → List Text → ℕ → Raises (List ChatSource)
  unfolding requested to_sources build_chat_access_filter
  search vector query command source_types limit =
      requested (codes "Qdrant 검색에 실패했습니다.") (
        query_points vector (encode query) (build_chat_access_filter uuid_text command source_types)
          (max prefetch_limit limit) limit)
      >>= (λ points. returned (to_sources points))

  unfoldable pub scroll_by_owner : ChatCommand → List Text → Raises (List Point)
  unfolding requested build_chat_access_filter
  scroll_by_owner command source_types =
      requested (codes "Qdrant 조회에 실패했습니다.")
        (scroll_points (build_chat_access_filter uuid_text command source_types) scroll_fetch_limit)

  unfoldable pub list_by_owner :
      ChatCommand → Option Text → Option Text → List Text → ℕ → Raises (List ChatSource)
  unfolding scroll_by_owner recent_documents
  list_by_owner command created_after created_before source_types limit =
      scroll_by_owner command source_types
      >>= (λ points. returned (take limit (recent_documents points created_after created_before)))

  unfoldable pub count_by_owner : ChatCommand → Option Text → Option Text → List Text → Raises ℕ
  unfolding scroll_by_owner recent_documents
  count_by_owner command created_after created_before source_types =
      scroll_by_owner command source_types
      >>= (λ points. returned (length (recent_documents points created_after created_before)))

  -- The filter of the chat search, and the chunks of one document.
  unfoldable pub document_filter : ChatCommand → Text → Filter
  unfolding build_chat_access_filter
  document_filter command resource_id =
      let access = build_chat_access_filter uuid_text command [] in
      record access {
        must =
            access.must
            ++ should (
                match_of (codes "documentId") (resource_id ∷ [])
                ∷ match_of (codes "sourceId") (resource_id ∷ [])
                ∷ [])
              ∷ [];
      }

  unfoldable pub get_document : ChatCommand → Text → ℕ → Raises Text
  unfolding requested document_filter join_document_chunks
  get_document command resource_id max_chars =
      requested (codes "Qdrant 본문 조회에 실패했습니다.")
        (scroll_points (document_filter command resource_id) scroll_fetch_limit)
      >>= (λ points. returned (join_document_chunks points max_chars))
