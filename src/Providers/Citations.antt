-- ===== src/Providers/Citations.antt =====
-- The citations of app/providers/pydantic_ai_chat.py: `_accumulate_sources`,
-- `_format_with_citation_numbers` and `_select_cited_sources`.
pub mod Numbers
pub mod Cited
pub mod Shown
pub mod Few
use be25_fin_thanos_meetbowl.Rag.Merging.Known.{ids}
use be25_fin_thanos_meetbowl.Prelude.{
  ℕ, suc, ◌-◌, true, false, not, ◌&&◌, Option, none, some, List, [], ◌∷◌, ◌++◌, leb, nat_eq,
  contains, length, get_elem?, elements,
}
use be25_fin_thanos_meetbowl.Prelude.Dict.{Dict, lookup, insert}
use be25_fin_thanos_meetbowl.Text.{Text, codes, decimal, join}
use be25_fin_thanos_meetbowl.Dedupe.{dedupe}
use be25_fin_thanos_meetbowl.Errors.{Raises, returned, raised, other, ◌>>=◌}
use be25_fin_thanos_meetbowl.Schemas.{Uuid}
use be25_fin_thanos_meetbowl.Schemas.Chat.{
  ChatSource, ChatSourceType, backup_mail, minutes, personal_memo, personal_drive_file,
  shared_workspace_file_version,
}

abbrev pub type_text : ChatSourceType → Text
type_text backup_mail = codes "BACKUP_MAIL"
type_text minutes = codes "MINUTES"
type_text personal_memo = codes "PERSONAL_MEMO"
type_text personal_drive_file = codes "PERSONAL_DRIVE_FILE"
type_text shared_workspace_file_version = codes "SHARED_WORKSPACE_FILE_VERSION"

-- The list after the call; `seen` starts with the documents that it has.
unfoldable pub accumulate_sources : List ChatSource → List ChatSource → List ChatSource
unfolding dedupe
accumulate_sources accumulated new_sources =
    accumulated ++ dedupe (λ source. source.resource_id) (ids accumulated) new_sources

-- `{source.resource_id: number for number, source in enumerate(accumulated, start=number)}`
unfoldable pub index_by_id : ℕ → List ChatSource → Dict Uuid ℕ → Dict Uuid ℕ
unfolding insert
index_by_id number [] index = index
index_by_id number (source ∷ sources) index =
    index_by_id (suc number) sources (insert source.resource_id number index)

unfoldable pub format_source : ChatSource → Option ℕ → Raises Text
format_source source none = raised (other (codes "KeyError"))
format_source source (some number) = returned (
    codes "["
    ++ decimal number
    ++ codes "] "
    ++ source.title
    ++ codes "\n자료 유형: "
    ++ type_text source.type
    ++ codes "\n본문:\n"
    ++ source.snippet)

unfoldable pub format_all : Dict Uuid ℕ → List ChatSource → Raises (List Text)
unfolding lookup format_source
format_all index [] = returned []
format_all index (source ∷ sources) = do
  text ← format_source source (lookup source.resource_id index)
  texts ← format_all index sources
  returned (text ∷ texts)

unfoldable pub format_with_citation_numbers : List ChatSource → List ChatSource → Raises Text
unfolding format_all index_by_id
format_with_citation_numbers accumulated shown = do
  texts ← format_all (index_by_id 1 accumulated []) shown
  returned (join (codes "\n\n") texts)

-- The cited numbers that are in range, each once; a source for each.
unfoldable pub select_from : List ChatSource → List ℕ → List ℕ → List ChatSource
select_from accumulated seen [] = []
select_from accumulated seen (number ∷ numbers) =
    elim (leb 1 number && leb number (length accumulated) && not (contains number seen)) [
      | true ↦
          elements (get_elem? accumulated (number - 1))
          ++ select_from accumulated (number ∷ seen) numbers
      | false ↦ select_from accumulated seen numbers
    ]

unfoldable pub select_cited_sources : List ChatSource → List ℕ → List ChatSource
unfolding select_from
select_cited_sources accumulated cited_indices = select_from accumulated [] cited_indices
