-- ===== src/Pipelines/Chunking.antt =====
-- app/pipelines/chunking.py: documents into chunks.
pub mod Window
pub mod Tables
pub mod Bounds
use be25_fin_thanos_meetbowl.Prelude.{
  ℕ, ◌+◌, Bool, true, false, not, ◌&&◌, ◌||◌, List, [], ◌∷◌, ◌++◌, map, ltb, leb, nat_beq,
  if◌then◌else◌, nat_eq, contains, length, take, drop, null, all,
}
use be25_fin_thanos_meetbowl.Text.{Text, codes, strip, split_on, splitlines, starts_with, join}
use be25_fin_thanos_meetbowl.Errors.{◌>>=◌, Raises, returned, raised, other}
use be25_fin_thanos_meetbowl.Schemas.Indexing.{DocumentChunk}
use be25_fin_thanos_meetbowl.Pipelines.Chunking.Window.{split_plain_window}

-- `[s.strip() for s in pieces if s.strip()]`
unfoldable pub strip_all : List Text → List Text
strip_all [] = []
strip_all (s ∷ rest) = if null (strip s) then strip_all rest else strip s ∷ strip_all rest

-- `line.strip("|")`
unfoldable pub strip_bars_left : Text → Text
strip_bars_left [] = []
strip_bars_left (c ∷ s) = if nat_beq c b'|' then strip_bars_left s else c ∷ s

abbrev pub keep_bar : ℕ → Text → Text
keep_bar c [] = if nat_beq c b'|' then [] else c ∷ []
keep_bar c (d ∷ r) = c ∷ d ∷ r

unfoldable pub strip_bars_right : Text → Text
strip_bars_right [] = []
strip_bars_right (c ∷ s) = keep_bar c (strip_bars_right s)

-- `cell and set(cell) <= {"-", ":"} and "-" in cell`
unfoldable pub is_rule_cell : Text → Bool
is_rule_cell cell =
    not (null cell) && all (λ c. nat_beq c b'-' || nat_beq c b':') cell && contains b'-' cell

unfoldable pub is_markdown_separator : Text → Bool
unfolding is_rule_cell strip_bars_left strip_bars_right strip
is_markdown_separator line =
    let cells = map strip (split_on (codes "|") (strip_bars_right (strip_bars_left line))) in
    not (null cells) && all is_rule_cell cells

abbrev pub ends_with_bar : Text → Bool
ends_with_bar [] = false
ends_with_bar (c ∷ []) = nat_beq c b'|'
ends_with_bar (c ∷ d ∷ s) = ends_with_bar (d ∷ s)

abbrev pub any_separator : List Text → Bool
any_separator [] = false
any_separator (line ∷ lines) = is_markdown_separator line || any_separator lines

unfoldable pub is_markdown_table : Text → Bool
unfolding strip_all splitlines is_markdown_separator
is_markdown_table block =
    let lines = strip_all (splitlines block) in
    leb 2 (length lines)
    && all (λ line. starts_with (codes "|") line && ends_with_bar line) lines
    && any_separator (take 3 lines)

-- `next((index …), 1)` over the first three lines
unfoldable pub separator_index : ℕ → List Text → ℕ
separator_index index [] = 1
separator_index index (line ∷ lines) =
    if is_markdown_separator line then index else separator_index (index + 1) lines

abbrev pub lines_text : List Text → Text
lines_text lines = join (codes "\n") lines

-- The rows from `current` on. `filled` says whether a chunk was made before.
unfoldable pub table_chunks : ℕ → List Text → List Text → Bool → List Text → List Text
table_chunks max_chars header current filled [] =
    if ltb (length header) (length current)
    then lines_text current ∷ []
    else if filled
    then []
    else lines_text header ∷ []
table_chunks max_chars header current filled (row ∷ rows) =
    elim (leb (length (lines_text (current ++ row ∷ []))) max_chars) [
      | true ↦ table_chunks max_chars header (current ++ row ∷ []) filled rows
      | false ↦ elim (ltb (length header) (length current)) [
        | true ↦ elim (ltb max_chars (length (lines_text (header ++ row ∷ [])))) [
          | true ↦
              lines_text current
              ∷ (split_plain_window row max_chars 0
                  ++ table_chunks max_chars header header true rows)
          | false ↦
              lines_text current ∷ table_chunks max_chars header (header ++ row ∷ []) true rows
        ]
        | false ↦
            split_plain_window row max_chars 0
            ++ table_chunks max_chars header header
                (filled || not (null (split_plain_window row max_chars 0))) rows
      ]
    ]

unfoldable pub split_markdown_table : Text → ℕ → List Text
split_markdown_table block max_chars =
    let lines = strip_all (splitlines block) in
    let index = separator_index 0 (take 3 lines) in
    let header = take (index + 1) lines in
    let rows = drop (index + 1) lines in
    if leb max_chars (length (lines_text header))
    then split_plain_window block max_chars 0
    else table_chunks max_chars header header false rows

-- The second argument is never negative in the model, so that its check is absent.
unfoldable pub split_long_block : Text → ℕ → ℕ → Raises (List Text)
split_long_block block max_chars overlap_chars =
    if leb max_chars 0
    then raised (other (codes "ValueError"))
    else if leb max_chars overlap_chars
    then raised (other (codes "ValueError"))
    else if is_markdown_table block
    then returned (split_markdown_table block max_chars)
    else returned (split_plain_window block max_chars overlap_chars)

abbrev pub candidate_of : Text → Text → Text
candidate_of [] block = block
candidate_of (c ∷ current) block = (c ∷ current) ++ (codes "\n\n" ++ block)

-- `if current: chunks.append(current)`
abbrev pub flush : Text → List Text → List Text
flush [] chunks = chunks
flush (c ∷ current) chunks = (c ∷ current) ∷ chunks

-- The loop over the blocks, and the last flush.
unfoldable pub block_chunks : ℕ → ℕ → Text → List Text → Raises (List Text)
block_chunks max_chars overlap_chars current [] = returned (flush current [])
block_chunks max_chars overlap_chars current (block ∷ blocks) =
    elim (leb (length (candidate_of current block)) max_chars) [
      | true ↦ block_chunks max_chars overlap_chars (candidate_of current block) blocks
      | false ↦ elim (leb (length block) max_chars) [
        | true ↦ do
          chunks ← block_chunks max_chars overlap_chars block blocks
          returned (flush current chunks)
        | false ↦ do
          pieces ← split_long_block block max_chars overlap_chars
          chunks ← block_chunks max_chars overlap_chars [] blocks
          returned (flush current (pieces ++ chunks))
      ]
    ]

-- `DocumentChunk(…)` for each chunk. A content without characters does not pass the schema; the text to
-- embed always has some.
unfoldable pub enumerate : Text → ℕ → List Text → Raises (List DocumentChunk)
enumerate title index [] = returned []
enumerate title index (chunk ∷ chunks) =
    let rest = enumerate title (index + 1) chunks in
    if null chunk then raised (other (codes "ValidationError")) else (do
      others ← rest
      returned (
          record {
            chunk_index = index;
            content = chunk;
            embedding_text = title ++ (codes "\n\n" ++ chunk);
          }
          ∷ others))

unfoldable pub split_document_into_chunks : Text → Text → ℕ → ℕ → Raises (List DocumentChunk)
unfolding strip_all
split_document_into_chunks title content max_chars overlap_chars = do
  chunks ← block_chunks max_chars overlap_chars [] (strip_all (split_on (codes "\n\n") content))
  enumerate title 0 chunks
