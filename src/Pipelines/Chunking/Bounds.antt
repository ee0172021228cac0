-- ===== src/Pipelines/Chunking/Bounds.antt =====
-- The chunks of a document: their sizes and their numbers.
use be25_fin_thanos_meetbowl.Prelude.{
  ℕ, ◌+◌, ◌≤◌, ◌<◌, ◌≡◌, refl, inl, inr, false, List, [], ◌∷◌, ◌++◌, arith, leb, leb→le, Bool-cases,
  nat_eq, list_eq, option_eq, pair_eq, length, All-append,
}
use be25_fin_thanos_meetbowl.Text.{Text, codes, split_on}
use be25_fin_thanos_meetbowl.Errors.{returned}
use be25_fin_thanos_meetbowl.Schemas.Indexing.{DocumentChunk}
use be25_fin_thanos_meetbowl.Pipelines.Chunking.Window.{
  Fits, split_plain_window, split_plain_window-Fits,
}
use be25_fin_thanos_meetbowl.Pipelines.Chunking.{
  strip_all, is_markdown_table, split_markdown_table, split_long_block, candidate_of, flush,
  block_chunks, enumerate, split_document_into_chunks,
}
use be25_fin_thanos_meetbowl.Pipelines.Chunking.Tables.{split_markdown_table-Fits}

-- What `split_long_block` returns with a usable configuration.
split_long_block-Fits :
    (block : Text) (n overlap : ℕ)
    → overlap < n
    → (pieces : List Text) × (split_long_block block n overlap ≡ returned pieces) × Fits n pieces
unfolding split_long_block
split_long_block-Fits block n overlap h =
    let positive : leb n 0 ≡ false = ground arith in
    let larger : leb n overlap ≡ false = ground arith in
    elim (Bool-cases (is_markdown_table block)) [
      | inl table ↦ (
        split_markdown_table block n,
        rw (positive, larger, table) refl,
        split_markdown_table-Fits block n table,
      )
      | inr plain ↦ (
        split_plain_window block n overlap,
        rw (positive, larger, plain) refl,
        split_plain_window-Fits block n overlap,
      )
    ]

flush-Fits :
    (n : ℕ) (current : Text) (chunks : List Text)
    → length current ≤ n
    → Fits n chunks
    → Fits n (flush current chunks)
flush-Fits n [] chunks h k = k
flush-Fits n (c ∷ current) chunks h k = ((omega arith, h), k)

block_chunks-Fits :
    (n overlap : ℕ) (current : Text) (blocks : List Text)
    → overlap < n
    → length current ≤ n
    → (chunks : List Text) × (block_chunks n overlap current blocks ≡ returned chunks)
      × Fits n chunks
unfolding block_chunks
block_chunks-Fits n overlap current [] h c = (flush current [], refl, flush-Fits n current [] c tt)
block_chunks-Fits n overlap current (block ∷ blocks) h c =
    elim (Bool-cases (leb (length (candidate_of current block)) n)) [
      | inl fits ↦
          rw (fits, block_chunks)
            (block_chunks-Fits n overlap (candidate_of current block) blocks h (leb→le _ _ fits))
      | inr over ↦ elim (Bool-cases (leb (length block) n)) [
        | inl short ↦
            let (chunks, same, ok) =
              block_chunks-Fits n overlap block blocks h (leb→le _ _ short) in
            (
              flush current chunks,
              rw (over, short, same, block_chunks) refl,
              flush-Fits n current chunks c ok,
            )
        | inr long ↦
            let (pieces, split, fit) = split_long_block-Fits block n overlap h in
            let (chunks, same, ok) = block_chunks-Fits n overlap [] blocks h (omega arith) in
            (
              flush current (pieces ++ chunks),
              rw (over, long, split, same, block_chunks) refl,
              flush-Fits n current (pieces ++ chunks) c (All-append _ pieces chunks fit ok),
            )
      ]
    ]

-- Numbered from `index` on, not empty, within the limit, and embedded with the title in front.
abbrev pub AreChunks : ℕ → Text → ℕ → List DocumentChunk → Type 0
AreChunks n title index [] = Unit
AreChunks n title index (chunk ∷ chunks) =
    (chunk.chunk_index ≡ index)
    × ((1 ≤ length chunk.content) × (length chunk.content ≤ n))
    × (chunk.embedding_text ≡ title ++ (codes "\n\n" ++ chunk.content))
    × AreChunks n title (index + 1) chunks

enumerate-AreChunks :
    (n : ℕ) (title : Text) (index : ℕ) (chunks : List Text)
    → Fits n chunks
    → (numbered : List DocumentChunk) × (enumerate title index chunks ≡ returned numbered)
      × AreChunks n title index numbered
unfolding enumerate
enumerate-AreChunks n title index [] h = ([], refl, tt)
enumerate-AreChunks n title index ([] ∷ chunks) h = ground arith
enumerate-AreChunks n title index ((c ∷ chunk) ∷ chunks) h =
    let (others, same, are) = enumerate-AreChunks n title (index + 1) chunks h.1 in
    (
      record {
        chunk_index = index;
        content = c ∷ chunk;
        embedding_text = title ++ (codes "\n\n" ++ c ∷ chunk);
      }
          ∷ others,
      rw (same, enumerate) refl,
      (refl, h.0, refl, are),
    )

-- With an overlap below the limit, every document is split without an error; the chunks are numbered
-- 0, 1, 2, …, none is empty or longer than the limit, and each one is embedded as the title, an empty line and
-- its content.
pub split_document-AreChunks :
    (title content : Text) (max_chars overlap_chars : ℕ)
    → overlap_chars < max_chars
    → (chunks : List DocumentChunk) × (split_document_into_chunks title content max_chars
          overlap_chars
        ≡ returned chunks)
      × AreChunks max_chars title 0 chunks
unfolding split_document_into_chunks
split_document-AreChunks title content n overlap h =
    let (chunks, same, fits) =
      block_chunks-Fits n overlap [] (strip_all (split_on (codes "\n\n") content)) h
        (omega arith) in
    let (numbered, all_valid, are) = enumerate-AreChunks n title 0 chunks fits in
    (numbered, rw same all_valid, are)
