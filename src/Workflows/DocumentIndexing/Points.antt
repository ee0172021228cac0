-- ===== src/Workflows/DocumentIndexing/Points.antt =====
-- What an index request that succeeds has written.
use be25_fin_thanos_meetbowl.Prelude.{
  ℕ, suc, ◌+◌, ◌≤◌, ◌<◌, ◌≡◌, refl, sym, ap, ◌∙◌, inl, inr, false, List, [], ◌∷◌, ◌++◌, map, arith,
  nat_beq, nat_beq_iff, Bool-cases, nat_eq, list_eq, option_eq, pair_eq, length, null,
}
use be25_fin_thanos_meetbowl.Text.{Text, codes, decimal}
use be25_fin_thanos_meetbowl.Errors.{
  returned-eq, Raises, returned, raised, ai, at_stage, >>=-eq-returned, other,
}
use be25_fin_thanos_meetbowl.Schemas.{Moment}
use be25_fin_thanos_meetbowl.Schemas.Indexing.{
  is_empty, IndexDocumentCommand, DocumentChunk, DocumentIndexingResult,
}
use be25_fin_thanos_meetbowl.Pipelines.Chunking.Bounds.{AreChunks, split_document-AreChunks}
use be25_fin_thanos_meetbowl.Workflows.DocumentIndexing.{
  Payload, VectorPoint, EmbeddingResult, Ports, chat_source_type, point_id, payload_of, point_of,
  points_of, store_points, index_chunks, index_content, resolve_content, execute,
}

at_stage-eq-returned {ℓ} :
    {A : Type ℓ} (stage : Text) (m : Raises A) {a : A}
    → at_stage stage m ≡ returned a
    → m ≡ returned a
at_stage-eq-returned stage (returned a) h = h
at_stage-eq-returned stage (raised (ai error)) h = cc
at_stage-eq-returned stage (raised (other name)) h = cc

null-length {ℓ} : {A : Type ℓ} (xs : List A) {n : ℕ} → length xs ≡ suc n → null xs ≡ false
null-length [] h = ground arith
null-length (x ∷ xs) h = refl

module _ (ports : Ports) (command : IndexDocumentCommand) where
  open ports use {Vector, embed, replace_document, uuid_text, uuid5}

  -- The payload has the command's type, owner and readers.
  abbrev pub CarriesScope : Payload → Type 0
  CarriesScope payload =
      (payload.source_type ≡ chat_source_type command.document_type)
      × (payload.source_id ≡ uuid_text command.document_id)
      × (payload.owner_user_id ≡ uuid_text command.owner_user_id)
      × (payload.allowed_user_ids ≡ map uuid_text command.access_scope.user_ids)
      × (payload.shared_workspace_ids ≡ map uuid_text command.access_scope.shared_workspace_ids)

  -- Numbered from `index` on, identified by document, number and strategy, and within the limit.
  abbrev pub ArePoints : ℕ → List (VectorPoint Vector) → Type 0
  ArePoints index [] = Unit
  ArePoints index (p ∷ ps) =
      (p.payload.chunk_index ≡ index)
      × (p.point_id
          ≡ uuid5 (
              uuid_text command.document_id
              ++ codes ":"
              ++ decimal index
              ++ codes ":"
              ++ ports.chunk_strategy_version))
      × (length p.payload.content ≤ ports.chunk_size)
      × CarriesScope p.payload
      × ArePoints (index + 1) ps

  abbrev pub embedded_text : VectorPoint Vector → Text
  embedded_text p = command.title ++ (codes "\n\n" ++ p.payload.content)

  points_of-ArePoints :
      (index : ℕ) (chunks : List DocumentChunk) (vectors : List Vector)
      → length vectors ≡ length chunks
      → AreChunks ports.chunk_size command.title index chunks
      → ArePoints index (points_of ports command chunks vectors)
        × (map (λ p. p.vector) (points_of ports command chunks vectors) ≡ vectors)
        × (map embedded_text (points_of ports command chunks vectors)
            ≡ map (λ c. c.embedding_text) chunks)
        × (length (points_of ports command chunks vectors) ≡ length chunks)
  unfolding points_of point_of point_id payload_of
  points_of-ArePoints index [] [] same h = (tt, refl, refl, refl)
  points_of-ArePoints index [] (v ∷ vs) same h = ground arith
  points_of-ArePoints index (c ∷ cs) [] same h = ground arith
  points_of-ArePoints index (c ∷ cs) (v ∷ vs) same (number, bound, text, h) =
      let (points, vectors, texts, count) = points_of-ArePoints (index + 1) cs vs (omega arith) h in
      (
        (number, rw number refl, bound.1, (refl, refl, refl, refl, refl), points),
        rw vectors refl,
        rw (text, texts) refl,
        rw count refl,
      )

  -- The points that the store has accepted in place of the document's.
  pub record IsIndexed (result : DocumentIndexingResult) : Type 0 where
    pub points : List (VectorPoint Vector)
    pub embedded : EmbeddingResult Vector
    pub are_points : ArePoints 0 points
    pub counted : result.chunk_count ≡ length points
    pub filled : null points ≡ false
    pub readable : is_empty command.access_scope ≡ false
    pub embeds : embed (map embedded_text points) ≡ returned embedded
    pub vectors : map (λ p. p.vector) points ≡ embedded.embeddings
    pub written :
        replace_document (record {
          document_id = uuid_text command.document_id;
          vector_size = embedded.dimensions;
          points = points;
        })
        ≡ returned tt

  index_chunks-IsIndexed :
      (now : Moment) (chunks : List DocumentChunk) (result : DocumentIndexingResult)
      → AreChunks ports.chunk_size command.title 0 chunks
      → is_empty command.access_scope ≡ false
      → index_chunks ports now command chunks ≡ returned result
      → IsIndexed result
  unfolding index_chunks store_points
  index_chunks-IsIndexed now [] result are open_ h = cc
  index_chunks-IsIndexed now (chunk ∷ chunks) result are open_ h =
      let (embedded, e, h₁) = >>=-eq-returned (at_stage _ (embed _)) _ h in
      elim (Bool-cases (nat_beq (length embedded.embeddings) (length (chunk ∷ chunks)))) [
        | inr fewer ↦ cc (rw fewer at h₁)
        | inl same ↦
            let (_, w, h₂) = >>=-eq-returned (at_stage _ (replace_document _)) _ (rw same at h₁) in
            let (points, vectors, texts, count) =
              points_of-ArePoints 0 (chunk ∷ chunks) embedded.embeddings ((nat_beq_iff _ _).0 same)
                are in
            record {
              points = points_of ports command (chunk ∷ chunks) embedded.embeddings;
              embedded = embedded;
              are_points = points;
              counted = ap (λ r. r.chunk_count) (sym (returned-eq h₂)) ∙ sym count;
              filled = null-length _ count;
              readable = open_;
              embeds = rw texts (at_stage-eq-returned _ _ e);
              vectors = vectors;
              written = at_stage-eq-returned _ _ w;
            }
      ]

  -- With an overlap below the chunk size: when indexing succeeds, the scope of readers is not empty, and
  -- the store has accepted, in place of the document's old points, at least one point and as many as the
  -- result counts; these are numbered 0, 1, 2, …, each has the identifier made of document, number and
  -- strategy version, a content within the chunk size, the command's type, owner and readers, and the
  -- vector of the title and its own content.
  pub execute-IsIndexed :
      (now : Moment) (result : DocumentIndexingResult)
      → ports.chunk_overlap < ports.chunk_size
      → execute ports now command ≡ returned result
      → IsIndexed result
  unfolding execute index_content
  execute-IsIndexed now result o h =
      let (content, _, h₁) = >>=-eq-returned (resolve_content ports command) _ h in
      elim (Bool-cases (null content)) [
        | inl none_ ↦ cc (rw none_ at h₁)
        | inr some_ ↦ elim (Bool-cases (is_empty command.access_scope)) [
          | inl closed ↦ cc (rw (some_, closed) at h₁)
          | inr open_ ↦
              let (chunks, same, are) = split_document-AreChunks command.title content _ _ o in
              index_chunks-IsIndexed now chunks result are open_ (rw (some_, open_, same) at h₁)
        ]
      ]
