-- ===== src/Rag/Sparse/Frequencies.antt =====
-- What a sparse vector says of a text.
use be25_fin_thanos_meetbowl.Prelude.{
  ℕ, ◌+◌, ◌≡◌, refl, inl, inr, ap, ◌∙◌, List, [], ◌∷◌, map, arith, if◌then◌else◌, Bool-cases, ◌==◌,
  nat_eq, nat_beq_iff,
}
use be25_fin_thanos_meetbowl.Prelude.Dict.{Dict, lookup, insert, lookup-insert}
use be25_fin_thanos_meetbowl.Text.{Text}
use be25_fin_thanos_meetbowl.Rag.Sparse.{found_count, count_tokens, encode}

-- How many tokens have an index.
abbrev pub occurrences : (Text → ℕ) → ℕ → List Text → ℕ
occurrences index_of index [] = 0
occurrences index_of index (token ∷ tokens) =
    (if index_of token == index then 1 else 0) + occurrences index_of index tokens

found_count-bump :
    (key index : ℕ) (counts : Dict ℕ ℕ)
    → found_count (lookup index (insert key (found_count (lookup key counts) + 1) counts))
      ≡ found_count (lookup index counts) + (if key == index then 1 else 0)
found_count-bump key index counts = elim (Bool-cases (key == index)) [
  | inl same ↦
      rw (lookup-insert key index (found_count (lookup key counts) + 1) counts, same)
        (ap (λ k. found_count (lookup k counts) + 1) ((nat_beq_iff key index).0 same))
  | inr other ↦
      rw (lookup-insert key index (found_count (lookup key counts) + 1) counts, other) (omega arith)
]

found_count-count_tokens :
    (index_of : Text → ℕ) (tokens : List Text) (counts : Dict ℕ ℕ) (index : ℕ)
    → found_count (lookup index (count_tokens index_of tokens counts))
      ≡ found_count (lookup index counts) + occurrences index_of index tokens
unfolding count_tokens
found_count-count_tokens index_of [] counts index = omega arith
found_count-count_tokens index_of (token ∷ tokens) counts index = ground (
  arith,
  found_count-count_tokens index_of tokens
      (insert (index_of token) (found_count (lookup (index_of token) counts) + 1) counts) index,
  found_count-bump (index_of token) index counts,
)

-- The value beside the first occurrence of an index.
abbrev pub value_at : ℕ → List ℕ → List ℕ → ℕ
value_at index [] values = 0
value_at index (i ∷ indices) [] = 0
value_at index (i ∷ indices) (n ∷ values) = if i == index then n else value_at index indices values

value_at-entries :
    (index : ℕ) (counts : Dict ℕ ℕ)
    → value_at index (map (λ entry. entry.0) counts) (map (λ entry. entry.1) counts)
      ≡ found_count (lookup index counts)
unfolding lookup
value_at-entries index [] = refl
value_at-entries index ((i, n) ∷ counts) = elim (Bool-cases (i == index)) [
  | inl same ↦ rw same refl
  | inr other ↦ rw other (value_at-entries index counts)
]

-- In the vector of a text, the value of an index is the number of the tokens that are hashed to it.
pub encode-counts :
    (find_tokens : Text → List Text) (index_of : Text → ℕ) (text : Text) (index : ℕ)
    → value_at index
        (encode find_tokens index_of text).indices
        (encode find_tokens index_of text).values
      ≡ occurrences index_of index (find_tokens text)
unfolding encode lookup
encode-counts find_tokens index_of text index =
    value_at-entries index (count_tokens index_of (find_tokens text) [])
    ∙ ground (arith, found_count-count_tokens index_of (find_tokens text) [] index)
