-- ===== src/Rag/Sparse.antt =====
-- app/rag/sparse.py: `SparseEncoder`. The tokens of a text (`_TOKEN_PATTERN.findall(text.lower())`) and the
-- first four bytes of a token's SHA-256 are parameters; a frequency, a float in the code, is a number.
pub mod Frequencies
use be25_fin_thanos_meetbowl.Prelude.{ℕ, ◌+◌, Option, none, some, List, [], ◌∷◌, map, nat_eq}
use be25_fin_thanos_meetbowl.Prelude.Dict.{Dict, lookup, insert}
use be25_fin_thanos_meetbowl.Text.{Text}

pub record SparseVector : Type 0 where
  pub indices : List ℕ
  pub values : List ℕ

-- `counts.get(index, 0.0)`
abbrev pub found_count : Option ℕ → ℕ
found_count none = 0
found_count (some n) = n

unfoldable pub count_tokens : (Text → ℕ) → List Text → Dict ℕ ℕ → Dict ℕ ℕ
unfolding lookup insert
count_tokens index_of [] counts = counts
count_tokens index_of (token ∷ tokens) counts =
    let index = index_of token in
    count_tokens index_of tokens (insert index (found_count (lookup index counts) + 1) counts)

unfoldable pub encode : (Text → List Text) → (Text → ℕ) → Text → SparseVector
unfolding count_tokens
encode find_tokens index_of text =
    let counts = count_tokens index_of (find_tokens text) [] in
    record { indices = map (λ entry. entry.0) counts; values = map (λ entry. entry.1) counts }
