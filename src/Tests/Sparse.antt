-- ===== src/Tests/Sparse.antt =====
-- Tokens of one letter, two of them hashed to one index.
use be25_fin_thanos_meetbowl.Prelude.{◌≡◌, List, [], ◌∷◌, map, length}
use be25_fin_thanos_meetbowl.Text.{Text, codes}
use be25_fin_thanos_meetbowl.Rag.Sparse.{encode}
use be25_fin_thanos_meetbowl.Rag.Sparse.Frequencies.{value_at, occurrences, encode-counts}

abbrev letters : Text → List Text
letters text = map (λ c. c ∷ []) text

encode-counts_example :
    value_at 1
      (encode letters length (codes "aba")).indices
      (encode letters length (codes "aba")).values
    ≡ occurrences length 1 (letters (codes "aba"))
encode-counts_example = encode-counts letters length (codes "aba") 1
