-- ===== src/Pipelines/Chunking/Tables.antt =====
-- The pieces of a long Markdown table.
use be25_fin_thanos_meetbowl.Prelude.{
  ℕ, zero, suc, ◌&&◌, null, length-append, ◌+◌, ◌≤◌, ◌≡◌, refl, inl, inr, Bool, true, false, List,
  [], ◌∷◌, ◌++◌, arith, ltb, leb, if◌then◌else◌, leb→le, not-ltb→le, tests, Bool-cases, nat_eq,
  list_eq, option_eq, pair_eq, length, take, drop, All, All-append,
}
use be25_fin_thanos_meetbowl.Text.{Text, codes, strip, join, splitlines}
use be25_fin_thanos_meetbowl.Pipelines.Chunking.Window.{
  Fits, split_plain_window, split_plain_window-Fits,
}
use be25_fin_thanos_meetbowl.Pipelines.Chunking.{
  strip_all, is_markdown_table, separator_index, lines_text, table_chunks, split_markdown_table,
}

length-append-le : (x y z : Text) → length x ≤ length (x ++ y ++ z)
length-append-le x y z = omega (arith, length-append x y, length-append (x ++ y) z)

length-append_mono : (x y z : Text) → length y ≤ length z → length (x ++ y) ≤ length (x ++ z)
length-append_mono x y z h = omega (arith, length-append x y, length-append x z)

length-lines_text-snoc :
    (lines : List Text) (row : Text)
    → length (lines_text lines) ≤ length (lines_text (lines ++ row ∷ []))
unfolding join
length-lines_text-snoc [] row = omega arith
length-lines_text-snoc (x ∷ []) row = length-append-le x (codes "\n") row
length-lines_text-snoc (x ∷ y ∷ ys) row =
    length-append_mono (x ++ codes "\n") _ _ (length-lines_text-snoc (y ∷ ys) row)

abbrev IsFilled : Text → Type 0
IsFilled text = 1 ≤ length text

null-filled : (text : Text) → null text ≡ false → 1 ≤ length text
null-filled [] h = cc
null-filled (c ∷ text) h = omega arith

strip_all-IsFilled : (pieces : List Text) → All IsFilled (strip_all pieces)
unfolding strip_all
strip_all-IsFilled [] = tt
strip_all-IsFilled (s ∷ rest) = elim (Bool-cases (null (strip s))) [
  | inl empty ↦ rw empty (strip_all-IsFilled rest)
  | inr full ↦ rw full (null-filled (strip s) full, strip_all-IsFilled rest)
]

length-lines_text-head :
    (line : Text) (lines : List Text) → length line ≤ length (lines_text (line ∷ lines))
unfolding join
length-lines_text-head line [] = omega arith
length-lines_text-head line (y ∷ ys) = length-append-le line (codes "\n") (lines_text (y ∷ ys))

header-filled :
    (count : ℕ) (lines : List Text)
    → 1 ≤ count
    → 2 ≤ length lines
    → All IsFilled lines
    → 1 ≤ length (lines_text (take count lines))
header-filled zero lines g h k = ground arith
header-filled (suc index) [] g h k = ground arith
header-filled (suc index) (line ∷ lines) g h k =
    omega (arith, k.0, length-lines_text-head line (take index lines))

table_chunks-Fits :
    (n : ℕ) (header current : List Text) (filled : Bool) (rows : List Text)
    → (1 ≤ length (lines_text header)) × (length (lines_text header) ≤ n)
    → (1 ≤ length (lines_text current)) × (length (lines_text current) ≤ n)
    → Fits n (table_chunks n header current filled rows)
unfolding table_chunks
table_chunks-Fits n header current filled [] h c =
    elim (Bool-cases (ltb (length header) (length current))) [
      | inl longer ↦ rw longer (c, tt)
      | inr bare ↦
          rw bare (elim filled as (λ b. Fits n (if b then [] else lines_text header ∷ [])) [
            | true ↦ tt
            | false ↦ (h, tt)
          ])
    ]
table_chunks-Fits n header current filled (row ∷ rows) h c =
    elim (Bool-cases (leb (length (lines_text (current ++ row ∷ []))) n)) [
      | inl fits ↦
          rw (fits, table_chunks)
            (table_chunks-Fits n header (current ++ row ∷ []) filled rows h
              (omega (arith, c.0, length-lines_text-snoc current row), leb→le _ _ fits))
      | inr over ↦ elim (Bool-cases (ltb (length header) (length current))) [
        | inl longer ↦ elim (Bool-cases (ltb n (length (lines_text (header ++ row ∷ []))))) [
          | inl wide ↦
              rw (over, longer, wide, table_chunks)
                (
                  c,
                  All-append _ (split_plain_window row n 0) _ (split_plain_window-Fits row n 0)
                      (table_chunks-Fits n header header true rows h h),
                )
          | inr narrow ↦
              rw (over, longer, narrow, table_chunks)
                (
                  c,
                  table_chunks-Fits n header (header ++ row ∷ []) true rows h (
                    omega (arith, h.0, length-lines_text-snoc header row),
                    not-ltb→le _ _ narrow,
                  ),
                )
        ]
        | inr bare ↦
            rw (over, bare, table_chunks)
              (All-append _ (split_plain_window row n 0) _ (split_plain_window-Fits row n 0)
                (table_chunks-Fits n header header _ rows h h))
      ]
    ]

and-first : (a b : Bool) → (a && b) ≡ true → a ≡ true
and-first true b h = refl
and-first false b h = h

pub split_markdown_table-Fits :
    (block : Text) (n : ℕ) → is_markdown_table block ≡ true → Fits n (split_markdown_table block n)
unfolding split_markdown_table is_markdown_table
split_markdown_table-Fits block n table =
    let lines = strip_all (splitlines block) in
    let index = separator_index 0 (take 3 lines) in
    let header = take (index + 1) lines in
    elim (Bool-cases (leb n (length (lines_text header)))) [
      | inl long ↦ rw long (split_plain_window-Fits block n 0)
      | inr short ↦
          let several : 2 ≤ length lines = leb→le _ _ (and-first _ _ (and-first _ _ table)) in
          let fits : (1 ≤ length (lines_text header)) × (length (lines_text header) ≤ n) = (
            header-filled (index + 1) lines (omega arith) several
                (strip_all-IsFilled (splitlines block)),
            omega (tests, short),
          ) in
          rw short (table_chunks-Fits n header header false (drop (index + 1) lines) fits fits)
    ]
