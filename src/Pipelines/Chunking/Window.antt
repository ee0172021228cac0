-- ===== src/Pipelines/Chunking/Window.antt =====
-- `_split_plain_window` of app/pipelines/chunking.py: a text in windows of a fixed width.
use be25_fin_thanos_meetbowl.Prelude.{
  ℕ, zero, suc, ◌+◌, ◌-◌, ◌≤◌, ◌<◌, min, max, ◌≡◌, refl, inl, inr, Option, none, some, List, [],
  ◌∷◌, arith, ltb, leb, if◌then◌else◌, Bool-cases, Option-cases, nat_eq, list_eq, option_eq,
  pair_eq, length, take, drop, All, length-take,
}
use be25_fin_thanos_meetbowl.Text.{Text, strip}
use be25_fin_thanos_meetbowl.Text.Laws.{length-strip-le}

-- `text[start:end]`
abbrev pub slice : Text → ℕ → ℕ → Text
slice text start end = take (end - start) (drop start text)

-- `if window: chunks.append(window)`
abbrev pub put : Text → List Text → List Text
put [] chunks = chunks
put (c ∷ window) chunks = (c ∷ window) ∷ chunks

-- The loop on fuel; `none` means that the fuel ran out. The next start never falls below the one after
-- the last, so that a negative `end - overlap` does not matter.
unfoldable pub window_loop : ℕ → Text → ℕ → ℕ → ℕ → Option (List Text)
window_loop zero text max_chars overlap_chars start = none
window_loop (suc fuel) text max_chars overlap_chars start =
    let end = min (start + max_chars) (length text) in
    let window = strip (slice text start end) in
    let rest =
      window_loop fuel text max_chars overlap_chars (max (end - overlap_chars) (start + 1)) in
    if ltb start (length text)
    then (if leb (length text) end
        then some (put window [])
        else elim rest [ none ↦ none | some chunks ↦ some (put window chunks) ])
    else some []

abbrev pub chunks_or_none : Option (List Text) → List Text
chunks_or_none none = []
chunks_or_none (some chunks) = chunks

-- One round for each character and one more.
unfoldable pub split_plain_window : Text → ℕ → ℕ → List Text
split_plain_window text max_chars overlap_chars =
    chunks_or_none (window_loop (suc (length text)) text max_chars overlap_chars 0)

-- With more rounds of fuel than characters are left, the loop over windows ends with a list of chunks,
-- for every limit and overlap.
pub window_loop_total :
    (fuel : ℕ) (text : Text) (max_chars overlap_chars start : ℕ)
    → length text < start + fuel
    → 0 < fuel
    → (chunks : List Text) × (window_loop fuel text max_chars overlap_chars start ≡ some chunks)
unfolding window_loop
window_loop_total zero text m o start h k = elim k [ ]
window_loop_total (suc fuel) text m o start h k =
    let end = min (start + m) (length text) in
    elim (Bool-cases (ltb start (length text))) [
      | inl more ↦ elim (Bool-cases (leb (length text) end)) [
        | inl last ↦ (put (strip (slice text start end)) [], rw (more, last) refl)
        | inr inner ↦
            let (chunks, rest) =
              window_loop_total fuel text m o (max (end - o) (start + 1)) (omega arith)
                (ground arith) in
            (put (strip (slice text start end)) chunks, rw (more, inner, rest) refl)
      ]
      | inr over ↦ ([], rw over refl)
    ]

slice-le : (text : Text) (start m n : ℕ) → length (slice text start (min (start + m) n)) ≤ m
slice-le text start m n = omega (arith, length-take (min (start + m) n - start) (drop start text))

-- Something to say, within the limit.
abbrev pub Fits : ℕ → List Text → Type 0
Fits n chunks = All (λ chunk. (1 ≤ length chunk) × (length chunk ≤ n)) chunks

Fits-put :
    (n : ℕ) (window : Text) (chunks : List Text)
    → length window ≤ n
    → Fits n chunks
    → Fits n (put window chunks)
Fits-put n [] chunks h k = k
Fits-put n (c ∷ window) chunks h k = ((omega arith, h), k)

window_loop-Fits :
    (fuel : ℕ) (text : Text) (m o start : ℕ)
    → Fits m (chunks_or_none (window_loop fuel text m o start))
unfolding window_loop
window_loop-Fits zero text m o start = tt
window_loop-Fits (suc fuel) text m o start =
    let end = min (start + m) (length text) in
    let window = strip (slice text start end) in
    let fits : length window ≤ m =
      omega (arith, length-strip-le (slice text start end), slice-le text start m (length text)) in
    let next = max (end - o) (start + 1) in
    elim (Bool-cases (ltb start (length text))) [
      | inl more ↦ elim (Bool-cases (leb (length text) end)) [
        | inl last ↦ rw (more, last) (Fits-put m window [] fits tt)
        | inr inner ↦ elim (Option-cases (window_loop fuel text m o next)) [
          | inl out ↦ rw (more, inner, out) tt
          | inr (chunks, rest) ↦
              rw (more, inner, rest)
                (Fits-put m window chunks fits (rw rest at (window_loop-Fits fuel text m o next)))
        ]
      ]
      | inr over ↦ rw over tt
    ]

-- Every window fits, and none is empty.
pub split_plain_window-Fits :
    (text : Text) (max_chars overlap_chars : ℕ)
    → Fits max_chars (split_plain_window text max_chars overlap_chars)
unfolding split_plain_window
split_plain_window-Fits text m o = window_loop-Fits (suc (length text)) text m o 0
