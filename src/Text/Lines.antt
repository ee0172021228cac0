-- ===== src/Text/Lines.antt =====
-- Lines that are joined by line breaks are found again.
use be25_fin_thanos_meetbowl.Prelude.{
  append_assoc, ℕ, ◌≡◌, refl, ap, ◌∙◌, inl, inr, Bool, true, false, not, ◌&&◌, List, [], ◌∷◌, ◌++◌,
  arith, Bool-cases, All, all, null,
}
use be25_fin_thanos_meetbowl.Text.{
  Text, codes, is_space, is_line_break, prepend, starts_word, split_words, splitlines, join,
  collapse,
}

-- A text without line breaks.
abbrev pub unbroken : Text → Bool
unbroken s = all (λ c. not (is_line_break c)) s

break_is_space : (c : ℕ) → is_line_break c ≡ true → is_space c ≡ true
unfolding is_line_break is_space
break_is_space c h = ground arith

all_prepend :
    (c : ℕ) (words : List Text)
    → is_line_break c ≡ false
    → All (λ w. unbroken w ≡ true) words
    → All (λ w. unbroken w ≡ true) (prepend c words)
all_prepend c [] h k = (ground arith, tt)
all_prepend c (w ∷ words) h k = (ground (arith, k.0), k.1)

no_break : (c : ℕ) → is_space c ≡ false → is_line_break c ≡ false
no_break c h = ground (arith, break_is_space c)

split_words-unbroken : (s : Text) → All (λ w. unbroken w ≡ true) (split_words s)
unfolding split_words
split_words-unbroken [] = tt
split_words-unbroken (c ∷ s) = elim (Bool-cases (is_space c)) [
  | inl space ↦ rw (space, split_words) (split_words-unbroken s)
  | inr letter ↦ elim (Bool-cases (starts_word s)) [
    | inl longer ↦
        rw (letter, longer, split_words)
          (all_prepend c (split_words s) (no_break c letter) (split_words-unbroken s))
    | inr first ↦
        rw (letter, first, split_words) (ground (arith, no_break c letter), split_words-unbroken s)
  ]
]

unbroken-append : (s t : Text) → unbroken (s ++ t) ≡ (unbroken s && unbroken t)
unbroken-append [] t = refl
unbroken-append (c ∷ s) t = ground (arith, unbroken-append s t)

join-cons :
    (sep w v : Text) (words : List Text)
    → join sep (w ∷ v ∷ words) ≡ w ++ (sep ++ join sep (v ∷ words))
unfolding join
join-cons sep w v words = append_assoc w sep (join sep (v ∷ words))

unbroken-join :
    (sep : Text) (words : List Text)
    → unbroken sep ≡ true
    → All (λ w. unbroken w ≡ true) words
    → unbroken (join sep words) ≡ true
unfolding join
unbroken-join sep [] h k = refl
unbroken-join sep (w ∷ []) h k = k.0
unbroken-join sep (w ∷ v ∷ words) h k =
    rw
      (
        join-cons sep w v words,
        unbroken-append w (sep ++ join sep (v ∷ words)),
        unbroken-append sep (join sep (v ∷ words)),
        k.0,
        h,
        unbroken-join sep (v ∷ words) h k.1,
      )
      refl

pub unbroken-collapse : (s : Text) → unbroken (collapse s) ≡ true
unfolding collapse is_line_break
unbroken-collapse s = unbroken-join (codes " ") (split_words s) refl (split_words-unbroken s)

splitlines-break : (t : Text) → splitlines (10 ∷ t) ≡ [] ∷ splitlines t
unfolding splitlines is_line_break
splitlines-break [] = refl
splitlines-break (c ∷ t) = refl

splitlines-first : (l t : Text) → unbroken l ≡ true → splitlines (l ++ (10 ∷ t)) ≡ l ∷ splitlines t
unfolding splitlines
splitlines-first [] t h = splitlines-break t
splitlines-first (c ∷ l) t h = elim (Bool-cases (is_line_break c)) [
  | inl break ↦ cc (rw break at h)
  | inr letter ↦ rw (letter, splitlines-first l t (rw letter at h), splitlines) refl
]

splitlines-one : (c : ℕ) (l : Text) → unbroken (c ∷ l) ≡ true → splitlines (c ∷ l) ≡ (c ∷ l) ∷ []
unfolding splitlines
splitlines-one c [] h = elim (Bool-cases (is_line_break c)) [
  | inl break ↦ cc (rw break at h)
  | inr letter ↦ rw letter refl
]
splitlines-one c (d ∷ l) h = elim (Bool-cases (is_line_break c)) [
  | inl break ↦ cc (rw break at h)
  | inr letter ↦ rw (letter, splitlines-one d l (rw letter at h), splitlines) refl
]

-- Lines that are not empty and hold no line break.
pub splitlines-join :
    (lines : List Text)
    → All (λ l. unbroken l ≡ true) lines
    → All (λ l. null l ≡ false) lines
    → splitlines (join (codes "\n") lines) ≡ lines
unfolding join splitlines
splitlines-join [] h k = refl
splitlines-join ([] ∷ lines) h k = cc
splitlines-join ((c ∷ l) ∷ []) h k = splitlines-one c l h.0
splitlines-join ((c ∷ l) ∷ m ∷ lines) h k =
    ap splitlines (join-cons (codes "\n") (c ∷ l) m lines)
    ∙ splitlines-first (c ∷ l) (join (codes "\n") (m ∷ lines)) h.0
    ∙ ap (λ rest. (c ∷ l) ∷ rest) (splitlines-join (m ∷ lines) h.1 k.1)
