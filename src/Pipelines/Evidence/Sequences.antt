-- ===== src/Pipelines/Evidence/Sequences.antt =====
-- `_sanitize_sequences` of app/pipelines/minutes_evidence.py: source references, sorted, known and
-- without repetition.
use be25_fin_thanos_meetbowl.Prelude.{
  ℕ, suc, ◌≤◌, ◌≡◌, refl, ◌≢◌, inl, inr, true, false, not, ◌&&◌, ◌||◌, List, [], ◌∷◌, arith, leb,
  nat_beq, if◌then◌else◌, leb→le, nat_beq_iff, tests, Bool-cases, nat_eq, list_eq, option_eq,
  pair_eq, contains,
}

-- `sorted`
unfoldable pub insert_sorted : ℕ → List ℕ → List ℕ
insert_sorted a [] = a ∷ []
insert_sorted a (x ∷ xs) = if leb a x then a ∷ x ∷ xs else x ∷ insert_sorted a xs

unfoldable pub sorted : List ℕ → List ℕ
unfolding insert_sorted
sorted [] = []
sorted (x ∷ xs) = insert_sorted x (sorted xs)

-- The loop: `sequence not in valid_sequences or sequence in seen` skips.
unfoldable pub sanitize_from : List ℕ → List ℕ → List ℕ → List ℕ
sanitize_from valid seen [] = []
sanitize_from valid seen (x ∷ xs) = elim (not (contains x valid) || contains x seen) [
  | true ↦ sanitize_from valid seen xs
  | false ↦ x ∷ sanitize_from valid (x ∷ seen) xs
]

unfoldable pub sanitize_sequences : List ℕ → List ℕ → List ℕ
unfolding sorted sanitize_from
sanitize_sequences source_sequences valid = sanitize_from valid [] (sorted source_sequences)

contains-insert_sorted :
    (a x : ℕ) (xs : List ℕ) → contains a (insert_sorted x xs) ≡ (nat_beq x a || contains a xs)
unfolding insert_sorted
contains-insert_sorted a x [] = refl
contains-insert_sorted a x (y ∷ ys) = ground (arith, contains-insert_sorted a x ys)

contains-sorted : (a : ℕ) (xs : List ℕ) → contains a (sorted xs) ≡ contains a xs
unfolding sorted
contains-sorted a [] = refl
contains-sorted a (x ∷ xs) = rw (contains-insert_sorted a x (sorted xs), contains-sorted a xs) refl

-- Not falling, from a bound on.
abbrev Ascends : ℕ → List ℕ → Type 0
Ascends low [] = Unit
Ascends low (x ∷ xs) = (low ≤ x) × Ascends x xs

Ascends-insert :
    (low a : ℕ) (xs : List ℕ) → low ≤ a → Ascends low xs → Ascends low (insert_sorted a xs)
unfolding insert_sorted
Ascends-insert low a [] h k = (h, tt)
Ascends-insert low a (x ∷ xs) h k = elim (Bool-cases (leb a x)) [
  | inl first ↦ rw first (h, (leb→le a x first, k.1))
  | inr later ↦ rw later (k.0, Ascends-insert x a xs (omega (tests, later)) k.1)
]

Ascends-sorted : (xs : List ℕ) → Ascends 0 (sorted xs)
unfolding sorted
Ascends-sorted [] = tt
Ascends-sorted (x ∷ xs) = Ascends-insert 0 x (sorted xs) (omega arith) (Ascends-sorted xs)

-- Strictly rising, from a bound on.
abbrev pub Rises : ℕ → List ℕ → Type 0
Rises low [] = Unit
Rises low (x ∷ xs) = (low ≤ x) × Rises (suc x) xs

contains-sanitize_from :
    (a : ℕ) (valid seen xs : List ℕ)
    → contains a (sanitize_from valid seen xs)
      ≡ (contains a xs && contains a valid && not (contains a seen))
unfolding sanitize_from
contains-sanitize_from a valid seen [] = refl
contains-sanitize_from a valid seen (x ∷ xs) =
    elim (Bool-cases (not (contains x valid) || contains x seen)) [
      | inl skipped ↦ elim (Bool-cases (nat_beq x a)) [
        | inl same ↦
            let e : x ≡ a = (nat_beq_iff x a).0 same in
            let gone : (not (contains a valid) || contains a seen) ≡ true = rw (← e) skipped in
            rw (skipped, sanitize_from) (rw (contains-sanitize_from a valid seen xs) (ground arith))
        | inr other ↦
            rw (skipped, sanitize_from) (rw (contains-sanitize_from a valid seen xs, other) refl)
      ]
      | inr taken ↦ elim (Bool-cases (nat_beq x a)) [
        | inl same ↦
            let e : x ≡ a = (nat_beq_iff x a).0 same in
            let here : (not (contains a valid) || contains a seen) ≡ false = rw (← e) taken in
            rw (taken, sanitize_from) (ground arith)
        | inr other ↦
            rw (taken, sanitize_from)
              (rw (contains-sanitize_from a valid (x ∷ seen) xs, other) refl)
      ]
    ]

Ascends-weaken : (low high : ℕ) (xs : List ℕ) → low ≤ high → Ascends high xs → Ascends low xs
Ascends-weaken low high [] le h = tt
Ascends-weaken low high (x ∷ xs) le h = (omega (arith, h.0), h.1)

Rises-weaken : (low high : ℕ) (xs : List ℕ) → low ≤ high → Rises high xs → Rises low xs
Rises-weaken low high [] le h = tt
Rises-weaken low high (x ∷ xs) le h = (omega (arith, h.0), h.1)

-- One that is among the seen and one that is not differ.
seen_apart : (a b : ℕ) (seen : List ℕ) → contains a seen ≡ true → contains b seen ≡ false → a ≢ b
seen_apart a b seen h k e = cc (rw e at h)

-- After an element that was seen, only larger ones follow.
Rises-after :
    (valid seen xs : List ℕ) (last : ℕ)
    → contains last seen ≡ true
    → Ascends last xs
    → Rises (suc last) (sanitize_from valid seen xs)
unfolding sanitize_from
Rises-after valid seen [] last h k = tt
Rises-after valid seen (x ∷ xs) last h k =
    elim (Bool-cases (not (contains x valid) || contains x seen)) [
      | inl skipped ↦
          rw (skipped, sanitize_from)
            (Rises-after valid seen xs last h (Ascends-weaken last x xs k.0 k.1))
      | inr taken ↦
          rw (taken, sanitize_from)
            (
              omega (arith, k.0, seen_apart last x seen h (ground arith)),
              Rises-after valid (x ∷ seen) xs x (ground (arith, (nat_beq_iff x x).1 refl)) k.1,
            )
    ]

Rises-first : (valid xs : List ℕ) (low : ℕ) → Ascends low xs → Rises low (sanitize_from valid [] xs)
unfolding sanitize_from
Rises-first valid [] low k = tt
Rises-first valid (x ∷ xs) low k = elim (Bool-cases (contains x valid)) [
  | inl known ↦
      rw (known, sanitize_from)
        (k.0, Rises-after valid (x ∷ []) xs x (ground (arith, (nat_beq_iff x x).1 refl)) k.1)
  | inr other ↦ rw (other, sanitize_from) (Rises-weaken low x _ k.0 (Rises-first valid xs x k.1))
]

-- The references are in strictly rising order, and they are exactly those that the item gave and that
-- the transcript has.
pub sanitize_sequences_lem :
    (source_sequences valid : List ℕ) (a : ℕ)
    → Rises 0 (sanitize_sequences source_sequences valid)
      × (contains a (sanitize_sequences source_sequences valid)
          ≡ (contains a source_sequences && contains a valid))
unfolding sanitize_sequences
sanitize_sequences_lem source_sequences valid a = (
  Rises-first valid (sorted source_sequences) 0 (Ascends-sorted source_sequences),
  rw
      (
        contains-sanitize_from a valid [] (sorted source_sequences),
        contains-sorted a source_sequences,
      )
      (ground arith),
)
