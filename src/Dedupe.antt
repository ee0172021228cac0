-- ===== src/Dedupe.antt =====
-- The loop with a set `seen` that the program writes in many places: of several elements with one key
-- the first stays. `seen` starts with the keys that count as known.
use be25_fin_thanos_meetbowl.Prelude.{
  ◌≡◌, refl, inl, inr, true, false, not, ◌&&◌, List, [], ◌∷◌, map, arith, Bool-cases, Eq, ◌==◌,
  nat_eq, list_eq, option_eq, pair_eq, contains, Distinct, beq_refl, beq_sound, All,
}

module _ {ℓ κ} {A : Type ℓ} {K : Type κ} ⦃e : Eq K⦄ (key : A → K) where
  unfoldable pub dedupe : List K → List A → List A
  dedupe seen [] = []
  dedupe seen (x ∷ xs) = elim (contains (key x) seen) [
    | true ↦ dedupe seen xs
    | false ↦ x ∷ dedupe (key x ∷ seen) xs
  ]

  -- The keys of the result are those of the list that were not known.
  pub contains-dedupe :
      (k : K) (seen : List K) (xs : List A)
      → contains k (map key (dedupe seen xs)) ≡ (contains k (map key xs) && not (contains k seen))
  unfolding dedupe
  contains-dedupe k seen [] = refl
  contains-dedupe k seen (x ∷ xs) = elim (Bool-cases (contains (key x) seen)) [
    | inl known ↦ elim (Bool-cases (key x == k)) [
      | inl same ↦
          let e : key x ≡ k = beq_sound (key x) k same in
          let found : contains k seen ≡ true = rw (← e) known in
          rw (known, dedupe) (rw (contains-dedupe k seen xs, found) (ground arith))
      | inr other ↦ rw (known, dedupe) (rw (contains-dedupe k seen xs, other) refl)
    ]
    | inr new ↦ elim (Bool-cases (key x == k)) [
      | inl same ↦
          let e : key x ≡ k = beq_sound (key x) k same in
          let absent : contains k seen ≡ false = rw (← e) new in
          rw (new, dedupe) (rw (same, absent) refl)
      | inr other ↦ rw (new, dedupe) (rw (contains-dedupe k (key x ∷ seen) xs, other) refl)
    ]
  ]

  -- No key twice.
  pub Distinct-dedupe : (seen : List K) (xs : List A) → Distinct (map key (dedupe seen xs))
  unfolding dedupe
  Distinct-dedupe seen [] = tt
  Distinct-dedupe seen (x ∷ xs) = elim (Bool-cases (contains (key x) seen)) [
    | inl known ↦ rw (known, dedupe) (Distinct-dedupe seen xs)
    | inr new ↦
        rw (new, dedupe)
          (
            ground (arith, contains-dedupe (key x) (key x ∷ seen) xs, beq_refl (key x)),
            Distinct-dedupe (key x ∷ seen) xs,
          )
  ]

  -- What holds of every element of the list holds of those that stay.
  pub All-dedupe {ι} :
      (P : A → Type ι) (seen : List K) (xs : List A) → All P xs → All P (dedupe seen xs)
  unfolding dedupe
  All-dedupe P seen [] h = tt
  All-dedupe P seen (x ∷ xs) h = elim (Bool-cases (contains (key x) seen)) [
    | inl known ↦ rw (known, dedupe) (All-dedupe P seen xs h.1)
    | inr new ↦ rw (new, dedupe) (h.0, All-dedupe P (key x ∷ seen) xs h.1)
  ]
