-- ===== src/Sort.antt =====
-- `sorted`: stable, by an order that is a Boolean test.
use be25_fin_thanos_meetbowl.Prelude.{
  suc, ◌≡◌, refl, inl, inr, Bool, true, false, ◌&&◌, ◌||◌, List, [], ◌∷◌, arith, ltb, nat_beq,
  if◌then◌else◌, Bool-cases, nat_eq, list_eq, option_eq, pair_eq, length, all, All,
}
use be25_fin_thanos_meetbowl.Text.{Text}

-- Texts in the order of their code points.
unfoldable pub text_leb : Text → Text → Bool
text_leb [] t = true
text_leb (x ∷ xs) [] = false
text_leb (x ∷ xs) (y ∷ ys) = ltb x y || (nat_beq x y && text_leb xs ys)

module _ {ℓ} {A : Type ℓ} (leq : A → A → Bool) where
  -- Before the first element that may follow.
  unfoldable pub insert_by : A → List A → List A
  insert_by a [] = a ∷ []
  insert_by a (x ∷ xs) = let rest = insert_by a xs in if leq a x then a ∷ x ∷ xs else x ∷ rest

  unfoldable pub sort_by : List A → List A
  unfolding insert_by
  sort_by [] = []
  sort_by (x ∷ xs) = insert_by x (sort_by xs)

  all-insert_by : (p : A → Bool) (a : A) (xs : List A) → all p (insert_by a xs) ≡ (p a && all p xs)
  unfolding insert_by
  all-insert_by p a [] = refl
  all-insert_by p a (x ∷ xs) = ground (arith, all-insert_by p a xs)

  pub all-sort_by : (p : A → Bool) (xs : List A) → all p (sort_by xs) ≡ all p xs
  unfolding sort_by
  all-sort_by p [] = refl
  all-sort_by p (x ∷ xs) = rw (all-insert_by p x (sort_by xs), all-sort_by p xs) refl

  length-insert_by : (a : A) (xs : List A) → length (insert_by a xs) ≡ suc (length xs)
  unfolding insert_by
  length-insert_by a [] = refl
  length-insert_by a (x ∷ xs) = ground (arith, length-insert_by a xs)

  pub length-sort_by : (xs : List A) → length (sort_by xs) ≡ length xs
  unfolding sort_by
  length-sort_by [] = refl
  length-sort_by (x ∷ xs) = rw (length-insert_by x (sort_by xs), length-sort_by xs) refl

  -- No element may precede one before it.
  abbrev pub IsSorted : List A → Type ℓ
  IsSorted [] = Unit
  IsSorted (x ∷ xs) = All (λ y. leq x y ≡ true) xs × IsSorted xs

  All-insert_by {κ} :
      (P : A → Type κ) (a : A) (xs : List A) → P a → All P xs → All P (insert_by a xs)
  unfolding insert_by
  All-insert_by P a [] h k = (h, tt)
  All-insert_by P a (x ∷ xs) h k =
      elim (leq a x) as (λ b. All P (if b then a ∷ x ∷ xs else x ∷ insert_by a xs)) [
        | true ↦ (h, k)
        | false ↦ (k.0, All-insert_by P a xs h k.1)
      ]

  pub All-sort_by {κ} : (P : A → Type κ) (xs : List A) → All P xs → All P (sort_by xs)
  unfolding sort_by
  All-sort_by P [] h = tt
  All-sort_by P (x ∷ xs) h = All-insert_by P x (sort_by xs) h.0 (All-sort_by P xs h.1)

  module _ (total : (a b : A) → leq a b ≡ false → leq b a ≡ true)
      (trans : (a b c : A) → leq a b ≡ true → leq b c ≡ true → leq a c ≡ true) where
    All-leq :
        (a x : A) (xs : List A)
        → leq a x ≡ true
        → All (λ y. leq x y ≡ true) xs
        → All (λ y. leq a y ≡ true) xs
    All-leq a x [] h k = tt
    All-leq a x (y ∷ ys) h k = (trans a x y h k.0, All-leq a x ys h k.1)

    insert_by-IsSorted : (a : A) (xs : List A) → IsSorted xs → IsSorted (insert_by a xs)
    unfolding insert_by
    insert_by-IsSorted a [] h = (tt, tt)
    insert_by-IsSorted a (x ∷ xs) h = elim (Bool-cases (leq a x)) [
      | inl le ↦ rw (le, insert_by) ((le, All-leq a x xs le h.0), h)
      | inr gt ↦
          rw (gt, insert_by)
            (
              All-insert_by (λ y. leq x y ≡ true) a xs (total a x gt) h.0,
              insert_by-IsSorted a xs h.1,
            )
    ]

    pub sort_by-IsSorted : (xs : List A) → IsSorted (sort_by xs)
    unfolding sort_by
    sort_by-IsSorted [] = tt
    sort_by-IsSorted (x ∷ xs) = insert_by-IsSorted x (sort_by xs) (sort_by-IsSorted xs)
