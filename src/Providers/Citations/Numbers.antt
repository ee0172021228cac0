-- ===== src/Providers/Citations/Numbers.antt =====
-- The numbers of citations: what a model reads under a number is what the answer cites by it.
use be25_fin_thanos_meetbowl.Prelude.{
  ℕ, zero, suc, ◌+◌, ◌<◌, ◌≡◌, refl, ap, ◌∙◌, inl, inr, true, false, ◌||◌, some, List, [], ◌∷◌,
  ◌++◌, arith, nat_beq, some_eq, or-true, Bool-cases, ◌==◌, nat_eq, list_eq, option_eq, pair_eq,
  contains, Distinct, beq_refl, beq_sound, beq_comm, contains-append, length, get_elem?, take,
}
use be25_fin_thanos_meetbowl.Prelude.Dict.{Dict, lookup, insert, lookup-insert}
use be25_fin_thanos_meetbowl.Dedupe.{dedupe, Distinct-dedupe, contains-dedupe}
use be25_fin_thanos_meetbowl.Schemas.{Uuid}
use be25_fin_thanos_meetbowl.Schemas.Chat.{ChatSource}
use be25_fin_thanos_meetbowl.Rag.Merging.Known.{ids, ids-append}
use be25_fin_thanos_meetbowl.Providers.Citations.{accumulate_sources, index_by_id}

get-append {ℓ} :
    {A : Type ℓ} (xs ys : List A) (i : ℕ) {a : A}
    → get_elem? xs i ≡ some a
    → get_elem? (xs ++ ys) i ≡ some a
get-append [] ys i h = cc
get-append (x ∷ xs) ys zero h = h
get-append (x ∷ xs) ys (suc i) h = get-append xs ys i h

Distinct-append :
    (xs ys : List Uuid)
    → Distinct xs
    → Distinct ys
    → ((a : Uuid) → contains a ys ≡ true → contains a xs ≡ false)
    → Distinct (xs ++ ys)
Distinct-append [] ys h k apart = k
Distinct-append (x ∷ xs) ys h k apart =
    let fresh : contains x (xs ++ ys) ≡ false = elim (Bool-cases (contains x ys)) [
      | inl there ↦ cc (rw (beq_refl x) at (apart x there))
      | inr absent ↦ rw (contains-append x xs ys, h.0, absent) refl
    ] in
    (fresh, Distinct-append xs ys h.1 k (λ a there. ground (arith, apart a there)))

take-length {ℓ} : {A : Type ℓ} (xs ys : List A) → take (length xs) (xs ++ ys) ≡ xs
take-length [] ys = refl
take-length (x ∷ xs) ys = ap (λ zs. x ∷ zs) (take-length xs ys)

apart :
    (xs : List ChatSource) (a b : Uuid)
    → contains a (ids xs) ≡ false
    → contains b (ids xs) ≡ true
    → (a == b) ≡ false
apart xs a b h k = elim (Bool-cases (a == b)) [
  | inl same ↦ cc (rw (← beq_sound a b same, h) at k)
  | inr other ↦ other
]

-- Documents stay at their places in the list, none is there twice, and exactly those of both lists are
-- there.
pub accumulate-Distinct :
    (accumulated new_sources : List ChatSource) (a : Uuid)
    → Distinct (ids accumulated)
    → Distinct (ids (accumulate_sources accumulated new_sources))
      × (take (length accumulated) (accumulate_sources accumulated new_sources) ≡ accumulated)
      × (contains a (ids (accumulate_sources accumulated new_sources))
          ≡ (contains a (ids accumulated) || contains a (ids new_sources)))
unfolding accumulate_sources
accumulate-Distinct acc new a h =
    let key : ChatSource → Uuid = λ source. source.resource_id in
    let fresh = dedupe key (ids acc) new in
    (
      rw (ids-append acc fresh) (
          Distinct-append (ids acc) (ids fresh) h (Distinct-dedupe key (ids acc) new)
            (λ b there. ground (arith, contains-dedupe key b (ids acc) new, there))),
      take-length acc fresh,
      rw
          (
            ids-append acc fresh,
            contains-append a (ids acc) (ids fresh),
            contains-dedupe key a (ids acc) new,
          )
          (ground arith),
    )

lookup-index-absent :
    (a : Uuid) (number : ℕ) (sources : List ChatSource) (index : Dict Uuid ℕ)
    → contains a (ids sources) ≡ false
    → lookup a (index_by_id number sources index) ≡ lookup a index
unfolding index_by_id
lookup-index-absent a number [] index h = refl
lookup-index-absent a number (x ∷ xs) index h = elim (Bool-cases (x.resource_id == a)) [
  | inl same ↦ cc (rw same at h)
  | inr other ↦
      rw
        (
          lookup-index-absent a (suc number) xs (insert x.resource_id number index) (rw other at h),
          lookup-insert x.resource_id a number index,
          other,
        )
        refl
]

-- The number of a document is its place, counted on from the first number.
pub lookup-index :
    (number : ℕ) (sources : List ChatSource) (index : Dict Uuid ℕ) (i : ℕ) (source : ChatSource)
    → Distinct (ids sources)
    → get_elem? sources i ≡ some source
    → lookup source.resource_id (index_by_id number sources index) ≡ some (number + i)
unfolding index_by_id
lookup-index number [] index i source h e = cc
lookup-index number (x ∷ xs) index zero source h e =
    rw
      (
        ← some_eq e,
        lookup-index-absent x.resource_id (suc number) xs (insert x.resource_id number index) h.0,
        lookup-insert x.resource_id x.resource_id number index,
        beq_refl x.resource_id,
      )
      (ap some (omega arith))
lookup-index number (x ∷ xs) index (suc i) source h e =
    lookup-index (suc number) xs (insert x.resource_id number index) i source h.1 e
    ∙ ap some (omega arith)

pub get-contains :
    (sources : List ChatSource) (i : ℕ) (source : ChatSource)
    → get_elem? sources i ≡ some source
    → contains source.resource_id (ids sources) ≡ true
get-contains [] i source e = cc
get-contains (x ∷ xs) zero source e = rw (← some_eq e, beq_refl x.resource_id) refl
get-contains (x ∷ xs) (suc i) source e = rw (get-contains xs i source e) (or-true _)

pub contains-get :
    (a : Uuid) (sources : List ChatSource)
    → contains a (ids sources) ≡ true
    → (i : ℕ) × (source : ChatSource) × (get_elem? sources i ≡ some source)
      × (source.resource_id ≡ a)
contains-get a [] h = cc
contains-get a (x ∷ xs) h = elim (Bool-cases (x.resource_id == a)) [
  | inl same ↦ (0, x, refl, beq_sound x.resource_id a same)
  | inr other ↦
      let (i, source, there, named) = contains-get a xs (rw other at h) in
      (suc i, source, there, named)
]

nat_beq-zero-suc : (j : ℕ) → nat_beq 0 (suc j) ≡ false
nat_beq-zero-suc j = ground arith

nat_beq-suc-zero : (j : ℕ) → nat_beq (suc j) 0 ≡ false
nat_beq-suc-zero j = ground arith

pub nat_beq-suc-suc : (i j : ℕ) → nat_beq i j ≡ nat_beq (suc i) (suc j)
nat_beq-suc-suc i j = ground arith

-- Two places have different documents.
pub get-Distinct :
    (sources : List ChatSource) (i j : ℕ) (a b : ChatSource)
    → Distinct (ids sources)
    → get_elem? sources i ≡ some a
    → get_elem? sources j ≡ some b
    → (a.resource_id == b.resource_id) ≡ nat_beq i j
get-Distinct [] i j a b h e f = cc
get-Distinct (x ∷ xs) zero zero a b h e f = rw (← some_eq e, ← some_eq f) (beq_refl x.resource_id)
get-Distinct (x ∷ xs) zero (suc j) a b h e f =
    rw (← some_eq e, nat_beq-zero-suc)
      (apart xs x.resource_id b.resource_id h.0 (get-contains xs j b f))
get-Distinct (x ∷ xs) (suc i) zero a b h e f =
    rw (← some_eq f, beq_comm a.resource_id x.resource_id, nat_beq-suc-zero)
      (apart xs x.resource_id a.resource_id h.0 (get-contains xs i a e))
get-Distinct (x ∷ xs) (suc i) (suc j) a b h e f =
    get-Distinct xs i j a b h.1 e f ∙ nat_beq-suc-suc i j

pub get-bound :
    (sources : List ChatSource) (i : ℕ) {source : ChatSource}
    → get_elem? sources i ≡ some source
    → i < length sources
get-bound [] i e = cc
get-bound (x ∷ xs) zero e = omega arith
get-bound (x ∷ xs) (suc i) e = omega (arith, get-bound xs i e)

pub get-some :
    (sources : List ChatSource) (i : ℕ)
    → i < length sources
    → (source : ChatSource) × (get_elem? sources i ≡ some source)
get-some [] i h = ground arith
get-some (x ∷ xs) zero h = (x, refl)
get-some (x ∷ xs) (suc i) h = get-some xs i (omega arith)
