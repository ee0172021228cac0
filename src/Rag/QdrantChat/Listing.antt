-- ===== src/Rag/QdrantChat/Listing.antt =====
-- The listing of documents: newest first, each once, within the days asked for.
use be25_fin_thanos_meetbowl.Prelude.{
  ℕ, suc, get_elem?, ◌≤◌, ◌<◌, ◌≡◌, refl, inl, inr, Bool, true, false, ◌&&◌, Option, none, some,
  List, [], ◌∷◌, map, arith, leb, ltb→lt, leb→le, Bool-cases, Eq, nat_eq, list_eq, option_eq,
  pair_eq, contains, Distinct, elements, All, All-append,
}
use be25_fin_thanos_meetbowl.Text.{Text}
use be25_fin_thanos_meetbowl.Dedupe.{dedupe, Distinct-dedupe, All-dedupe}
use be25_fin_thanos_meetbowl.Sort.{sort_by, IsSorted, sort_by-IsSorted, All-sort_by}
use be25_fin_thanos_meetbowl.Schemas.{Moment}
use be25_fin_thanos_meetbowl.Schemas.Chat.{ChatSource}
use be25_fin_thanos_meetbowl.Rag.QdrantChat.{
  utc, payload_to_source, Server, Point, parse_iso, parse_day_bound, not_before, before_end, or_min,
  row_of, rows_of, recent_rows, recent_documents,
}

abbrev AtLeast : Option Moment → Moment → Type 0
AtLeast none m = Unit
AtLeast (some a) m = a ≤ m

abbrev Below : Option Moment → Moment → Type 0
Below none m = Unit
Below (some b) m = m < b

not_before-AtLeast :
    (after created : Option Moment)
    → not_before after created ≡ true
    → AtLeast after (or_min created)
unfolding not_before
not_before-AtLeast none created h = tt
not_before-AtLeast (some a) none h = cc
not_before-AtLeast (some a) (some c) h = leb→le _ _ h

before_end-Below :
    (before created : Option Moment)
    → before_end before created ≡ true
    → Below before (or_min created)
unfolding before_end
before_end-Below none created h = tt
before_end-Below (some b) none h = cc
before_end-Below (some b) (some c) h = ltb→lt _ _ h

-- What is sorted stays so when repetitions go.
IsSorted-dedupe {ℓ κ} :
    {A : Type ℓ} {K : Type κ} ⦃e : Eq K⦄ (leq : A → A → Bool) (key : A → K) (seen : List K)
    (xs : List A)
    → IsSorted leq xs
    → IsSorted leq (dedupe key seen xs)
unfolding dedupe
IsSorted-dedupe leq key seen [] h = tt
IsSorted-dedupe leq key seen (x ∷ xs) h = elim (Bool-cases (contains (key x) seen)) [
  | inl known ↦ rw (known, dedupe) (IsSorted-dedupe leq key seen xs h.1)
  | inr new ↦
      rw (new, dedupe)
        (
          All-dedupe key (λ y. leq x y ≡ true) (key x ∷ seen) xs h.0,
          IsSorted-dedupe leq key (key x ∷ seen) xs h.1,
        )
]

module _ (server : Server) where
  -- Between the bounds, as far as there are any.
  abbrev pub InRange : Option Moment → Option Moment → Moment × ChatSource → Type 0
  InRange after before row = AtLeast after row.0 × Below before row.0

  All-elements :
      (after before created : Option Moment) (source : Option ChatSource)
      → AtLeast after (or_min created)
      → Below before (or_min created)
      → All (InRange after before) (map (λ s. (or_min created, s)) (elements source))
  All-elements after before created none h k = tt
  All-elements after before created (some s) h k = ((h, k), tt)

  row_of-InRange :
      (after before : Option Moment) (point : Point)
      → All (InRange after before) (row_of server after before point)
  unfolding row_of
  row_of-InRange after before point =
      let created = parse_iso server point.payload.created_at utc in
      elim (Bool-cases (not_before after created && before_end before created)) [
        | inr outside ↦ rw outside tt
        | inl inside ↦ rw inside (
            All-elements after before created
              (payload_to_source server point.payload server.top_score)
              (not_before-AtLeast after created (ground arith))
              (before_end-Below before created (ground arith)))
      ]

  rows_of-InRange :
      (after before : Option Moment) (points : List Point)
      → All (InRange after before) (rows_of server after before points)
  unfolding rows_of
  rows_of-InRange after before [] = tt
  rows_of-InRange after before (point ∷ points) =
      All-append (InRange after before) (row_of server after before point)
        (rows_of server after before points) (row_of-InRange after before point)
        (rows_of-InRange after before points)

  -- A row shows one of the points: its document, at the moment that its `createdAt` says.
  abbrev pub Shows : List Point → Moment × ChatSource → Type 0
  Shows points row =
      (i : ℕ) × (point : Point) × (get_elem? points i ≡ some point)
      × (row.0 ≡ or_min (parse_iso server point.payload.created_at utc))
      × (payload_to_source server point.payload server.top_score ≡ some row.1)

  elements-Shows :
      (points : List Point) (i : ℕ) (point : Point) (source : Option ChatSource)
      → get_elem? points i ≡ some point
      → payload_to_source server point.payload server.top_score ≡ source
      → All
          (Shows points)
          (map (λ s. (or_min (parse_iso server point.payload.created_at utc), s)) (elements source))
  elements-Shows points i point none there e = tt
  elements-Shows points i point (some s) there e = ((i, point, there, refl, e), tt)

  row_of-Shows :
      (points : List Point) (i : ℕ) (after before : Option Moment) (point : Point)
      → get_elem? points i ≡ some point
      → All (Shows points) (row_of server after before point)
  unfolding row_of
  row_of-Shows points i after before point there =
      let created = parse_iso server point.payload.created_at utc in
      elim (Bool-cases (not_before after created && before_end before created)) [
        | inr outside ↦ rw outside tt
        | inl inside ↦ rw inside (
            elements-Shows points i point (payload_to_source server point.payload server.top_score)
              there refl)
      ]

  rows_of-Shows :
      (points : List Point) (after before : Option Moment) (rest : List Point)
      → ((i : ℕ) (point : Point)
          → get_elem? rest i ≡ some point
          → (j : ℕ) × (get_elem? points j ≡ some point))
      → All (Shows points) (rows_of server after before rest)
  unfolding rows_of
  rows_of-Shows points after before [] among = tt
  rows_of-Shows points after before (point ∷ rest) among =
      let (j, there) = among 0 point refl in
      All-append (Shows points) (row_of server after before point)
        (rows_of server after before rest) (row_of-Shows points j after before point there)
        (rows_of-Shows points after before rest (λ i p h. among (suc i) p h))

  -- The documents with their moments.
  pub record IsListing (points : List Point) (after before : Option Moment)
      (documents : List ChatSource) : Type 0 where
    pub rows : List (Moment × ChatSource)
    pub shown : documents ≡ map (λ row. row.1) rows
    pub dated : All (Shows points) rows
    pub newest_first : IsSorted (λ a b. leb b.0 a.0) rows
    pub distinct : Distinct (map (λ row. row.1.resource_id) rows)
    pub in_range : All (InRange after before) rows

  -- Whatever points are there: each document that is listed is that of a point, at the moment of the point's
  -- `createdAt`; by these moments the documents stand newest first and are between the bounds, where these
  -- are given and can be read; and none is listed twice.
  pub recent_documents-IsListing :
      (points : List Point) (created_after created_before : Option Text)
      → IsListing points
          (parse_day_bound server created_after false)
          (parse_day_bound server created_before true)
          (recent_documents server points created_after created_before)
  unfolding recent_documents recent_rows
  recent_documents-IsListing points created_after created_before =
      let after = parse_day_bound server created_after false in
      let before = parse_day_bound server created_before true in
      let sorted_rows = sort_by (λ a b. leb b.0 a.0) (rows_of server after before points) in
      record {
        rows = recent_rows server after before points;
        shown = refl;
        dated =
            All-dedupe (λ row. row.1.resource_id) (Shows points) [] sorted_rows
              (All-sort_by (λ a b. leb b.0 a.0) (Shows points) _
                (rows_of-Shows points after before points (λ i p h. (i, h))));
        newest_first =
            IsSorted-dedupe (λ a b. leb b.0 a.0) (λ row. row.1.resource_id) [] sorted_rows
              (sort_by-IsSorted (λ a b. leb b.0 a.0) (λ a b h. ground arith)
                (λ a b c h k. ground arith) (rows_of server after before points));
        distinct = Distinct-dedupe (λ row. row.1.resource_id) [] sorted_rows;
        in_range =
            All-dedupe (λ row. row.1.resource_id) (InRange after before) [] sorted_rows
              (All-sort_by (λ a b. leb b.0 a.0) (InRange after before) _
                (rows_of-InRange after before points));
      }
