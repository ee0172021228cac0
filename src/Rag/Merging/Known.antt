-- ===== src/Rag/Merging/Known.antt =====
-- The loops of app/providers/vector_score_reranker.py and app/rag/multi_query_search.py never meet a
-- document twice, an index out of range, or two documents to merge.
use be25_fin_thanos_meetbowl.Prelude.{
  ℕ, zero, suc, ◌≤◌, max, ◌≡◌, refl, sym, ap, ◌∙◌, inl, inr, Bool, true, false, Option, none, some,
  List, [], ◌∷◌, ◌++◌, map, arith, if◌then◌else◌, some_eq, Bool-cases, Option-cases, ◌==◌, nat_eq,
  list_eq, option_eq, pair_eq, contains, Distinct, beq_sound, beq_comm, Distinct-snoc, length, All,
  length-append, All-append, length-map,
}
use be25_fin_thanos_meetbowl.Prelude.Dict.{lookup, insert, lookup-insert}
use be25_fin_thanos_meetbowl.Errors.{returned}
use be25_fin_thanos_meetbowl.Schemas.{Uuid}
use be25_fin_thanos_meetbowl.Schemas.Chat.{ChatSource}
use be25_fin_thanos_meetbowl.Rag.Merging.{
  sections_of, merged_snippet, merge_chat_sources, merge_at, Collected, nothing_collected,
  absorb_at, absorb,
}

abbrev pub ids : List ChatSource → List Uuid
ids sources = map (λ source. source.resource_id) sources

abbrev after : Option ℕ → Option ℕ
after none = none
after (some i) = some (suc i)

abbrev pub position : Uuid → List Uuid → Option ℕ
position a [] = none
position a (x ∷ xs) = if x == a then some 0 else after (position a xs)

position-none : (a : Uuid) (xs : List Uuid) → position a xs ≡ none → contains a xs ≡ false
position-none a [] h = refl
position-none a (x ∷ xs) h = elim (Bool-cases (x == a)) [
  | inl same ↦ cc (rw same at h)
  | inr other ↦ elim (Option-cases (position a xs)) [
    | inl absent ↦ rw (other, position-none a xs absent) refl
    | inr (i, there) ↦ cc (rw (other, there) at h)
  ]
]

position-snoc :
    (a x : Uuid) (xs : List Uuid)
    → contains x xs ≡ false
    → position a (xs ++ x ∷ []) ≡ (if x == a then some (length xs) else position a xs)
position-snoc a x [] h = refl
position-snoc a x (y ∷ ys) h = elim (Bool-cases (y == x)) [
  | inl same ↦ cc (rw same at h)
  | inr other ↦ elim (Bool-cases (y == a)) [
    | inl here ↦
        let e : (x == a) ≡ false = rw (← beq_sound y a here, beq_comm x y) other in
        rw (here, e) refl
    | inr there ↦
        rw (there, position-snoc a x ys (rw other at h))
          (elim (x == a)
            as (λ b.
              after (if b then some (length ys) else position a ys)
              ≡ (if b then some (suc (length ys)) else after (position a ys))) [
                | true ↦ refl
                | false ↦ refl
              ])
  ]
]

pub ids-append : (xs ys : List ChatSource) → ids (xs ++ ys) ≡ ids xs ++ ids ys
ids-append [] ys = refl
ids-append (x ∷ xs) ys = ap (λ zs. x.resource_id ∷ zs) (ids-append xs ys)

merge-Returns :
    (a b : ChatSource)
    → (a.resource_id == b.resource_id) ≡ true
    → (m : ChatSource) × (merge_chat_sources a b ≡ returned m) × (m.resource_id ≡ a.resource_id)
unfolding merge_chat_sources
merge-Returns a b same = (
  record a {
    snippet = merged_snippet (sections_of a.snippet b.snippet);
    score = max a.score b.score;
  },
  rw same refl,
  refl,
)

module _ {ℓ} (P : ChatSource → Type ℓ)
    (closed : (a b m : ChatSource) → P a → P b → merge_chat_sources a b ≡ returned m → P m) where
  -- The index says where each document is, no document is there twice, and every source has the property.
  pub record Holds (state : Collected) : Type ℓ where
    pub tracks : (a : Uuid) → lookup a state.index ≡ position a (ids state.sources)
    pub distinct : Distinct (ids state.sources)
    pub each : All P state.sources

  pub nothing-Holds : Holds nothing_collected
  unfolding lookup
  nothing-Holds = record { tracks = λ a. refl; distinct = tt; each = tt }

  merge_at-Returns :
      (xs : List ChatSource) (i : ℕ) (source : ChatSource)
      → position source.resource_id (ids xs) ≡ some i
      → All P xs
      → P source
      → (ys : List ChatSource) × (merge_at xs i source ≡ returned ys) × (ids ys ≡ ids xs) × All P ys
  unfolding merge_at
  merge_at-Returns [] i source found h k = cc
  merge_at-Returns (x ∷ xs) zero source found h k =
      elim (Bool-cases (x.resource_id == source.resource_id)) [
        | inl same ↦
            let (m, returns, kept) = merge-Returns x source same in
            (m ∷ xs, rw returns refl, rw kept refl, (closed x source m h.0 k returns, h.1))
        | inr other ↦ elim (Option-cases (position source.resource_id (ids xs))) [
          | inl absent ↦ cc (rw (other, absent) at found)
          | inr (j, there) ↦ cc (rw (other, there) at found)
        ]
      ]
  merge_at-Returns (x ∷ xs) (suc i) source found h k =
      elim (Bool-cases (x.resource_id == source.resource_id)) [
        | inl same ↦ cc (rw same at found)
        | inr other ↦ elim (Option-cases (position source.resource_id (ids xs))) [
          | inl absent ↦ cc (rw (other, absent) at found)
          | inr (j, there) ↦
              let e : j ≡ i = omega (arith, some_eq (rw (other, there) at found)) in
              let (ys, returns, kept, holds) =
                merge_at-Returns xs i source (rw (← e) there) h.1 k in
              (x ∷ ys, rw returns refl, rw kept refl, (h.0, holds))
        ]
      ]

  append-Holds :
      (state : Collected) (source : ChatSource)
      → Holds state
      → P source
      → lookup source.resource_id state.index ≡ none
      → Holds (record {
        sources = state.sources ++ source ∷ [];
        index = insert source.resource_id (length state.sources) state.index;
      })
  append-Holds state source h k new =
      let absent =
        position-none source.resource_id (ids state.sources)
          (sym (h.tracks source.resource_id) ∙ new) in
      record {
        tracks = λ a.
            rw
              (
                lookup-insert source.resource_id a (length state.sources) state.index,
                ids-append state.sources (source ∷ []),
                position-snoc a source.resource_id (ids state.sources) absent,
                h.tracks a,
                length-map state.sources (λ s. s.resource_id),
              )
              refl;
        distinct =
            rw (ids-append state.sources (source ∷ []))
              (Distinct-snoc (ids state.sources) source.resource_id h.distinct absent);
        each = All-append P state.sources (source ∷ []) h.each (k, tt);
      }

  -- Whatever is absorbed: no error, and one source more at most, none if there is no room.
  pub absorb-Holds :
      (room : Bool) (state : Collected) (source : ChatSource)
      → Holds state
      → P source
      → (state' : Collected) × (absorb room state source ≡ returned state')
        × Holds state'
        × (length state'.sources
            ≤ (if room then suc (length state.sources) else length state.sources))
  unfolding absorb absorb_at
  absorb-Holds room state source h k = elim (Option-cases (lookup source.resource_id state.index)) [
    | inl new ↦
        elim room
          as (λ b.
            (state' : Collected) × (absorb b state source ≡ returned state')
            × Holds state'
            × (length state'.sources
                ≤ (if b then suc (length state.sources) else length state.sources))) [
                  | true ↦ (
                    record {
                      sources = state.sources ++ source ∷ [];
                      index = insert source.resource_id (length state.sources) state.index;
                    },
                    rw new refl,
                    append-Holds state source h k new,
                    omega (arith, length-append state.sources (source ∷ [])),
                  )
                  | false ↦ (state, rw new refl, h, omega arith)
                ]
    | inr (i, known) ↦
        let (ys, returns, same, each) =
          merge_at-Returns state.sources i source (sym (h.tracks source.resource_id) ∙ known) h.each
            k in
        let count : length ys ≡ length state.sources =
          sym (length-map ys (λ s. s.resource_id))
          ∙ (ap length same ∙ length-map state.sources (λ s. s.resource_id)) in
        (
          record state { sources = ys },
          rw (known, returns) refl,
          record { tracks = λ a. rw same (h.tracks a); distinct = rw same h.distinct; each = each },
          rw count
              (elim room
                as (λ b.
                  length state.sources
                  ≤ (if b then suc (length state.sources) else length state.sources)) [
                    | true ↦ omega arith
                    | false ↦ omega arith
                  ]),
        )
  ]
