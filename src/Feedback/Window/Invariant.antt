-- ===== src/Feedback/Window/Invariant.antt =====
-- The window stays bounded, ordered, and in step with its set of ids.
use be25_fin_thanos_meetbowl.Prelude.{
  ℕ, suc, ◌+◌, ◌*◌, ◌≤◌, ◌≡◌, refl, inl, inr, true, false, not, ◌&&◌, ◌||◌, Option, none, some,
  List, [], ◌∷◌, map, arith, ltb, nat_beq, nat_beq_iff, Bool-cases, nat_eq, list_eq, option_eq,
  pair_eq, contains, Distinct, length, All,
}
use be25_fin_thanos_meetbowl.Schemas.{Uuid}
use be25_fin_thanos_meetbowl.Schemas.Feedback.{FeedbackTranscriptSegment}
use be25_fin_thanos_meetbowl.Feedback.Window.{
  MeetingWindowState, discard, add, trim, trim_expired_segments,
}

abbrev pub ids_of : List FeedbackTranscriptSegment → List Uuid
ids_of = map (λ segment. segment.segment_id)

-- The sequences rise strictly and stay below a bound.
abbrev pub Rises : ℕ → List FeedbackTranscriptSegment → Type 0
Rises low [] = Unit
Rises low (segment ∷ rest) = (low ≤ segment.sequence) × Rises (suc segment.sequence) rest

abbrev pub Below : Option ℕ → List FeedbackTranscriptSegment → Type 0
Below none segments = segments ≡ []
Below (some last) segments = All (λ segment. segment.sequence ≤ last) segments

pub record IsWindow (max_segments : ℕ) (state : MeetingWindowState) : Type 0 where
  pub bounded : length state.segments ≤ max_segments
  pub rises : Rises 0 state.segments
  pub below : Below state.last_sequence state.segments
  pub distinct : Distinct (ids_of state.segments)
  pub same_ids : (x : Uuid) → contains x state.segment_ids ≡ contains x (ids_of state.segments)

pub contains-discard :
    (a x : Uuid) (xs : List Uuid) → contains x (discard a xs) ≡ (contains x xs && not (nat_beq a x))
unfolding discard
contains-discard a x [] = refl
contains-discard a x (y ∷ ys) = ground (arith, contains-discard a x ys)

pub contains-add :
    (a x : Uuid) (xs : List Uuid) → contains x (add a xs) ≡ (nat_beq a x || contains x xs)
unfolding add
contains-add a x xs = elim (Bool-cases (contains a xs)) [
  | inl p ↦ rw p (ground (arith, contains-same a x xs))
  | inr p ↦ rw p refl
]
  where
    contains-same :
        (a x : Uuid) (xs : List Uuid)
        → contains a xs ≡ true
        → nat_beq a x ≡ true
        → contains x xs ≡ true
    contains-same a x xs h k = rw (← (nat_beq_iff a x).0 k) h

-- The ids without the first segment's are those of the rest.
pub same_ids-discard :
    (a : Uuid) (xs ids : List Uuid)
    → contains a xs ≡ false
    → ((x : Uuid) → contains x ids ≡ contains x (a ∷ xs))
    → (x : Uuid) → contains x (discard a ids) ≡ contains x xs
same_ids-discard a xs ids new h x = elim (Bool-cases (nat_beq a x)) [
  | inl same ↦
      let e : a ≡ x = (nat_beq_iff a x).0 same in
      rw contains-discard (rw same (ground (arith, rw e at new)))
  | inr other ↦ rw contains-discard (ground (arith, h x))
]

trim-same_ids :
    (latest window : ℕ) (segments : List FeedbackTranscriptSegment) (ids : List Uuid)
    → Distinct (ids_of segments)
    → ((x : Uuid) → contains x ids ≡ contains x (ids_of segments))
    → (x : Uuid)
    → contains x (trim latest window segments ids).1
      ≡ contains x (ids_of (trim latest window segments ids).0)
unfolding trim
trim-same_ids latest window [] ids d h x = h x
trim-same_ids latest window (segment ∷ rest) ids d h x =
    elim (Bool-cases (ltb (segment.ended_at_ms + window) latest)) [
      | inl old ↦ rw old (
          trim-same_ids latest window rest (discard segment.segment_id ids) d.1
            (same_ids-discard segment.segment_id (ids_of rest) ids d.0 h) x)
      | inr young ↦ rw young (h x)
    ]

-- What holds of every suffix holds of the trimmed window.
module _ {ℓ} (P : List FeedbackTranscriptSegment → Type ℓ)
    (tail : (segment : FeedbackTranscriptSegment) (rest : List FeedbackTranscriptSegment)
      → P (segment ∷ rest)
      → P rest) where
  trim-suffix :
      (latest window : ℕ) (segments : List FeedbackTranscriptSegment) (ids : List Uuid)
      → P segments
      → P (trim latest window segments ids).0
  unfolding trim
  trim-suffix latest window [] ids h = h
  trim-suffix latest window (segment ∷ rest) ids h =
      elim (Bool-cases (ltb (segment.ended_at_ms + window) latest)) [
        | inl old ↦
            rw old (
              trim-suffix latest window rest (discard segment.segment_id ids) (tail segment rest h))
        | inr young ↦ rw young h
      ]

pub Rises-weaken :
    (low high : ℕ) (segments : List FeedbackTranscriptSegment)
    → low ≤ high
    → Rises high segments
    → Rises low segments
Rises-weaken low high [] le h = tt
Rises-weaken low high (segment ∷ rest) le h = (omega (arith, h.0), h.1)

pub Below-tail :
    (last : Option ℕ) (segment : FeedbackTranscriptSegment) (rest : List FeedbackTranscriptSegment)
    → Below last (segment ∷ rest)
    → Below last rest
Below-tail none segment rest h = cc
Below-tail (some last) segment rest h = h.1

pub trim_expired_segments-IsWindow :
    (max_segments latest seconds : ℕ) (state : MeetingWindowState)
    → IsWindow max_segments state
    → IsWindow max_segments (trim_expired_segments state latest seconds)
unfolding trim_expired_segments
trim_expired_segments-IsWindow max_segments latest seconds state w = record {
  bounded =
      trim-suffix (λ segments. length segments ≤ max_segments) (λ segment rest h. omega arith)
        latest (seconds * 1000) state.segments state.segment_ids w.bounded;
  rises =
      trim-suffix (Rises 0)
        (λ segment rest h. Rises-weaken 0 (suc segment.sequence) rest (omega arith) h.1) latest
        (seconds * 1000) state.segments state.segment_ids w.rises;
  below =
      trim-suffix (Below state.last_sequence) (Below-tail state.last_sequence) latest
        (seconds * 1000) state.segments state.segment_ids w.below;
  distinct =
      trim-suffix (λ segments. Distinct (ids_of segments)) (λ segment rest h. h.1) latest
        (seconds * 1000) state.segments state.segment_ids w.distinct;
  same_ids =
      trim-same_ids latest (seconds * 1000) state.segments state.segment_ids w.distinct w.same_ids;
}
