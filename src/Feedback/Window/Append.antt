-- ===== src/Feedback/Window/Append.antt =====
-- A new segment at the end of the window.
use be25_fin_thanos_meetbowl.Prelude.{
  ℕ, suc, ◌-◌, ◌≤◌, ◌<◌, ◌≡◌, refl, sym, ap, ◌∙◌, inl, inr, false, Option, none, some, List, [],
  ◌∷◌, ◌++◌, arith, leb, Bool-cases, nat_eq, list_eq, option_eq, pair_eq, contains, Distinct,
  contains-append, Distinct-snoc, length, All, length-append,
}
use be25_fin_thanos_meetbowl.Schemas.{Uuid}
use be25_fin_thanos_meetbowl.Schemas.Feedback.{FeedbackTranscriptSegment}
use be25_fin_thanos_meetbowl.Feedback.Window.{
  MeetingWindowState, discard, push, append_to, evict_then_append, append_segment,
}
use be25_fin_thanos_meetbowl.Feedback.Window.Invariant.{
  ids_of, Rises, Below, IsWindow, contains-add, same_ids-discard, Rises-weaken,
}

push_fits :
    (max_segments : ℕ) (segments : List FeedbackTranscriptSegment)
    (segment : FeedbackTranscriptSegment)
    → length segments < max_segments
    → push max_segments segments segment ≡ segments ++ segment ∷ []
unfolding push
push_fits max_segments segments segment h =
    let e : length (segments ++ segment ∷ []) - max_segments ≡ 0 =
      omega (arith, length-append segments (segment ∷ [])) in
    rw e refl

ids_of-snoc :
    (segments : List FeedbackTranscriptSegment) (segment : FeedbackTranscriptSegment)
    → ids_of (segments ++ segment ∷ []) ≡ ids_of segments ++ segment.segment_id ∷ []
ids_of-snoc [] segment = refl
ids_of-snoc (s ∷ segments) segment = ap (◌∷◌ s.segment_id) (ids_of-snoc segments segment)

-- Every segment of the window comes before the new one.
abbrev IsNewer : FeedbackTranscriptSegment → List FeedbackTranscriptSegment → Type 0
IsNewer segment segments = All (λ s. s.sequence < segment.sequence) segments

Rises-snoc :
    (low : ℕ) (segments : List FeedbackTranscriptSegment) (segment : FeedbackTranscriptSegment)
    → Rises low segments
    → IsNewer segment segments
    → low ≤ segment.sequence
    → Rises low (segments ++ segment ∷ [])
Rises-snoc low [] segment h k l = (l, tt)
Rises-snoc low (s ∷ segments) segment h k l =
    (h.0, Rises-snoc (suc s.sequence) segments segment h.1 k.1 k.0)

All-le-snoc :
    (segments : List FeedbackTranscriptSegment) (segment : FeedbackTranscriptSegment)
    → IsNewer segment segments
    → All (λ s. s.sequence ≤ segment.sequence) (segments ++ segment ∷ [])
All-le-snoc [] segment h = (omega arith, tt)
All-le-snoc (s ∷ segments) segment h = (omega (arith, h.0), All-le-snoc segments segment h.1)

-- The window that the consumer stores after an append: with the new last sequence.
abbrev pub advanced : FeedbackTranscriptSegment → MeetingWindowState → MeetingWindowState
advanced segment state = record state { last_sequence = some segment.sequence }

append_to-IsWindow :
    (max_segments : ℕ) (segment : FeedbackTranscriptSegment)
    (segments : List FeedbackTranscriptSegment) (ids : List Uuid) (state : MeetingWindowState)
    → length segments < max_segments
    → Rises 0 segments
    → IsNewer segment segments
    → Distinct (ids_of segments)
    → contains segment.segment_id (ids_of segments) ≡ false
    → ((x : Uuid) → contains x ids ≡ contains x (ids_of segments))
    → IsWindow max_segments (advanced segment (append_to max_segments segment segments ids state))
unfolding append_to
append_to-IsWindow max_segments segment segments ids state room rises newer distinct new same =
    let fits = push_fits max_segments segments segment room in
    record {
      bounded = rw fits (omega (arith, length-append segments (segment ∷ [])));
      rises = rw fits (Rises-snoc 0 segments segment rises newer (omega arith));
      below = rw fits (All-le-snoc segments segment newer);
      distinct =
          rw (fits, ids_of-snoc segments segment)
            (Distinct-snoc (ids_of segments) segment.segment_id distinct new);
      same_ids = λ x.
          rw (fits, ids_of-snoc segments segment, contains-add, contains-append, same)
            (ground arith);
    }

-- `payload.sequence <= state.last_sequence` fails
abbrev pub IsFresh : FeedbackTranscriptSegment → Option ℕ → Type 0
IsFresh segment none = Unit
IsFresh segment (some last) = last < segment.sequence

IsFresh-IsNewer :
    (segment : FeedbackTranscriptSegment) (last : Option ℕ)
    (segments : List FeedbackTranscriptSegment)
    → Below last segments
    → IsFresh segment last
    → IsNewer segment segments
IsFresh-IsNewer segment none [] h f = tt
IsFresh-IsNewer segment none (s ∷ segments) h f = cc
IsFresh-IsNewer segment (some last) [] h f = tt
IsFresh-IsNewer segment (some last) (s ∷ segments) h f =
    (omega (arith, h.0), IsFresh-IsNewer segment (some last) segments h.1 f)

evict_then_append-IsWindow :
    (max_segments : ℕ) (segment : FeedbackTranscriptSegment)
    (segments : List FeedbackTranscriptSegment) (state : MeetingWindowState)
    → 0 < max_segments
    → max_segments ≤ length segments
    → length segments ≤ max_segments
    → Rises 0 segments
    → IsNewer segment segments
    → Distinct (ids_of segments)
    → contains segment.segment_id (ids_of segments) ≡ false
    → ((x : Uuid) → contains x state.segment_ids ≡ contains x (ids_of segments))
    → (after : MeetingWindowState) × (evict_then_append max_segments segment segments state
        ≡ some after)
      × IsWindow max_segments (advanced segment after)
unfolding evict_then_append
evict_then_append-IsWindow max_segments segment [] state pos full le rises newer distinct new same =
    absurd (omega arith)
evict_then_append-IsWindow max_segments segment (s ∷ rest) state pos full le rises newer distinct
      new same =
    (
      append_to max_segments segment rest (discard s.segment_id state.segment_ids) state,
      refl,
      append_to-IsWindow max_segments segment rest (discard s.segment_id state.segment_ids) state
          (omega arith) (Rises-weaken 0 (suc s.sequence) rest (omega arith) rises.1) newer.1
          distinct.1 (ground arith)
          (same_ids-discard s.segment_id (ids_of rest) state.segment_ids distinct.0 same),
    )

-- A segment with a new id and a later sequence can be appended to any window of a positive size, and
-- with the new last sequence the result is a window again.
pub append_segment-IsWindow :
    (max_segments : ℕ) (segment : FeedbackTranscriptSegment) (state : MeetingWindowState)
    → 0 < max_segments
    → IsWindow max_segments state
    → contains segment.segment_id state.segment_ids ≡ false
    → IsFresh segment state.last_sequence
    → (after : MeetingWindowState) × (append_segment state segment max_segments ≡ some after)
      × IsWindow max_segments (advanced segment after)
unfolding append_segment
append_segment-IsWindow max_segments segment state pos w new fresh =
    let newer = IsFresh-IsNewer segment state.last_sequence state.segments w.below fresh in
    let absent = sym (w.same_ids segment.segment_id) ∙ new in
    elim (Bool-cases (leb max_segments (length state.segments))) [
      | inl full ↦ rw full (
          evict_then_append-IsWindow max_segments segment state.segments state pos (ground arith)
            w.bounded w.rises newer w.distinct absent w.same_ids)
      | inr room ↦ rw room (
        append_to max_segments segment state.segments state.segment_ids state,
        refl,
        append_to-IsWindow max_segments segment state.segments state.segment_ids state
            (ground arith) w.rises newer w.distinct absent w.same_ids,
      )
    ]
