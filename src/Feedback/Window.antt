-- ===== src/Feedback/Window.antt =====
-- The window of the latest segments of one meeting: `MeetingWindowState`, `_append_segment`,
-- `_trim_expired_segments` and `_build_window_fingerprint` of app/consumers/redis_feedback.py.
pub mod Invariant
pub mod Append
use be25_fin_thanos_meetbowl.Prelude.{
  ℕ, ◌+◌, ◌-◌, ◌*◌, Option, none, some, List, [], ◌∷◌, ◌++◌, map, ltb, leb, nat_beq, if◌then◌else◌,
  nat_eq, list_eq, option_eq, pair_eq, contains, length, drop, all,
}
use be25_fin_thanos_meetbowl.Text.{Text, codes, strip, join, decimal}
use be25_fin_thanos_meetbowl.Schemas.{Uuid, Moment}
use be25_fin_thanos_meetbowl.Schemas.Feedback.{FeedbackTranscriptSegment}

-- The deque's left end comes first; the ids are a set.
pub record MeetingWindowState : Type 0 where
  pub segments : List FeedbackTranscriptSegment
  pub segment_ids : List Uuid
  pub last_sequence : Option ℕ
  pub last_activity_at : Moment
  pub last_query_ended_at_ms : Option ℕ
  pub last_query_fingerprint : Option Text

-- `set.discard` and `set.add`
unfoldable pub discard : Uuid → List Uuid → List Uuid
discard a [] = []
discard a (x ∷ xs) = if nat_beq x a then discard a xs else x ∷ discard a xs

unfoldable pub add : Uuid → List Uuid → List Uuid
add a xs = if contains a xs then xs else a ∷ xs

-- `deque(maxlen=n).append` drops on the left what does not fit.
unfoldable pub push :
    ℕ → List FeedbackTranscriptSegment → FeedbackTranscriptSegment → List FeedbackTranscriptSegment
push maxlen segments segment = let all = segments ++ segment ∷ [] in drop (length all - maxlen) all

unfoldable pub append_to :
    ℕ
    → FeedbackTranscriptSegment
    → List FeedbackTranscriptSegment
    → List Uuid
    → MeetingWindowState
    → MeetingWindowState
unfolding push add
append_to max_segments segment segments ids state = record state {
  segments = push max_segments segments segment;
  segment_ids = add segment.segment_id ids;
}

-- `none` is the `IndexError` of `popleft` on an empty deque.
unfoldable pub evict_then_append :
    ℕ
    → FeedbackTranscriptSegment
    → List FeedbackTranscriptSegment
    → MeetingWindowState
    → Option MeetingWindowState
unfolding append_to discard
evict_then_append max_segments segment [] state = none
evict_then_append max_segments segment (evicted ∷ rest) state =
    some (append_to max_segments segment rest (discard evicted.segment_id state.segment_ids) state)

unfoldable pub append_segment :
    MeetingWindowState → FeedbackTranscriptSegment → ℕ → Option MeetingWindowState
unfolding evict_then_append
append_segment state segment max_segments =
    if leb max_segments (length state.segments)
    then evict_then_append max_segments segment state.segments state
    else some (append_to max_segments segment state.segments state.segment_ids state)

-- The loop: `ended_at_ms < latest - window` without a negative number.
unfoldable pub trim :
    ℕ → ℕ → List FeedbackTranscriptSegment → List Uuid → List FeedbackTranscriptSegment × List Uuid
unfolding discard
trim latest window [] ids = ([], ids)
trim latest window (segment ∷ rest) ids =
    let trimmed = trim latest window rest (discard segment.segment_id ids) in
    if ltb (segment.ended_at_ms + window) latest then trimmed else (segment ∷ rest, ids)

unfoldable pub trim_expired_segments : MeetingWindowState → ℕ → ℕ → MeetingWindowState
unfolding trim
trim_expired_segments state latest_ended_at_ms max_window_seconds =
    let (segments, ids) =
      trim latest_ended_at_ms (max_window_seconds * 1000) state.segments state.segment_ids in
    record state { segments = segments; segment_ids = ids }

-- `lower` is `str.lower`.
unfoldable pub build_window_fingerprint : (Text → Text) → List FeedbackTranscriptSegment → Text
unfolding join strip decimal
build_window_fingerprint lower segments = join (codes "|") (
    map (λ segment. decimal segment.sequence ++ (codes ":" ++ lower (strip segment.text))) segments)

unfoldable pub total_chars : List FeedbackTranscriptSegment → ℕ
total_chars [] = 0
total_chars (segment ∷ rest) = length segment.text + total_chars rest
