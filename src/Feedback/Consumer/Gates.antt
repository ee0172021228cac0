-- ===== src/Feedback/Consumer/Gates.antt =====
-- What one event does to the windows, and when the workflow is asked.
use be25_fin_thanos_meetbowl.Prelude.{
  ℕ, ◌<◌, ◌≡◌, refl, inl, inr, Bool, false, ◌||◌, Option, none, some, [], ◌∷◌, arith, leb,
  Bool-cases, ◌==◌, nat_eq, list_eq, option_eq, pair_eq, contains, All,
}
use be25_fin_thanos_meetbowl.Prelude.Dict.{Dict, lookup, insert}
use be25_fin_thanos_meetbowl.Text.{Text}
use be25_fin_thanos_meetbowl.Schemas.{Uuid, Moment}
use be25_fin_thanos_meetbowl.Errors.{Raises, returned, raised}
use be25_fin_thanos_meetbowl.Schemas.Feedback.{MeetingFeedbackResult}
use be25_fin_thanos_meetbowl.Schemas.Events.{FeedbackSegmentCreatedPayload}
use be25_fin_thanos_meetbowl.Feedback.Window.{
  MeetingWindowState, trim_expired_segments, build_window_fingerprint,
}
use be25_fin_thanos_meetbowl.Feedback.Window.Append.{append_segment-IsWindow, IsFresh, advanced}
use be25_fin_thanos_meetbowl.Feedback.Window.Invariant.{IsWindow, trim_expired_segments-IsWindow}
use be25_fin_thanos_meetbowl.Feedback.State.{
  Settings, Processor, retain, cleanup_expired_state, window_or_new, is_stale, is_gated, segment_of,
  key_of, WindowKey,
}
use be25_fin_thanos_meetbowl.Feedback.Consumer.{
  World, record_published, publish_result, after_query, query, accept, add_segment, process_payload,
}

-- Every window of the processor is one.
abbrev pub Windows : ℕ → Dict WindowKey MeetingWindowState → Type 0
Windows max_segments d = All (λ entry. IsWindow max_segments entry.1) d

Windows-insert :
    (n : ℕ) (k : WindowKey) (state : MeetingWindowState) (d : Dict WindowKey MeetingWindowState)
    → IsWindow n state
    → Windows n d
    → Windows n (insert k state d)
unfolding insert
Windows-insert n k state [] w h = (w, tt)
Windows-insert n k state ((j, v) ∷ d) w h = elim (Bool-cases (j == k)) [
  | inl same ↦ rw same (w, h.1)
  | inr other ↦ rw other (h.0, Windows-insert n k state d w h.1)
]

Windows-retain :
    (n : ℕ) (keep : MeetingWindowState → Bool) (d : Dict WindowKey MeetingWindowState)
    → Windows n d
    → Windows n (retain keep d)
unfolding retain
Windows-retain n keep [] h = tt
Windows-retain n keep ((j, v) ∷ d) h = elim (Bool-cases (keep v)) [
  | inl kept ↦ rw kept (h.0, Windows-retain n keep d h.1)
  | inr old ↦ rw old (Windows-retain n keep d h.1)
]

Windows-lookup :
    (n : ℕ) (k : WindowKey) (state : MeetingWindowState) (d : Dict WindowKey MeetingWindowState)
    → Windows n d
    → lookup k d ≡ some state
    → IsWindow n state
unfolding lookup
Windows-lookup n k state [] h found = cc
Windows-lookup n k state ((j, v) ∷ d) h found = elim (Bool-cases (j == k)) [
  | inl same ↦ let e : v ≡ state = ground arith in rw e at h.0
  | inr other ↦ Windows-lookup n k state d h.1 (ground arith)
]

module _ (settings : Settings) where
  -- Publishing does not touch the windows.
  windows-publish_result :
      (world : World) (c : Uuid) (result : MeetingFeedbackResult) (p : Processor)
      → (publish_result settings world c result p).1.windows ≡ p.windows
  unfolding publish_result record_published
  windows-publish_result world c result p = ground arith

  abbrev pub AllWindows : Processor → Type 0
  AllWindows p = Windows settings.max_segments p.windows

  after_query-AllWindows :
      (world : World) (payload : FeedbackSegmentCreatedPayload) (c : Uuid) (fingerprint : Text)
      (state : MeetingWindowState) (r : Raises (Option MeetingFeedbackResult)) (p : Processor)
      → IsWindow settings.max_segments state
      → AllWindows p
      → AllWindows (after_query settings world payload c fingerprint state r p).1
  unfolding after_query
  after_query-AllWindows world payload c fingerprint state (raised x) p w h = h
  after_query-AllWindows world payload c fingerprint state (returned none) p w h =
      Windows-insert settings.max_segments (key_of settings payload) _ p.windows
        (record {
          bounded = w.bounded;
          rises = w.rises;
          below = w.below;
          distinct = w.distinct;
          same_ids = w.same_ids;
        })
        h
  after_query-AllWindows world payload c fingerprint state (returned (some result)) p w h =
      rw windows-publish_result (
        Windows-insert settings.max_segments (key_of settings payload) _ p.windows
          (record {
            bounded = w.bounded;
            rises = w.rises;
            below = w.below;
            distinct = w.distinct;
            same_ids = w.same_ids;
          })
          h)

  accept-AllWindows :
      (world : World) (now : Moment) (payload : FeedbackSegmentCreatedPayload) (c : Uuid)
      (appended : MeetingWindowState) (p : Processor)
      → IsWindow settings.max_segments (advanced (segment_of settings payload) appended)
      → AllWindows p
      → AllWindows (accept settings world now payload c (some appended) p).1
  unfolding accept query segment_of
  accept-AllWindows world now payload c appended p w h =
      let moved : MeetingWindowState = record appended {
        last_sequence = some payload.sequence;
        last_activity_at = now;
      } in
      let state = trim_expired_segments moved payload.ended_at_ms settings.max_window_seconds in
      let valid : IsWindow settings.max_segments state =
        trim_expired_segments-IsWindow settings.max_segments payload.ended_at_ms
          settings.max_window_seconds moved
          (record {
            bounded = w.bounded;
            rises = w.rises;
            below = w.below;
            distinct = w.distinct;
            same_ids = w.same_ids;
          }) in
      let stored =
        Windows-insert settings.max_segments (key_of settings payload) state p.windows valid h in
      elim (Bool-cases
        (is_gated settings payload (build_window_fingerprint world.lower state.segments) state)) [
          | inl gated ↦ rw gated stored
          | inr open_ ↦ rw open_ (after_query-AllWindows world payload c _ state _ _ valid stored)
        ]

  is_stale-IsFresh :
      (payload : FeedbackSegmentCreatedPayload) (last : Option ℕ)
      → is_stale settings payload.sequence last ≡ false
      → IsFresh (segment_of settings payload) last
  unfolding is_stale segment_of
  is_stale-IsFresh payload none h = tt
  is_stale-IsFresh payload (some last) h = ground arith

  empty-IsWindow : (now : Moment) → IsWindow settings.max_segments (window_or_new settings now none)
  unfolding window_or_new
  empty-IsWindow now = record {
    bounded = omega arith;
    rises = tt;
    below = refl;
    distinct = tt;
    same_ids = λ x. refl;
  }

  window_or_new-IsWindow :
      (now : Moment) (key : WindowKey) (d : Dict WindowKey MeetingWindowState)
      (found : Option MeetingWindowState)
      → Windows settings.max_segments d
      → lookup key d ≡ found
      → IsWindow settings.max_segments (window_or_new settings now found)
  unfolding window_or_new
  window_or_new-IsWindow now key d none h e = unfold window_or_new in empty-IsWindow now
  window_or_new-IsWindow now key d (some state) h e =
      Windows-lookup settings.max_segments key state d h e

  cleanup-AllWindows :
      (now : Moment) (p : Processor)
      → AllWindows p
      → AllWindows (cleanup_expired_state settings now p)
  unfolding cleanup_expired_state
  cleanup-AllWindows now p h = Windows-retain settings.max_segments _ p.windows h

  add_segment-AllWindows :
      (world : World) (now : Moment) (payload : FeedbackSegmentCreatedPayload) (c : Uuid)
      (state : MeetingWindowState) (p : Processor)
      → 0 < settings.max_segments
      → IsWindow settings.max_segments state
      → AllWindows p
      → AllWindows (add_segment settings world now payload c state p).1
  unfolding add_segment
  add_segment-AllWindows world now payload c state p pos w h =
      elim (Bool-cases (
        contains payload.segment_id state.segment_ids
        || is_stale settings payload.sequence state.last_sequence)) [
          | inl known ↦ rw known h
          | inr new ↦ rw new (elim (Bool-cases (leb payload.started_at_ms payload.ended_at_ms)) [
            | inl ordered ↦
                let (appended, ok, valid) =
                  append_segment-IsWindow settings.max_segments (segment_of settings payload) state
                    pos w (ground arith)
                    (is_stale-IsFresh payload state.last_sequence (ground arith)) in
                rw (ordered, ok) (accept-AllWindows world now payload c appended p valid h)
            | inr reversed ↦ rw reversed h
          ])
        ]

  -- With room for at least one segment, one event keeps every window bounded by `max_segments`, in
  -- strictly rising sequence order, without a repeated segment, and in step with its set of ids.
  pub process_payload-AllWindows :
      (world : World) (now : Moment) (payload : FeedbackSegmentCreatedPayload) (c : Uuid)
      (p : Processor)
      → 0 < settings.max_segments
      → AllWindows p
      → AllWindows (process_payload settings world now payload c p).1
  unfolding process_payload
  process_payload-AllWindows world now payload c p pos h = elim (Bool-cases payload.is_final) [
    | inl final ↦
        let p₁ = cleanup_expired_state settings now p in
        let h₁ = cleanup-AllWindows now p h in
        let w =
          window_or_new-IsWindow now (key_of settings payload) p₁.windows
            (lookup (key_of settings payload) p₁.windows) h₁ refl in
        simp final (
          add_segment-AllWindows world now payload c
            (window_or_new settings now (lookup (key_of settings payload) p₁.windows)) _ pos w
            (Windows-insert settings.max_segments (key_of settings payload) _ p₁.windows w h₁))
    | inr draft ↦ simp draft h
  ]
