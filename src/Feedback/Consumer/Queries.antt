-- ===== src/Feedback/Consumer/Queries.antt =====
-- When the workflow is asked.
use be25_fin_thanos_meetbowl.Prelude.{
  ℕ, ◌+◌, ◌*◌, ◌≤◌, ◌≡◌, refl, sym, ap, ◌∙◌, inl, inr, true, false, ◌||◌, Option, none, some, List,
  [], ◌∷◌, arith, if◌then◌else◌, Bool-cases, Option-cases, ◌==◌, nat_eq, list_eq, option_eq,
  pair_eq, contains, length,
}
use be25_fin_thanos_meetbowl.Prelude.Dict.{lookup}
use be25_fin_thanos_meetbowl.Text.{Text, codes}
use be25_fin_thanos_meetbowl.Errors.{raised, other}
use be25_fin_thanos_meetbowl.Schemas.{Uuid, Moment}
use be25_fin_thanos_meetbowl.Schemas.Events.{FeedbackSegmentCreatedPayload}
use be25_fin_thanos_meetbowl.Schemas.Feedback.{
  FeedbackTranscriptSegment, validate_time_range, MeetingFeedbackCommand,
}
use be25_fin_thanos_meetbowl.Feedback.Window.{
  MeetingWindowState, append_segment, trim_expired_segments, total_chars, build_window_fingerprint,
}
use be25_fin_thanos_meetbowl.Feedback.State.{
  Settings, Processor, cleanup_expired_state, window_or_new, is_stale, is_gated, too_soon,
  segment_of, command_of, key_of,
}
use be25_fin_thanos_meetbowl.Feedback.Consumer.{
  World, FeedbackEffect, queried, query, accept, add_segment, process_payload,
}

-- The command with which the workflow is asked, if it is.
abbrev pub first_query : List FeedbackEffect → Option MeetingFeedbackCommand
first_query (queried command ∷ effects) = some command
first_query _ = none

-- The interval since the last query has passed.
abbrev pub IsDue : ℕ → Option ℕ → ℕ → Type 0
IsDue interval none ended_at_ms = Unit
IsDue interval (some last) ended_at_ms = last + interval ≤ ended_at_ms

module _ (settings : Settings) where
  abbrev pub Gate :
      FeedbackSegmentCreatedPayload → MeetingWindowState → MeetingFeedbackCommand → Type 0
  Gate payload before command =
      (settings.min_segments ≤ length command.transcript_window)
      × (settings.min_window_chars ≤ total_chars command.transcript_window)
      × IsDue (settings.trigger_interval_seconds * 1000) before.last_query_ended_at_ms
          payload.ended_at_ms

  append_segment-last_query :
      (state appended : MeetingWindowState) (segment : FeedbackTranscriptSegment) (n : ℕ)
      → append_segment state segment n ≡ some appended
      → appended.last_query_ended_at_ms ≡ state.last_query_ended_at_ms
  unfolding append_segment
  append_segment-last_query state appended segment n h = ground arith

  is_due :
      (payload : FeedbackSegmentCreatedPayload) (last : Option ℕ)
      → too_soon settings payload.ended_at_ms last ≡ false
      → IsDue (settings.trigger_interval_seconds * 1000) last payload.ended_at_ms
  unfolding too_soon
  is_due payload none h = tt
  is_due payload (some last) h = ground arith

  gate_passed :
      (payload : FeedbackSegmentCreatedPayload) (fingerprint : Text) (state : MeetingWindowState)
      → is_gated settings payload fingerprint state ≡ false
      → (settings.min_segments ≤ length state.segments)
        × (settings.min_window_chars ≤ total_chars state.segments)
        × (too_soon settings payload.ended_at_ms state.last_query_ended_at_ms ≡ false)
        × ((state.last_query_fingerprint == some fingerprint) ≡ false)
  unfolding is_gated
  gate_passed payload fingerprint state h = (ground arith, ground arith, ground arith, ground arith)

  query-command_of :
      (world : World) (payload : FeedbackSegmentCreatedPayload) (c : Uuid) (fingerprint : Text)
      (state : MeetingWindowState) (p : Processor) (command : MeetingFeedbackCommand)
      → first_query (query settings world payload c fingerprint state p).2 ≡ some command
      → command_of settings payload c state ≡ command
  unfolding query
  query-command_of world payload c fingerprint state p command h = ground arith

  window_of_command :
      (payload : FeedbackSegmentCreatedPayload) (c : Uuid) (state : MeetingWindowState)
      → (command_of settings payload c state).transcript_window ≡ state.segments
  unfolding command_of
  window_of_command payload c state = refl

  trim-last_query :
      (state : MeetingWindowState) (latest seconds : ℕ)
      → (trim_expired_segments state latest seconds).last_query_ended_at_ms
        ≡ state.last_query_ended_at_ms
  unfolding trim_expired_segments
  trim-last_query state latest seconds = refl

  accept-Gate :
      (world : World) (now : Moment) (payload : FeedbackSegmentCreatedPayload) (c : Uuid)
      (appended : MeetingWindowState) (p : Processor) (command : MeetingFeedbackCommand)
      → first_query (accept settings world now payload c (some appended) p).2 ≡ some command
      → Gate payload appended command
  unfolding accept
  accept-Gate world now payload c appended p command h =
      let moved : MeetingWindowState = record appended {
        last_sequence = some payload.sequence;
        last_activity_at = now;
      } in
      let state = trim_expired_segments moved payload.ended_at_ms settings.max_window_seconds in
      let fingerprint = build_window_fingerprint world.lower state.segments in
      elim (Bool-cases (is_gated settings payload fingerprint state)) [
        | inl gated ↦ cc (rw gated at h)
        | inr passed ↦
            let (long, chars, due, _) = gate_passed payload fingerprint state passed in
            let asked =
              query-command_of world payload c fingerprint state _ command (rw passed at h) in
            let same : state.segments ≡ command.transcript_window =
              sym (window_of_command payload c state)
              ∙ ap (λ (m : MeetingFeedbackCommand). m.transcript_window) asked in
            (
              rw (← same) long,
              rw (← same) chars,
              is_due payload appended.last_query_ended_at_ms (
                  rw (trim-last_query moved payload.ended_at_ms settings.max_window_seconds) at
                    due),
            )
      ]

  accept-none :
      (world : World) (now : Moment) (payload : FeedbackSegmentCreatedPayload) (c : Uuid)
      (p : Processor)
      → first_query (accept settings world now payload c none p).2 ≡ none
  unfolding accept
  accept-none world now payload c p = refl

  add_ordered :
      (world : World) (now : Moment) (payload : FeedbackSegmentCreatedPayload) (c : Uuid)
      (state : MeetingWindowState) (p : Processor) (command : MeetingFeedbackCommand)
      → first_query
          (if validate_time_range (segment_of settings payload)
            then accept settings world now payload c
                (append_segment state (segment_of settings payload) settings.max_segments)
                p
            else (raised (other (codes "ValidationError")), p, [])).2
        ≡ some command
      → Gate payload state command
  add_ordered world now payload c state p command h =
      elim (Bool-cases (validate_time_range (segment_of settings payload))) [
        | inl ordered ↦
            elim (Option-cases
              (append_segment state (segment_of settings payload) settings.max_segments)) [
                | inl full ↦ cc (accept-none world now payload c p, rw (ordered, full) at h)
                | inr (appended, ok) ↦
                    let gate =
                      accept-Gate world now payload c appended p command (rw (ordered, ok) at h) in
                    let same =
                      append_segment-last_query state appended (segment_of settings payload)
                        settings.max_segments ok in
                    (gate.0, gate.1, rw same at (gate.2))
              ]
        | inr reversed ↦ cc (rw reversed at h)
      ]

  add_segment-Gate :
      (world : World) (now : Moment) (payload : FeedbackSegmentCreatedPayload) (c : Uuid)
      (state : MeetingWindowState) (p : Processor) (command : MeetingFeedbackCommand)
      → first_query (add_segment settings world now payload c state p).2 ≡ some command
      → Gate payload state command
        × (contains payload.segment_id state.segment_ids ≡ false)
        × (is_stale settings payload.sequence state.last_sequence ≡ false)
  unfolding add_segment
  add_segment-Gate world now payload c state p command h =
      elim (Bool-cases (
        contains payload.segment_id state.segment_ids
        || is_stale settings payload.sequence state.last_sequence)) [
          | inl known ↦ cc (rw known at h)
          | inr new ↦
              let passed = add_ordered world now payload c state p command (rw new at h) in
              (passed, ground arith, ground arith)
        ]

  -- The workflow is asked only for a final segment that is new to its window, with at least the
  -- configured number of segments and of characters in the window, and not before the trigger interval
  -- has passed since the window's last query.
  pub query_gates :
      (world : World) (now : Moment) (payload : FeedbackSegmentCreatedPayload) (c : Uuid)
      (p : Processor) (command : MeetingFeedbackCommand)
      → first_query (process_payload settings world now payload c p).2 ≡ some command
      → let before =
          window_or_new settings now
            (lookup (key_of settings payload) (cleanup_expired_state settings now p).windows) in
        (payload.is_final ≡ true)
        × (contains payload.segment_id before.segment_ids ≡ false)
        × (is_stale settings payload.sequence before.last_sequence ≡ false)
        × (settings.min_segments ≤ length command.transcript_window)
        × (settings.min_window_chars ≤ total_chars command.transcript_window)
        × IsDue
            (settings.trigger_interval_seconds * 1000)
            before.last_query_ended_at_ms
            payload.ended_at_ms
  unfolding process_payload
  query_gates world now payload c p command h = elim (Bool-cases payload.is_final) [
    | inl final ↦
        let (gate, new, fresh) =
          add_segment-Gate world now payload c _ _ command (simp final at h) in
        (final, new, fresh, gate.0, gate.1, gate.2)
    | inr draft ↦ cc (simp draft at h)
  ]
