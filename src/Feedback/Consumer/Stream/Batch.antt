-- ===== src/Feedback/Consumer/Stream/Batch.antt =====
-- What a batch acknowledges.
use be25_fin_thanos_meetbowl.Prelude.{
  ◌<◌, ◌≡◌, refl, ◌∙◌, true, false, Option, some, List, [], ◌∷◌, map, arith, ◌==◌, nat_eq, list_eq,
  option_eq, pair_eq, contains,
}
use be25_fin_thanos_meetbowl.Prelude.Dict.{lookup, insert}
use be25_fin_thanos_meetbowl.Text.{codes}
use be25_fin_thanos_meetbowl.Errors.{Exception, returned, raised, other}
use be25_fin_thanos_meetbowl.Schemas.{Uuid, Moment}
use be25_fin_thanos_meetbowl.Schemas.Events.{EventEnvelope, FeedbackSegmentCreatedPayload}
use be25_fin_thanos_meetbowl.Feedback.Window.{MeetingWindowState}
use be25_fin_thanos_meetbowl.Feedback.State.{
  Settings, Processor, cleanup_expired_state, window_or_new, key_of, is_stale,
}
use be25_fin_thanos_meetbowl.Feedback.Consumer.{World, add_segment, process_payload}
use be25_fin_thanos_meetbowl.Feedback.Consumer.Stream.{
  Delivered, feedback_segment_created, process_event, read_messages,
}

module _ (settings : Settings) {Json : Type 0}
    (parse_payload : Json → Option FeedbackSegmentCreatedPayload) where
  -- A batch that ends without an exception has acknowledged every message, in order.
  pub read_messages-acked :
      (messages : List (Delivered Json)) (p : Processor)
      → (read_messages settings parse_payload messages p).0 ≡ returned tt
      → (read_messages settings parse_payload messages p).2 ≡ map (λ m. m.message_id) messages
  unfolding read_messages
  read_messages-acked [] p h = refl
  read_messages-acked (m ∷ rest) p h = ground (
    arith,
    read_messages-acked rest (process_event settings parse_payload m.world m.now m.raw_event p).1,
  )

  reversed_raises :
      (world : World) (now : Moment) (payload : FeedbackSegmentCreatedPayload) (c : Uuid)
      (state : MeetingWindowState) (p : Processor)
      → contains payload.segment_id state.segment_ids ≡ false
      → is_stale settings payload.sequence state.last_sequence ≡ false
      → payload.ended_at_ms < payload.started_at_ms
      → add_segment settings world now payload c state p
        ≡ (raised (other (codes "ValidationError")), p, [])
  unfolding add_segment
  reversed_raises world now payload c state p new fresh late = ground arith

  stopped_batch :
      (m : Delivered Json) (rest : List (Delivered Json)) (p p' : Processor) (x : Exception)
      → process_event settings parse_payload m.world m.now m.raw_event p ≡ (raised x, p', [])
      → read_messages settings parse_payload (m ∷ rest) p ≡ (raised x, p', [], [])
  unfolding read_messages
  stopped_batch m rest p p' x h = ground arith

  event_is_payload :
      (m : Delivered Json) (envelope : EventEnvelope Json) (payload : FeedbackSegmentCreatedPayload)
      (p : Processor)
      → m.raw_event ≡ some (some envelope)
      → (envelope.event_type == feedback_segment_created) ≡ true
      → parse_payload envelope.payload ≡ some payload
      → process_event settings parse_payload m.world m.now m.raw_event p
        ≡ process_payload settings m.world m.now payload envelope.correlation_id p
  unfolding process_event
  event_is_payload m envelope payload p arrived kind parsed = rw (arrived, kind, parsed) refl

  reversed_payload :
      (world : World) (now : Moment) (payload : FeedbackSegmentCreatedPayload) (c : Uuid)
      (p : Processor) (before : MeetingWindowState)
      → payload.is_final ≡ true
      → before
        ≡ window_or_new settings now
            (lookup (key_of settings payload) (cleanup_expired_state settings now p).windows)
      → contains payload.segment_id before.segment_ids ≡ false
      → is_stale settings payload.sequence before.last_sequence ≡ false
      → payload.ended_at_ms < payload.started_at_ms
      → (p' : Processor) × (process_payload settings world now payload c p
          ≡ (raised (other (codes "ValidationError")), p', []))
  unfolding process_payload
  reversed_payload world now payload c p before final e new fresh late =
      let p₁ = cleanup_expired_state settings now p in
      let p' : Processor = record p₁ {
        windows = insert (key_of settings payload) before p₁.windows;
      } in
      (p', simp (final, ← e) (reversed_raises world now payload c before p' new fresh late))

  -- A final segment that is new to its window and ends before it starts makes the handler raise a
  -- validation error, although an event whose payload is not valid is meant to be skipped. The whole
  -- batch stops there: neither that message nor any behind it is acknowledged, and none behind it is
  -- processed, whatever they are.
  pub reversed_stops_batch :
      (m : Delivered Json) (rest : List (Delivered Json)) (envelope : EventEnvelope Json)
      (payload : FeedbackSegmentCreatedPayload) (p : Processor) (before : MeetingWindowState)
      → m.raw_event ≡ some (some envelope)
      → (envelope.event_type == feedback_segment_created) ≡ true
      → parse_payload envelope.payload ≡ some payload
      → payload.is_final ≡ true
      → before
        ≡ window_or_new settings m.now
            (lookup (key_of settings payload) (cleanup_expired_state settings m.now p).windows)
      → contains payload.segment_id before.segment_ids ≡ false
      → is_stale settings payload.sequence before.last_sequence ≡ false
      → payload.ended_at_ms < payload.started_at_ms
      → (p' : Processor) × (process_payload settings m.world m.now payload envelope.correlation_id p
          ≡ (raised (other (codes "ValidationError")), p', []))
        × (read_messages settings parse_payload (m ∷ rest) p
            ≡ (raised (other (codes "ValidationError")), p', [], []))
  reversed_stops_batch m rest envelope payload p before arrived kind parsed final e new fresh late =
      let (p', raises) =
        reversed_payload m.world m.now payload envelope.correlation_id p before final e new fresh
          late in
      (
        p',
        raises,
        stopped_batch m rest p p' (other (codes "ValidationError"))
            (event_is_payload m envelope payload p arrived kind parsed ∙ raises),
      )
