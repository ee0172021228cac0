-- ===== src/Feedback/Consumer/Publishing.antt =====
-- The cooldown between two messages on the same subject.
use be25_fin_thanos_meetbowl.Prelude.{
  ◌+◌, ◌*◌, ◌≤◌, ◌<◌, max, ◌≡◌, Bool, true, not, some, [], ◌∷◌, arith, ltb, Eq, nat_eq, list_eq,
  option_eq, pair_eq, beq_refl,
}
use be25_fin_thanos_meetbowl.Prelude.Dict.{Dict, lookup, lookup-insert}
use be25_fin_thanos_meetbowl.Errors.{returned}
use be25_fin_thanos_meetbowl.Schemas.{Uuid, Moment}
use be25_fin_thanos_meetbowl.Schemas.Feedback.{MeetingFeedbackResult}
use be25_fin_thanos_meetbowl.Feedback.State.{
  Settings, Processor, retain, cleanup_expired_state, payload_of, dedupe_key, cools_down,
}
use be25_fin_thanos_meetbowl.Feedback.Consumer.{World, sent, done, record_published, publish_result}

-- An entry that is found and passes the test is found again.
lookup-retain {ℓ κ} :
    {K : Type ℓ} {V : Type κ} ⦃e : Eq K⦄ (keep : V → Bool) (k : K) (v : V) (d : Dict K V)
    → lookup k d ≡ some v
    → keep v ≡ true
    → lookup k (retain keep d) ≡ some v
unfolding lookup retain
lookup-retain keep k v [] h kept = h
lookup-retain keep k v ((j, w) ∷ d) h kept = ground (arith, lookup-retain keep k v d)

module _ (settings : Settings) where
  published_is_recorded :
      (world : World) (correlation_id : Uuid) (result : MeetingFeedbackResult) (p p' : Processor)
      → publish_result settings world correlation_id result p
        ≡ (returned tt, p', sent (payload_of settings result) ∷ [])
      → lookup (dedupe_key settings result) p'.last_published_at ≡ some result.generated_at
  unfolding publish_result record_published
  published_is_recorded world correlation_id result p p' h = ground (
    arith,
    lookup-insert (dedupe_key settings result) (dedupe_key settings result) result.generated_at
        p.last_published_at,
    beq_refl (dedupe_key settings result),
  )

  -- After a message was published, a result on the same subject, with the same sources, that is
  -- generated before the cooldown has passed is not published and changes nothing, even if a cleanup
  -- has run in between, as long as that cleanup came before the cooldown had passed.
  pub cooldown_lem :
      (world later : World) (correlation_id correlation_id' : Uuid)
      (first second : MeetingFeedbackResult) (p p' : Processor) (now : Moment)
      → publish_result settings world correlation_id first p
        ≡ (returned tt, p', sent (payload_of settings first) ∷ [])
      → dedupe_key settings second ≡ dedupe_key settings first
      → second.generated_at < first.generated_at + settings.cooldown_seconds * 1000
      → now ≤ first.generated_at + settings.cooldown_seconds * 1000
      → let p'' = cleanup_expired_state settings now p' in
        publish_result settings later correlation_id' second p'' ≡ done p''
  unfolding cleanup_expired_state publish_result cools_down
  cooldown_lem world later correlation_id correlation_id' first second p p' now h same soon recent =
      rw
        (
          same,
          lookup-retain {K = _} {V = Moment}
              (λ published_at. not (
                ltb
                  (published_at
                    + max (settings.state_ttl_seconds * 1000) (settings.cooldown_seconds * 1000))
                  now))
              (dedupe_key settings first) first.generated_at p'.last_published_at
              (published_is_recorded world correlation_id first p p' h) (ground arith),
        )
        (ground arith)
