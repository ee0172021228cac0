-- ===== src/Events/Tracker/Refinement.antt =====
-- The tracker in Redis beside the one in memory.
use be25_fin_thanos_meetbowl.Prelude.{
  ℕ, ◌+◌, ◌≤◌, ◌≡◌, sym, ap, ◌∙◌, Bool, true, false, and-true, nat_beq, if◌then◌else◌,
}
use be25_fin_thanos_meetbowl.Text.{Text}
use be25_fin_thanos_meetbowl.Schemas.{Uuid}
use be25_fin_thanos_meetbowl.Events.Tracker as Memory
use be25_fin_thanos_meetbowl.Events.Tracker.{InMemory}
use be25_fin_thanos_meetbowl.Events.Tracker.Redis as Stored
use be25_fin_thanos_meetbowl.Events.Tracker.Redis.{Redis, outlives}

module _ (redis : Redis) (uuid_text : Uuid → Text) (namespace : Text) (ttl : ℕ) where
  -- The same events are completed, and the same retries are counted.
  pub record SameView (s : redis.State) (t : InMemory) : Type 0 where
    pub completed :
        (e : Uuid) → Stored.is_completed redis uuid_text namespace ttl e s ≡ Memory.is_completed e t
    pub counted : (e : Uuid) → Stored.retries redis uuid_text namespace ttl e s ≡ Memory.retries e t

  elapse-SameView :
      (s : redis.State) (t : InMemory) (seconds : ℕ)
      → SameView s t
      → ((key : Text) → outlives seconds (redis.left key s) ≡ true)
      → SameView (redis.elapse seconds s) t
  unfolding Stored.is_completed Stored.retries
  elapse-SameView s t seconds v lives = record {
    completed = λ e.
        redis.exists-elapse seconds (Stored.completed_key redis uuid_text namespace ttl e) s
        ∙ rw (lives (Stored.completed_key redis uuid_text namespace ttl e), and-true _)
            (v.completed e);
    counted = λ e.
        redis.value-elapse seconds (Stored.retry_key redis uuid_text namespace ttl e) s
        ∙ rw (lives (Stored.retry_key redis uuid_text namespace ttl e)) (v.counted e);
  }

  module _ (injective : (e f : Uuid) → uuid_text e ≡ uuid_text f → e ≡ f) (lasting : 1 ≤ ttl) where
    -- If the texts of two ids differ and keys live for at least a second, the trackers stay in step until a
    -- key expires: marking an event, counting a retry, and time in which no key expires, keep what can be
    -- seen of the two equal, and the counts that they return are equal. When its time to live is over, a mark
    -- is gone from Redis.
    pub trackers_agree :
        (s : redis.State) (t : InMemory) (e : Uuid) (seconds : ℕ)
        → SameView s t
        → ((key : Text) → outlives seconds (redis.left key s) ≡ true)
        → SameView
            (Stored.mark_completed redis uuid_text namespace ttl e s)
            (Memory.mark_completed e t)
          × SameView
              (Stored.increment_retry redis uuid_text namespace ttl e s).1
              (Memory.increment_retry e t).1
          × ((Stored.increment_retry redis uuid_text namespace ttl e s).0
              ≡ (Memory.increment_retry e t).0)
          × SameView (redis.elapse seconds s) t
          × (Stored.is_completed redis uuid_text namespace ttl e
                (redis.elapse ttl (Stored.mark_completed redis uuid_text namespace ttl e s))
              ≡ false)
    trackers_agree s t e seconds v lives = (
      record {
        completed = λ f.
            Stored.completed-mark redis uuid_text namespace ttl injective lasting e f s
            ∙ ap (λ (b : Bool). if nat_beq e f then true else b) (v.completed f)
            ∙ sym (Memory.completed-mark e f t);
        counted = λ f.
            Stored.retries-mark redis uuid_text namespace ttl injective lasting e f s
            ∙ ap (λ (n : ℕ). if nat_beq e f then 0 else n) (v.counted f)
            ∙ sym (Memory.retries-mark e f t);
      },
      record {
        completed = λ f.
            Stored.completed-increment redis uuid_text namespace ttl injective lasting e f s
            ∙ v.completed f
            ∙ sym (Memory.completed-increment e f t);
        counted = λ f.
            Stored.retries-increment redis uuid_text namespace ttl injective lasting e f s
            ∙ rw (v.counted e, v.counted f) (sym (Memory.retries-increment e f t));
      },
      Stored.increment-count redis uuid_text namespace ttl injective lasting e s
          ∙ ap (λ (n : ℕ). n + 1) (v.counted e)
          ∙ sym (Memory.increment-count e e t),
      elapse-SameView s t seconds v lives,
      Stored.completed-elapse redis uuid_text namespace ttl injective lasting e s,
    )
