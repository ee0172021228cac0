-- ===== src/Events/Effect.antt =====
-- What a consumer does to the outside while it handles one message, in order.
use be25_fin_thanos_meetbowl.Prelude.{ℕ, ◌≡◌, Bool, true, false, List, [], ◌∷◌}

-- `Event` is what a consumer publishes; a sleep is in milliseconds.
pub data Effect (Event : Type 0) : Type 0 where
  executed : Effect Event
  published : Event → Effect Event
  slept : ℕ → Effect Event
  acked : Effect Event
  rejected : Bool → Effect Event

module _ {Event : Type 0} where
  abbrev pub is_settlement : Effect Event → Bool
  is_settlement acked = true
  is_settlement (rejected requeue) = true
  is_settlement _ = false

  -- The message is acknowledged or rejected exactly once, as the last thing that happens.
  abbrev pub SettlesOnce : List (Effect Event) → Type 0
  SettlesOnce [] = ⊥
  SettlesOnce (e ∷ []) = is_settlement e ≡ true
  SettlesOnce (e ∷ f ∷ es) = (is_settlement e ≡ false) × SettlesOnce (f ∷ es)

  -- Whether the broker will deliver the message again.
  abbrev pub is_requeued : List (Effect Event) → Bool
  is_requeued [] = false
  is_requeued (rejected requeue ∷ []) = requeue
  is_requeued (_ ∷ es) = is_requeued es

  -- Whether the message is acknowledged in the end.
  abbrev pub is_acked : List (Effect Event) → Bool
  is_acked [] = false
  is_acked (acked ∷ []) = true
  is_acked (_ ∷ es) = is_acked es
