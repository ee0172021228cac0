-- ===== src/Rag/FeedbackFilter.antt =====
-- app/rag/feedback_access_filter.py: the filter of a search for meeting feedback. `uuid_text` is
-- `str(UUID)`.
use be25_fin_thanos_meetbowl.Prelude.{
  ◌≡◌, refl, ap, ◌∙◌, inl, inr, Bool, true, not, ◌&&◌, List, [], ◌∷◌, map, arith, Bool-cases,
  nat_eq, list_eq, option_eq, pair_eq, contains, beq_sound, all,
}
use be25_fin_thanos_meetbowl.Text.{Text, codes}
use be25_fin_thanos_meetbowl.Dedupe.{dedupe}
use be25_fin_thanos_meetbowl.Sort.{text_leb, sort_by, all-sort_by}
use be25_fin_thanos_meetbowl.Schemas.{Uuid}
use be25_fin_thanos_meetbowl.Schemas.Feedback.{MeetingFeedbackCommand}
use be25_fin_thanos_meetbowl.Rag.AccessFilter.{Match, match_of}
use be25_fin_thanos_meetbowl.Rag.AccessFilter.Readable.{overlaps}

pub record FeedbackFilter : Type 0 where
  pub must : List Match
  pub must_not : List Match

-- `sorted(set(…), key=str)`
unfoldable pub sorted_users : (Uuid → Text) → List Uuid → List Uuid
unfolding text_leb sort_by dedupe
sorted_users uuid_text users =
    sort_by (λ a b. text_leb (uuid_text a) (uuid_text b)) (dedupe (λ user. user) [] users)

unfoldable pub build_feedback_access_filter :
    (Uuid → Text) → MeetingFeedbackCommand → Text → FeedbackFilter
unfolding sorted_users
build_feedback_access_filter uuid_text command exclude_meeting_id = record {
  must =
      match_of (codes "organizationId") (uuid_text command.organization_id ∷ [])
      ∷ match_of (codes "sourceType") (codes "MEETING_MINUTES" ∷ codes "MINUTES" ∷ [])
      ∷ map (λ user. match_of (codes "allowedUserIds") (uuid_text user ∷ []))
          (sorted_users uuid_text command.participant_user_ids);
  must_not = match_of (codes "metadata.meetingId") (exclude_meeting_id ∷ []) ∷ [];
}

all-map {ℓ κ} :
    {A : Type ℓ} {B : Type κ} (p : B → Bool) (f : A → B) (xs : List A)
    → all p (map f xs) ≡ all (λ x. p (f x)) xs
all-map p f [] = refl
all-map p f (x ∷ xs) = ap (λ b. p (f x) && b) (all-map p f xs)

all-contains :
    (p : Uuid → Bool) (a : Uuid) (xs : List Uuid)
    → contains a xs ≡ true
    → all p xs ≡ true
    → p a ≡ true
all-contains p a [] h k = cc
all-contains p a (x ∷ xs) h k = ground (arith, beq_sound x a, all-contains p a xs)

all-dedupe :
    (p : Uuid → Bool) (seen xs : List Uuid)
    → all p seen ≡ true
    → all p (dedupe (λ user. user) seen xs) ≡ all p xs
unfolding dedupe
all-dedupe p seen [] h = refl
all-dedupe p seen (x ∷ xs) h = elim (Bool-cases (contains x seen)) [
  | inl known ↦ rw (known, dedupe) (rw (all-contains p x seen known h, all-dedupe p seen xs h) refl)
  | inr new ↦ elim (Bool-cases (p x)) [
    | inl holds ↦
        rw (new, dedupe) (ap (λ b. p x && b) (all-dedupe p (x ∷ seen) xs (rw (holds, h) refl)))
    | inr fails ↦ rw (new, dedupe) (rw fails refl)
  ]
]

pub all-sorted_users :
    (uuid_text : Uuid → Text) (p : Uuid → Bool) (users : List Uuid)
    → all p (sorted_users uuid_text users) ≡ all p users
unfolding sorted_users
all-sorted_users uuid_text p users =
    all-sort_by _ p (dedupe (λ user. user) [] users) ∙ all-dedupe p [] users refl

-- The search engine, with the documented meaning of `must` and `must_not`.
pub record FeedbackEngine : Type 1 where
  pub Point : Type 0
  pub values : Point → Text → List Text
  pub accepts : FeedbackFilter → Point → Bool
  pub accepts-clauses :
      (f : FeedbackFilter) (p : Point)
      → accepts f p ≡ (
          all (λ m. overlaps (values p m.key) m.values) f.must
          && all (λ m. not (overlaps (values p m.key) m.values)) f.must_not)

module _ (engine : FeedbackEngine) (uuid_text : Uuid → Text) where
  open engine use {Point, values, accepts}

  -- A feedback search accepts a point exactly if it is of the organization, it is minutes, every
  -- participant is named as a reader, and it is not about the excluded meeting.
  pub feedback_filter_lem :
      (command : MeetingFeedbackCommand) (exclude : Text) (p : Point)
      → accepts (build_feedback_access_filter uuid_text command exclude) p ≡ (
          overlaps (values p (codes "organizationId")) (uuid_text command.organization_id ∷ [])
          && (overlaps
                (values p (codes "sourceType"))
                (codes "MEETING_MINUTES" ∷ codes "MINUTES" ∷ [])
              && all
                  (λ user. overlaps (values p (codes "allowedUserIds")) (uuid_text user ∷ []))
                  command.participant_user_ids)
          && not (overlaps (values p (codes "metadata.meetingId")) (exclude ∷ [])))
  unfolding build_feedback_access_filter
  feedback_filter_lem command exclude p =
      rw
        (
          engine.accepts-clauses (build_feedback_access_filter uuid_text command exclude) p,
          all-map (λ m. overlaps (values p m.key) m.values)
              (λ user. match_of (codes "allowedUserIds") (uuid_text user ∷ []))
              (sorted_users uuid_text command.participant_user_ids),
          all-sorted_users uuid_text
              (λ user. overlaps (values p (codes "allowedUserIds")) (uuid_text user ∷ []))
              command.participant_user_ids,
        )
        (ground arith)
