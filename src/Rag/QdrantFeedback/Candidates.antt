-- ===== src/Rag/QdrantFeedback/Candidates.antt =====
-- What a search for feedback gives back.
use be25_fin_thanos_meetbowl.Prelude.{
  ℕ, ◌≤◌, ◌≡◌, refl, ◌⊎◌, inl, inr, ◌&&◌, Option, none, some, List, [], ◌∷◌, arith, leb, some_eq,
  Bool-cases, nat_eq, list_eq, option_eq, pair_eq, length, take, All, All-append,
}
use be25_fin_thanos_meetbowl.Text.{Text}
use be25_fin_thanos_meetbowl.Errors.{returned, raised, ai, provider_unavailable_error}
use be25_fin_thanos_meetbowl.Schemas.{Uuid, Score}
use be25_fin_thanos_meetbowl.Schemas.Feedback.{FeedbackCandidate, MeetingFeedbackCommand}
use be25_fin_thanos_meetbowl.Rag.QdrantChat.{either, and_then, within}
use be25_fin_thanos_meetbowl.Rag.QdrantFeedback.{
  text_or, MinutesPoint, RawScore, missing, unreadable, number, score_of, Answer, points,
  http_status, failed, Server, meeting_date_of, candidate_of, candidates_at, to_candidates,
  candidates_in, search,
}

-- Within the bounds of the schema, `one` being the greatest score.
abbrev pub IsCandidate : Score → FeedbackCandidate → Type 0
IsCandidate one candidate =
    ((1 ≤ length candidate.snippet) × (length candidate.snippet ≤ 2000))
    × ((1 ≤ length candidate.title) × (length candidate.title ≤ 255))
    × ((1 ≤ length candidate.meeting_date) × (length candidate.meeting_date ≤ 10))
    × (candidate.score ≤ one)

within-bounds :
    (limit : ℕ) (text found : Text)
    → within limit text ≡ some found
    → (1 ≤ length found) × (length found ≤ limit)
unfolding within
within-bounds limit text found h =
    elim (Bool-cases (leb 1 (length text) && leb (length text) limit)) [
      | inr outside ↦ cc (rw outside at h)
      | inl inside ↦ rw (← some_eq (rw inside at h)) (ground arith, ground arith)
    ]

title-bounds :
    (title : Option Text) (found : Text)
    → and_then title (within 255) ≡ some found
    → (1 ≤ length found) × (length found ≤ 255)
title-bounds none found h = cc
title-bounds (some title) found h = within-bounds 255 title found h

score_of-bound :
    (one : Score) (raw : RawScore) (score : Score) → score_of one raw ≡ some score → score ≤ one
unfolding score_of
score_of-bound one missing score h = rw (← some_eq h) (omega arith)
score_of-bound one unreadable score h = cc
score_of-bound one (number raw) score h = rw (← some_eq h) (omega arith)

module _ (server : Server) where
  candidate_of-All :
      (minutes_id : Option Uuid) (meeting_id : Option (Option Uuid))
      (title meeting_date snippet : Option Text) (score : Option Score)
      → ((t : Text) → title ≡ some t → (1 ≤ length t) × (length t ≤ 255))
      → ((t : Text) → meeting_date ≡ some t → (1 ≤ length t) × (length t ≤ 10))
      → ((t : Text) → snippet ≡ some t → (1 ≤ length t) × (length t ≤ 2000))
      → ((n : Score) → score ≡ some n → n ≤ server.one)
      → All
          (IsCandidate server.one)
          (candidate_of server minutes_id meeting_id title meeting_date snippet score)
  unfolding candidate_of
  candidate_of-All (some m) (some n) (some t) (some d) (some s) (some c) h g k q =
      ((k s refl, h t refl, g d refl, q c refl), tt)
  candidate_of-All _ _ _ _ _ _ h g k q = tt

  candidates_at-All :
      (point : MinutesPoint) (source_id : Option Text)
      → All (IsCandidate server.one) (candidates_at server point source_id)
  unfolding candidates_at
  candidates_at-All point none = tt
  candidates_at-All point (some []) = tt
  candidates_at-All point (some (c ∷ cs)) =
      candidate_of-All _ _ _ _ _ _ (λ t h. title-bounds point.payload.title t h)
        (λ t h. within-bounds 10 (meeting_date_of point.payload.approved_at) t h)
        (λ t h.
          within-bounds 2000
            (take 2000 (text_or [] (either point.payload.snippet point.payload.content))) t h)
        (λ n h. score_of-bound server.one point.score n h)

  to_candidates-All :
      (found : List MinutesPoint) → All (IsCandidate server.one) (to_candidates server found)
  unfolding to_candidates
  to_candidates-All [] = tt
  to_candidates-All (point ∷ rest) =
      All-append (IsCandidate server.one) (candidates_at server point _) (to_candidates server rest)
        (candidates_at-All point _) (to_candidates-All rest)

  candidates_in-All :
      (answer : Answer)
      → ((candidates : List FeedbackCandidate) × (candidates_in server answer ≡ returned candidates)
          × All (IsCandidate server.one) candidates)
        ⊎ ((message : Text) × (candidates_in server answer
              ≡ raised (ai (provider_unavailable_error message))))
  unfolding candidates_in
  candidates_in-All (points found) = inl (to_candidates server found, refl, to_candidates-All found)
  candidates_in-All (http_status status text) = inr (_, refl)
  candidates_in-All (failed reason) = inr (_, refl)

  -- A search for feedback gives candidates within the bounds of the schema, or it fails as an unavailable
  -- provider, which can be retried; it fails in no other way.
  pub search-All :
      (vector : server.Vector) (query : Text) (command : MeetingFeedbackCommand)
      → ((candidates : List FeedbackCandidate) × (search server vector query command
            ≡ returned candidates)
          × All (IsCandidate server.one) candidates)
        ⊎ ((message : Text) × (search server vector query command
              ≡ raised (ai (provider_unavailable_error message))))
  unfolding search
  search-All vector query command = candidates_in-All (server.ask _)
