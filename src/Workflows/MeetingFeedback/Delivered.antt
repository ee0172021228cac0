-- ===== src/Workflows/MeetingFeedback/Delivered.antt =====
-- What a feedback result promises.
use be25_fin_thanos_meetbowl.Prelude.{
  ℕ, ◌≤◌, min, max, ◌≡◌, refl, inl, inr, Bool, false, some, List, [], ◌∷◌, ◌++◌, map, arith, ltb,
  leb, leb→le, not-ltb→le, some_eq, Bool-cases, nat_eq, list_eq, option_eq, pair_eq, length, take,
  null, all, All, length-append, length-take, All-append, All-take, All-imp, length-map,
}
use be25_fin_thanos_meetbowl.Text.{Text, codes, collapse}
use be25_fin_thanos_meetbowl.Errors.{returned-eq, returned, >>=-eq-returned}
use be25_fin_thanos_meetbowl.Schemas.{Uuid, Moment}
use be25_fin_thanos_meetbowl.Schemas.Feedback.{
  FeedbackType, FeedbackCandidate, MeetingFeedbackCommand, MeetingFeedbackResult,
}
use be25_fin_thanos_meetbowl.Rag.FeedbackFilter.{all-sorted_users}
use be25_fin_thanos_meetbowl.Workflows.MeetingFeedback.{
  max_feedback_sources, max_source_snippet_length, Ports, truncate_text, compact_source, least,
  greatest, query_of, candidates_of, qualify, feedback_of, execute,
}

cut : (text : Text) → length (take 117 text ++ codes "...") ≤ 120
cut text = omega (arith, length-append (take 117 text) (codes "..."), length-take 117 text)

truncate_text-bound : (text : Text) → length (truncate_text text 120) ≤ 120
unfolding truncate_text
truncate_text-bound text = elim (Bool-cases (leb (length (collapse text)) 120)) [
  | inl fits ↦ rw fits (leb→le _ _ fits)
  | inr over ↦ rw over (cut (collapse text))
]

least-bound : (xs : List ℕ) (m : ℕ) → least xs ≡ returned m → All (λ x. m ≤ x) xs
unfolding least
least-bound [] m h = cc
least-bound (x ∷ []) m h = (rw (returned-eq h) (omega arith), tt)
least-bound (x ∷ y ∷ ys) m h =
    let (rest, found, e) = >>=-eq-returned (least (y ∷ ys)) _ h in
    let same : min x rest ≡ m = returned-eq e in
    (
      omega (arith, same),
      All-imp (λ z. rest ≤ z) (λ z. m ≤ z) (λ z k. omega (arith, same, k)) (y ∷ ys)
          (least-bound (y ∷ ys) rest found),
    )

greatest-bound : (xs : List ℕ) (m : ℕ) → greatest xs ≡ returned m → All (λ x. x ≤ m) xs
unfolding greatest
greatest-bound [] m h = cc
greatest-bound (x ∷ []) m h = (rw (returned-eq h) (omega arith), tt)
greatest-bound (x ∷ y ∷ ys) m h =
    let (rest, found, e) = >>=-eq-returned (greatest (y ∷ ys)) _ h in
    let same : max x rest ≡ m = returned-eq e in
    (
      omega (arith, same),
      All-imp (λ z. z ≤ rest) (λ z. z ≤ m) (λ z k. omega (arith, same, k)) (y ∷ ys)
          (greatest-bound (y ∷ ys) rest found),
    )

module _ (ports : Ports) where
  open ports use {embed, search, score_threshold, uuid_text}

  abbrev Passes : FeedbackCandidate × FeedbackType → Type 0
  Passes qualified = score_threshold ≤ qualified.0.score

  All-types :
      (candidate : FeedbackCandidate) (types : List FeedbackType)
      → score_threshold ≤ candidate.score
      → All Passes (map (λ type. (candidate, type)) types)
  All-types candidate [] h = tt
  All-types candidate (type ∷ types) h = (h, All-types candidate types h)

  qualify-Passes :
      (query : Text) (candidates : List FeedbackCandidate)
      → All Passes (qualify ports query candidates)
  unfolding qualify
  qualify-Passes query [] = tt
  qualify-Passes query (candidate ∷ candidates) =
      elim (Bool-cases (ltb candidate.score score_threshold)) [
        | inl low ↦ rw low (qualify-Passes query candidates)
        | inr enough ↦ rw enough (
            All-append Passes _ (qualify ports query candidates)
              (All-types candidate _ (not-ltb→le _ _ enough)) (qualify-Passes query candidates))
      ]

  -- Short enough to show, and of at least the threshold.
  abbrev pub IsEvidence : FeedbackCandidate → Type 0
  IsEvidence source =
      (length source.snippet ≤ max_source_snippet_length) × (score_threshold ≤ source.score)

  compact-IsEvidence :
      (qualified : List (FeedbackCandidate × FeedbackType))
      → All Passes qualified
      → All IsEvidence (map (λ q. compact_source q.0) qualified)
  unfolding compact_source
  compact-IsEvidence [] h = tt
  compact-IsEvidence (q ∷ qs) h =
      ((truncate_text-bound q.0.snippet, h.0), compact-IsEvidence qs h.1)

  -- One or two pieces of evidence, the range of the window, and the participants as the audience.
  pub record IsFeedback (command : MeetingFeedbackCommand) (result : MeetingFeedbackResult)
      : Type 0 where
    pub evidence : All IsEvidence result.sources
    pub some_sources : null result.sources ≡ false
    pub few_sources : length result.sources ≤ 2
    pub from_first :
        All
          (λ sequence. result.from_sequence ≤ sequence)
          (map (λ segment. segment.sequence) command.transcript_window)
    pub to_last :
        All
          (λ sequence. sequence ≤ result.to_sequence)
          (map (λ segment. segment.sequence) command.transcript_window)
    pub audience :
        (p : Uuid → Bool) → all p result.audience_user_ids ≡ all p command.participant_user_ids
    pub meeting : result.meeting_id ≡ command.meeting_id

  at_most_two :
      (q : FeedbackCandidate × FeedbackType) (qs : List (FeedbackCandidate × FeedbackType))
      → length (map (λ t. compact_source t.0) (take max_feedback_sources (q ∷ qs))) ≤ 2
  at_most_two q qs = omega (
    arith,
    length-map (take max_feedback_sources (q ∷ qs)) (λ t. compact_source t.0),
    length-take max_feedback_sources (q ∷ qs),
  )

  feedback_of-IsFeedback :
      (feedback_id : Uuid) (now : Moment) (command : MeetingFeedbackCommand)
      (qualified : List (FeedbackCandidate × FeedbackType)) (result : MeetingFeedbackResult)
      → All Passes qualified
      → feedback_of ports feedback_id now command qualified ≡ returned (some result)
      → IsFeedback command result
  unfolding feedback_of
  feedback_of-IsFeedback feedback_id now command [] result passes h = cc
  feedback_of-IsFeedback feedback_id now command ((top, type) ∷ rest) result passes h =
      let sequences = map (λ segment. segment.sequence) command.transcript_window in
      let (from_sequence, least_eq, h₁) = >>=-eq-returned (least sequences) _ h in
      let (to_sequence, greatest_eq, h₂) = >>=-eq-returned (greatest sequences) _ h₁ in
      rw (← some_eq (returned-eq h₂)) (record {
        evidence =
            compact-IsEvidence (take max_feedback_sources ((top, type) ∷ rest))
              (All-take Passes max_feedback_sources ((top, type) ∷ rest) passes);
        some_sources = refl;
        few_sources = at_most_two (top, type) rest;
        from_first = least-bound sequences from_sequence least_eq;
        to_last = greatest-bound sequences to_sequence greatest_eq;
        audience = λ p. all-sorted_users uuid_text p command.participant_user_ids;
        meeting = refl;
      })

  -- A feedback result has one or two sources, each of at least the threshold and with a snippet of at most
  -- 120 characters; its range contains the sequence of every segment of the window, and its audience are
  -- the participants.
  pub execute-IsFeedback :
      (feedback_id : Uuid) (now : Moment) (command : MeetingFeedbackCommand)
      (result : MeetingFeedbackResult)
      → execute ports feedback_id now command ≡ returned (some result)
      → IsFeedback command result
  unfolding execute
  execute-IsFeedback feedback_id now command result h =
      elim (Bool-cases (null (query_of ports command))) [
        | inl silent ↦ cc (rw silent at h)
        | inr spoken ↦
            let (candidates, _, h₁) =
              >>=-eq-returned (candidates_of ports command) _ (rw spoken at h) in
            feedback_of-IsFeedback feedback_id now command _ result
              (qualify-Passes (query_of ports command) candidates) h₁
      ]
