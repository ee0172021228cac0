-- ===== src/Pipelines/Transcript/Marks.antt =====
-- What marking the suspicious segments changes.
use be25_fin_thanos_meetbowl.Prelude.{
  ℕ, ◌+◌, ◌≤◌, ◌≡◌, refl, ap, Bool, true, false, List, [], ◌∷◌, map, arith, All, length,
}
use be25_fin_thanos_meetbowl.Text.{strip}
use be25_fin_thanos_meetbowl.Schemas.Minutes.{TranscriptSegment}
use be25_fin_thanos_meetbowl.Pipelines.Transcript.{
  Script, is_mainstream, dominant_script, is_suspicious_outlier, mark_from,
  mark_suspicious_segments,
}

-- A segment that is marked is short and written in kana or Chinese characters alone.
abbrev pub IsNoiseIfMarked : TranscriptSegment → Type 0
IsNoiseIfMarked segment =
    segment.suspicious ≡ true
    → (length (strip segment.source_text) ≤ 24)
      × (is_mainstream (dominant_script segment.source_text) ≡ false)

-- A segment without its mark.
abbrev pub unmarked : TranscriptSegment → TranscriptSegment
unmarked segment = record segment { suspicious = false }

module _ (is_alpha : ℕ → Bool) where
  outlier_is_noise :
      (segment : TranscriptSegment) (index : ℕ) (scripts : List Script)
      → is_suspicious_outlier is_alpha segment index scripts ≡ true
      → (length (strip segment.source_text) ≤ 24)
        × (is_mainstream (dominant_script segment.source_text) ≡ false)
  unfolding is_suspicious_outlier
  outlier_is_noise segment index scripts h = (ground arith, ground arith)

  mark_from_lem :
      (index : ℕ) (scripts : List Script) (segments : List TranscriptSegment)
      → All IsNoiseIfMarked (mark_from is_alpha index scripts segments)
        × (map unmarked (mark_from is_alpha index scripts segments) ≡ map unmarked segments)
  unfolding mark_from
  mark_from_lem index scripts [] = (tt, refl)
  mark_from_lem index scripts (segment ∷ segments) =
      let (noise, same) = mark_from_lem (index + 1) scripts segments in
      ((outlier_is_noise segment index scripts, noise), ap (λ rest. unmarked segment ∷ rest) same)

  -- Marking changes nothing but the marks, and a segment that is marked is at most 24 characters long
  -- and not mainly written in Hangul, Latin letters or a mixture.
  pub mark_suspicious_segments_lem :
      (segments : List TranscriptSegment)
      → All IsNoiseIfMarked (mark_suspicious_segments is_alpha segments)
        × (map unmarked (mark_suspicious_segments is_alpha segments) ≡ map unmarked segments)
  unfolding mark_suspicious_segments
  mark_suspicious_segments_lem segments =
      mark_from_lem 0 (map (λ segment. dominant_script segment.source_text) segments) segments
