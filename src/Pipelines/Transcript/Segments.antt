-- ===== src/Pipelines/Transcript/Segments.antt =====
-- The segments of a transcript are its lines.
use be25_fin_thanos_meetbowl.Prelude.{
  ℕ, ◌+◌, ◌≡◌, refl, ap, inl, inr, true, false, List, [], ◌∷◌, map, arith, Bool-cases, All, null,
  select,
}
use be25_fin_thanos_meetbowl.Text.{Text, splitlines, collapse}
use be25_fin_thanos_meetbowl.Text.Lines.{unbroken, unbroken-collapse, splitlines-join}
use be25_fin_thanos_meetbowl.Schemas.Minutes.{TranscriptSegment}
use be25_fin_thanos_meetbowl.Pipelines.Transcript.{
  is_spoken, spoken_lines, normalize_raw_transcript, segments_from, transcript_to_segments,
}

-- Numbered one after the other.
abbrev pub Numbered : ℕ → List TranscriptSegment → Type 0
Numbered index [] = Unit
Numbered index (segment ∷ segments) = (segment.sequence ≡ index) × Numbered (index + 1) segments

kept_unbroken :
    (lines : List Text) → All (λ l. unbroken l ≡ true) (select is_spoken (map collapse lines))
kept_unbroken [] = tt
kept_unbroken (line ∷ lines) = elim (Bool-cases (is_spoken (collapse line))) [
  | inl spoken ↦ rw spoken (unbroken-collapse line, kept_unbroken lines)
  | inr silent ↦ rw silent (kept_unbroken lines)
]

kept_present : (lines : List Text) → All (λ l. null l ≡ false) (select is_spoken lines)
unfolding is_spoken
kept_present [] = tt
kept_present (line ∷ lines) = elim (Bool-cases (is_spoken line)) [
  | inl spoken ↦ rw spoken (ground arith, kept_present lines)
  | inr silent ↦ rw silent (kept_present lines)
]

segments_from-lines :
    (index : ℕ) (lines : List Text)
    → All (λ l. null l ≡ false) lines
    → (map (λ s. s.source_text) (segments_from index lines) ≡ lines)
      × Numbered index (segments_from index lines)
unfolding segments_from
segments_from-lines index [] h = (refl, tt)
segments_from-lines index (line ∷ lines) h =
    let (same, numbered) = segments_from-lines (index + 1) lines h.1 in
    rw h.0 (ap (λ rest. line ∷ rest) same, (refl, numbered))

-- The segments of a transcript are exactly the lines that the normalization keeps, in their order, each
-- with its white space collapsed, and they are numbered 1, 2, 3, …
pub transcript_to_segments_lem :
    (raw_transcript : Text)
    → (map (λ s. s.source_text) (transcript_to_segments raw_transcript)
        ≡ spoken_lines raw_transcript)
      × Numbered 1 (transcript_to_segments raw_transcript)
unfolding transcript_to_segments normalize_raw_transcript spoken_lines
transcript_to_segments_lem raw_transcript =
    rw
      (splitlines-join (spoken_lines raw_transcript) (kept_unbroken (splitlines raw_transcript))
        (kept_present (map collapse (splitlines raw_transcript))))
      (segments_from-lines 1 (spoken_lines raw_transcript)
        (kept_present (map collapse (splitlines raw_transcript))))
