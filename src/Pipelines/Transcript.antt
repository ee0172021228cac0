-- ===== src/Pipelines/Transcript.antt =====
-- app/pipelines/transcript.py: a transcript as lines, lines as segments, and the segments that look like
-- noise. `is_alpha` is `str.isalpha` of one character.
pub mod Marks
pub mod Segments
use be25_fin_thanos_meetbowl.Prelude.{
  ℕ, ◌+◌, ◌-◌, Bool, true, false, not, ◌&&◌, ◌||◌, none, List, [], ◌∷◌, ◌++◌, map, ltb, leb,
  nat_beq, if◌then◌else◌, nat_eq, list_eq, contains, length, take, drop, null, select,
}
use be25_fin_thanos_meetbowl.Text.{Text, codes, splitlines, collapse, join, is_infix, strip}
use be25_fin_thanos_meetbowl.Schemas.Minutes.{TranscriptSegment}
use be25_fin_thanos_meetbowl.Pipelines.Quality.{is_hangul, is_latin}

-- The lines that say nothing.
abbrev pub share_labels : List Text
share_labels = codes "공유 링크 복사" ∷ codes "공유 링크" ∷ codes "링크 복사" ∷ []

unfoldable pub is_spoken : Text → Bool
is_spoken line =
    not (null line)
    && not (is_infix (codes "http://") line)
    && not (is_infix (codes "https://") line)
    && not (is_infix (codes "www.") line)
    && not (contains line share_labels)

-- `filtered_lines`
unfoldable pub spoken_lines : Text → List Text
unfolding is_spoken
spoken_lines raw_transcript = select is_spoken (map collapse (splitlines raw_transcript))

unfoldable pub normalize_raw_transcript : Text → Text
unfolding spoken_lines
normalize_raw_transcript raw_transcript = join (codes "\n") (spoken_lines raw_transcript)

-- `enumerate`, without the empty lines.
unfoldable pub segments_from : ℕ → List Text → List TranscriptSegment
segments_from index [] = []
segments_from index (line ∷ lines) =
    let rest = segments_from (index + 1) lines in
    if null line
    then rest
    else record {
      segment_id = none;
      sequence = index;
      language = none;
      source_text = line;
      started_at_ms = none;
      ended_at_ms = none;
      suspicious = false;
    }
      ∷ rest

unfoldable pub transcript_to_segments : Text → List TranscriptSegment
unfolding segments_from normalize_raw_transcript
transcript_to_segments raw_transcript =
    segments_from 1 (splitlines (normalize_raw_transcript raw_transcript))

pub data Script : Type 0 where
  hangul latin hiragana_katakana han mixed other : Script

abbrev pub same_script : Script → Script → Bool
same_script hangul hangul = true
same_script latin latin = true
same_script hiragana_katakana hiragana_katakana = true
same_script han han = true
same_script mixed mixed = true
same_script other other = true
same_script _ _ = false

-- `{"hangul", "latin", "mixed"}`
abbrev pub is_mainstream : Script → Bool
is_mainstream hangul = true
is_mainstream latin = true
is_mainstream mixed = true
is_mainstream _ = false

abbrev pub is_other : Script → Bool
is_other other = true
is_other _ = false

abbrev pub is_kana : ℕ → Bool
is_kana c = leb 0x3040 c && leb c 0x30ff

abbrev pub is_han : ℕ → Bool
is_han c = leb 0x4e00 c && leb c 0x9fff

unfoldable pub script_counts : Text → List (Script × ℕ)
script_counts text =
    (hangul, length (select is_hangul text))
    ∷ (latin, length (select is_latin text))
    ∷ (hiragana_katakana, length (select is_kana text))
    ∷ (han, length (select is_han text))
    ∷ []

-- `max(counts, key=counts.get)`: of several largest counts the first.
unfoldable pub first_max : Script × ℕ → List (Script × ℕ) → Script × ℕ
first_max best [] = best
first_max best (entry ∷ entries) = first_max (if ltb best.1 entry.1 then entry else best) entries

unfoldable pub dominant_script : Text → Script
unfolding script_counts first_max
dominant_script text =
    let counts = script_counts text in
    let (best_script, best_count) = first_max (hangul, 0) counts in
    let active_scripts = length (select (λ entry. ltb 0 entry.1) counts) in
    if nat_beq best_count 0
    then other
    else if leb 2 active_scripts && ltb 0 (length (select is_hangul text))
    then mixed
    else best_script

-- The scripts at the positions up to two away from an index, without the index itself.
unfoldable pub nearby : ℕ → List Script → List Script
nearby index scripts =
    take (index - (index - 2)) (drop (index - 2) scripts) ++ take 2 (drop (index + 1) scripts)

module _ (is_alpha : ℕ → Bool) where
  unfoldable pub is_suspicious_outlier : TranscriptSegment → ℕ → List Script → Bool
  is_suspicious_outlier segment index dominant_scripts =
      let script = dominant_script segment.source_text in
      let text = strip segment.source_text in
      let neighbors = nearby index dominant_scripts in
      if is_mainstream script || is_other script
      then false
      else if ltb 24 (length text)
      then false
      else if ltb (length (select is_alpha text)) 2
      then false
      else if leb 1 (length (select (same_script script) neighbors))
      then false
      else leb 1 (length (select is_mainstream neighbors))

  unfoldable pub mark_from : ℕ → List Script → List TranscriptSegment → List TranscriptSegment
  unfolding is_suspicious_outlier
  mark_from index scripts [] = []
  mark_from index scripts (segment ∷ segments) =
      record segment { suspicious = is_suspicious_outlier segment index scripts }
      ∷ mark_from (index + 1) scripts segments

  unfoldable pub mark_suspicious_segments : List TranscriptSegment → List TranscriptSegment
  unfolding mark_from dominant_script
  mark_suspicious_segments segments =
      mark_from 0 (map (λ segment. dominant_script segment.source_text) segments) segments
