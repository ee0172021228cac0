-- ===== src/Providers/AnswerFormat.antt =====
-- The answer's text in app/providers/pydantic_ai_chat.py: `_normalize_answer_format` and what it calls.
-- The regular expressions (`re`) and the parser and `unescape` of `html` are parameters.
use be25_fin_thanos_meetbowl.Prelude.{
  Bool, not, ◌||◌, Option, none, some, List, [], ◌∷◌, ◌++◌, map, leb, if◌then◌else◌, ◌==◌, nat_eq,
  list_eq, option_eq, pair_eq, contains, length, null, select,
}
use be25_fin_thanos_meetbowl.Text.{Text, codes, strip, splitlines, join}

-- What `HTMLParser` calls its handlers with.
pub data HtmlEvent : Type 0 where
  start_tag end_tag data_text : Text → HtmlEvent

-- A field per regular expression, and the parser.
pub record Patterns : Type 0 where
  pub remove_markers : Text → Text
  pub tighten_punctuation : Text → Text
  pub squeeze_blanks : Text → Text
  pub is_heading : Text → Bool
  pub has_tag : Text → Bool
  pub feed : Text → List HtmlEvent
  pub unescape : Text → Text
  pub trim_line_ends : Text → Text
  pub trim_line_starts : Text → Text
  pub squeeze_lines : Text → Text
  pub split_sentences : Text → List Text

abbrev pub block_tags : List Text
block_tags =
    codes "p"
    ∷ codes "div"
    ∷ codes "ul"
    ∷ codes "ol"
    ∷ codes "section"
    ∷ codes "h1"
    ∷ codes "h2"
    ∷ codes "h3"
    ∷ []

-- The parts that a handler appends.
unfoldable pub handle : HtmlEvent → List Text
handle (start_tag tag) =
    if tag == codes "li"
    then codes "\n- " ∷ []
    else if tag == codes "br"
    then codes "\n" ∷ []
    else if contains tag block_tags
    then codes "\n" ∷ []
    else []
handle (end_tag tag) = if tag == codes "li" || contains tag block_tags then codes "\n" ∷ [] else []
handle (data_text text) = text ∷ []

unfoldable pub html_parts : List HtmlEvent → List Text
unfolding handle
html_parts [] = []
html_parts (event ∷ events) = handle event ++ html_parts events

-- Groups of three.
unfoldable pub paragraphs_of : List Text → List Text
paragraphs_of [] = []
paragraphs_of (a ∷ []) = a ∷ []
paragraphs_of (a ∷ b ∷ []) = join (codes " ") (a ∷ b ∷ []) ∷ []
paragraphs_of (a ∷ b ∷ c ∷ rest) = join (codes " ") (a ∷ b ∷ c ∷ []) ∷ paragraphs_of rest

unfoldable pub group_sentences : Text → List Text → Text
unfolding paragraphs_of
group_sentences cleaned sentences =
    if leb 3 (length sentences) then join (codes "\n\n") (paragraphs_of sentences) else cleaned

module _ (patterns : Patterns) where
  open patterns use {is_heading, has_tag}

  unfoldable pub strip_citation_markers : Text → Text
  strip_citation_markers text =
      strip (patterns.squeeze_blanks (patterns.tighten_punctuation (patterns.remove_markers text)))

  -- The lines before the first heading of sources, if there is one.
  unfoldable pub before_heading : List Text → Option (List Text)
  before_heading [] = none
  before_heading (line ∷ lines) =
      let rest = before_heading lines in
      if is_heading line
      then some []
      else (elim rest [ none ↦ none | some kept ↦ some (line ∷ kept) ])

  unfoldable pub strip_source_footer : Text → Text
  unfolding before_heading
  strip_source_footer text = elim (before_heading (splitlines text)) [
    | none ↦ strip text
    | some lines ↦ strip (join (codes "\n") lines)
  ]

  unfoldable pub without_html : Text → Text
  unfolding html_parts
  without_html cleaned =
      if has_tag cleaned
      then patterns.unescape (join [] (html_parts (patterns.feed cleaned)))
      else cleaned

  unfoldable pub normalize_answer_format : Text → Text
  unfolding strip_citation_markers strip_source_footer without_html group_sentences
  normalize_answer_format text =
      let plain = without_html (strip_source_footer (strip_citation_markers text)) in
      let cleaned =
        strip
          (patterns.squeeze_lines (patterns.trim_line_starts (patterns.trim_line_ends plain))) in
      if contains 10 cleaned
      then cleaned
      else group_sentences cleaned
          (select (λ sentence. not (null sentence)) (map strip (patterns.split_sentences cleaned)))
