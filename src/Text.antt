-- ===== src/Text.antt =====
-- Python's `str` as the list of its code points, with the methods that the program calls.
-- The tables of `str.lower` and `str.casefold` are not copied: what folds case takes the function
-- as a parameter.
pub mod Laws
pub mod Lines
use Prim.Native.Char.{code}
use Prim.Native.String.{String}
use be25_fin_thanos_meetbowl.Prelude.{
  ℕ, zero, suc, ◌-◌, ◌+◌, Bool, true, false, not, ◌&&◌, ◌||◌, List, [], ◌∷◌, ◌++◌, leb, ltb,
  nat_beq, ◌/◌, ◌%◌, ◌==◌, length, null, if◌then◌else◌, Eq,
}

abbrev pub Text : Type 0
Text = List ℕ

-- A literal.
abbrev pub codes : String → Text
codes String.[] = []
codes (String.◌∷◌ c s) = code c ∷ codes s

-- `str.isspace` of one character.
unfoldable pub is_space : ℕ → Bool
is_space c =
    (leb 9 c && leb c 13)
    || (leb 28 c && leb c 32)
    || nat_beq c 0x85
    || nat_beq c 0xa0
    || nat_beq c 0x1680
    || (leb 0x2000 c && leb c 0x200a)
    || nat_beq c 0x2028
    || nat_beq c 0x2029
    || nat_beq c 0x202f
    || nat_beq c 0x205f
    || nat_beq c 0x3000

-- The characters at which `str.splitlines` breaks.
unfoldable pub is_line_break : ℕ → Bool
is_line_break c =
    (leb 10 c && leb c 13)
    || (leb 28 c && leb c 30)
    || nat_beq c 0x85
    || nat_beq c 0x2028
    || nat_beq c 0x2029

unfoldable pub lstrip : Text → Text
lstrip [] = []
lstrip (c ∷ s) = if is_space c then lstrip s else c ∷ s

-- The character stays if it is no space or if something stays after it.
abbrev pub keep : ℕ → Text → Text
keep c [] = if is_space c then [] else c ∷ []
keep c (d ∷ r) = c ∷ d ∷ r

unfoldable pub rstrip : Text → Text
rstrip [] = []
rstrip (c ∷ s) = keep c (rstrip s)

unfoldable pub strip : Text → Text
unfolding lstrip rstrip is_space
strip s = rstrip (lstrip s)

-- A character in front of the first piece.
abbrev pub prepend : ℕ → List Text → List Text
prepend c [] = (c ∷ []) ∷ []
prepend c (w ∷ ws) = (c ∷ w) ∷ ws

abbrev pub starts_word : Text → Bool
starts_word [] = false
starts_word (c ∷ s) = not (is_space c)

-- `s.split()`: the maximal runs of characters that are no spaces.
unfoldable pub split_words : Text → List Text
unfolding is_space
split_words [] = []
split_words (c ∷ s) =
    let rest = split_words s in
    if is_space c then rest else if starts_word s then prepend c rest else (c ∷ []) ∷ rest

abbrev pub starts_with : Text → Text → Bool
starts_with [] s = true
starts_with (p ∷ ps) [] = false
starts_with (p ∷ ps) (c ∷ s) = nat_beq p c && starts_with ps s

-- `p in s`
unfoldable pub is_infix : Text → Text → Bool
is_infix p [] = null p
is_infix p (c ∷ s) = starts_with p (c ∷ s) || is_infix p s

-- `s.split(sep)`; `skip` characters are the rest of a separator that was found.
unfoldable pub split_from : ℕ → Text → Text → List Text
split_from skip sep [] = [] ∷ []
split_from (suc skip) sep (c ∷ s) = split_from skip sep s
split_from zero sep (c ∷ s) = elim (starts_with sep (c ∷ s)) [
  | true ↦ [] ∷ split_from (length sep - 1) sep s
  | false ↦ prepend c (split_from 0 sep s)
]

abbrev pub split_on : Text → Text → List Text
split_on sep s = split_from 0 sep s

-- `\r\n` is one break.
abbrev pub completes_crlf : ℕ → Text → Bool
completes_crlf c [] = false
completes_crlf c (d ∷ s) = nat_beq c 13 && nat_beq d 10

unfoldable pub splitlines : Text → List Text
unfolding is_line_break
splitlines [] = []
splitlines (c ∷ s) =
    let rest = splitlines s in
    if is_line_break c then (if completes_crlf c s then rest else [] ∷ rest) else prepend c rest

-- `sep.join(pieces)`
unfoldable pub join : Text → List Text → Text
join sep [] = []
join sep (x ∷ []) = x
join sep (x ∷ y ∷ ys) = x ++ sep ++ join sep (y ∷ ys)

-- `" ".join(s.split())`
unfoldable pub collapse : Text → Text
unfolding join split_words
collapse s = join (codes " ") (split_words s)

-- `str(n)`: a number has no more digits than its value plus one.
unfoldable pub decimal_digits : ℕ → ℕ → Text
decimal_digits zero n = []
decimal_digits (suc fuel) n =
    let higher = decimal_digits fuel (n / 10) in
    if ltb n 10 then (48 + n) ∷ [] else higher ++ (48 + n % 10) ∷ []

unfoldable pub decimal : ℕ → Text
unfolding decimal_digits
decimal n = decimal_digits (suc n) n
