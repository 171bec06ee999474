-- ===== src/Common/Text.antt =====
-- Functions on texts that the handlers use: `strip_prefix`, `trim`, `lines`, `split` and `parse`.
use Prim.Native.Char.{Char, code}
use Prim.Native.String.{String}
use tekes_memory.Prelude.{
  ℕ, ◌+◌, ◌-◌, ◌*◌, ◌^◌, leb, ltb, nat_eq, Bool, true, false, ◌&&◌, ◌||◌, List, [], ◌∷◌, Option,
  none, some, if◌then◌else◌,
}
use text.Mathlib.Text.{find?}

-- `s.strip_prefix(p)`
unfoldable pub strip_prefix : String → String → Option String
strip_prefix String.[] s = some s
strip_prefix (String.◌∷◌ c p) String.[] = none
strip_prefix (String.◌∷◌ c p) (String.◌∷◌ d s) =
    let rest = strip_prefix p s in if nat_eq (code c) (code d) then rest else none

-- `s.contains(t)`
abbrev pub contains_text : String → String → Bool
contains_text s t = elim (find? s t) [ none ↦ false | some _ ↦ true ]

-- `char::is_whitespace`
unfoldable pub is_whitespace : ℕ → Bool
is_whitespace c =
    (leb 9 c && leb c 13)
    || nat_eq c 32
    || nat_eq c 133
    || nat_eq c 160
    || nat_eq c 5760
    || (leb 8192 c && leb c 8202)
    || nat_eq c 8232
    || nat_eq c 8233
    || nat_eq c 8239
    || nat_eq c 8287
    || nat_eq c 12288

unfoldable pub trim_start : String → String
unfolding is_whitespace
trim_start String.[] = String.[]
trim_start (String.◌∷◌ c s) =
    let rest = trim_start s in if is_whitespace (code c) then rest else String.◌∷◌ c s

-- A character before a text whose end is trimmed.
abbrev cons_trimmed : Char → String → String
cons_trimmed c String.[] = if is_whitespace (code c) then String.[] else String.◌∷◌ c String.[]
cons_trimmed c (String.◌∷◌ d s) = String.◌∷◌ c (String.◌∷◌ d s)

unfoldable pub trim_end : String → String
unfolding is_whitespace
trim_end String.[] = String.[]
trim_end (String.◌∷◌ c s) = cons_trimmed c (trim_end s)

-- `split(';').next()`
unfoldable pub before_semicolon : String → String
before_semicolon String.[] = String.[]
before_semicolon (String.◌∷◌ c s) =
    let rest = String.◌∷◌ c (before_semicolon s) in if nat_eq (code c) 59 then String.[] else rest

-- The value of a run of digits with what was read before, if there is no other character.
unfoldable pub read_digits : ℕ → String → Option ℕ
read_digits n String.[] = some n
read_digits n (String.◌∷◌ c s) =
    let rest = read_digits (n * 10 + (code c - 48)) s in
    if leb 48 (code c) && leb (code c) 57 then rest else none

abbrev fits_usize : Option ℕ → Option ℕ
fits_usize none = none
fits_usize (some n) = if ltb n (2 ^ 64) then some n else none

-- Digits, at least one.
unfoldable pub read_number : String → Option ℕ
unfolding read_digits
read_number String.[] = none
read_number (String.◌∷◌ c s) = fits_usize (read_digits 0 (String.◌∷◌ c s))

-- `parse::<usize>()`: a plus sign may stand before the digits.
unfoldable pub parse_usize : String → Option ℕ
unfolding read_number
parse_usize String.[] = none
parse_usize (String.◌∷◌ c s) =
    if nat_eq (code c) 43 then read_number s else read_number (String.◌∷◌ c s)

-- `replace("\r\n", "\n")`
unfoldable pub unix_lines : String → String
unix_lines (String.◌∷◌ c (String.◌∷◌ d s)) =
    let kept = String.◌∷◌ c (unix_lines (String.◌∷◌ d s)) in
    let joined = unix_lines (String.◌∷◌ d s) in
    if nat_eq (code c) 13 && nat_eq (code d) 10 then joined else kept
unix_lines s = s

-- A character before the first of several texts.
abbrev pub cons_first : Char → List String → List String
cons_first c [] = String.◌∷◌ c String.[] ∷ []
cons_first c (t ∷ ts) = String.◌∷◌ c t ∷ ts

-- `split("\n")`
unfoldable pub split_newline : String → List String
split_newline String.[] = String.[] ∷ []
split_newline (String.◌∷◌ c s) =
    let rest = split_newline s in if nat_eq (code c) 10 then String.[] ∷ rest else cons_first c rest

-- `split("\n\n")`
unfoldable pub split_blank : String → List String
split_blank (String.◌∷◌ c (String.◌∷◌ d s)) =
    let frames = String.[] ∷ split_blank s in
    let rest = cons_first c (split_blank (String.◌∷◌ d s)) in
    if nat_eq (code c) 10 && nat_eq (code d) 10 then frames else rest
split_blank s = s ∷ []

-- `strip_suffix('\r')`, if it is there
unfoldable pub strip_return : String → String
strip_return String.[] = String.[]
strip_return (String.◌∷◌ c String.[]) =
    if nat_eq (code c) 13 then String.[] else String.◌∷◌ c String.[]
strip_return (String.◌∷◌ c (String.◌∷◌ d s)) = String.◌∷◌ c (strip_return (String.◌∷◌ d s))

-- Each line that ends in a newline loses a carriage return; a last line with nothing in it is none.
unfoldable pub finish_lines : List String → List String
unfolding strip_return
finish_lines [] = []
finish_lines (String.[] ∷ []) = []
finish_lines (t ∷ []) = t ∷ []
finish_lines (t ∷ u ∷ ts) = strip_return t ∷ finish_lines (u ∷ ts)

-- `lines()`
unfoldable pub lines : String → List String
unfolding split_newline finish_lines
lines s = finish_lines (split_newline s)
