-- ===== src/Corpus/Markers.antt =====
-- The line markers of app/corpus/parsers/continuous_para.py, and the joining of hard-wrapped lines.
use nbfc_compliance_agent.Prelude.{
  ℕ, ◌==◌, leb, Bool, not, ◌&&◌, ◌||◌, Option, none, some, List, [], ◌∷◌, ◌++◌, map, keep, any,
  is_none, if◌then◌else◌,
}
use nbfc_compliance_agent.Prelude.Regex.{
  Chars, Characters, Position, Matcher, one, ◌then◌, ◌or◌, empty, maybe, up_to, between, many,
  some_of, literal, group, end_of_line, word_boundary, any_char, match_re, group_of, fold,
}
use nbfc_compliance_agent.Prelude.Chars.{
  codes, is_space, is_nil, strip, strip_end, ends_in, nonempty_lines,
}

-- A marker line: the groups of the match.
pub record Marked : Type 0 where
  pub label : Chars
  pub body : Chars

space : Matcher
unfolding is_space
space = one is_space

letter_between : ℕ → ℕ → Matcher
letter_between low high = one (λ c. leb low c && leb c high)

-- The same with IGNORECASE, for small letters.
unfoldable pub any_case_between : ℕ → ℕ → Matcher
any_case_between low high = one (λ c. leb low (fold c) && leb (fold c) high)

unfoldable pub any_case : Chars → Matcher
any_case [] = empty
any_case (c ∷ cs) = one (λ d. fold d == c) then any_case cs

dot : Matcher
dot = one (λ c. c == b'.')

-- `\s+(\S.*)$` as the second group.
body_group : Matcher
body_group =
    some_of space then group 2 (one (λ c. not (is_space c)) then many any_char) then end_of_line

unfoldable pub optional_text : Option Chars → Chars
optional_text none = []
optional_text (some t) = t

marked : Option Position → Option Marked
unfolding optional_text
marked none = none
marked (some p) = some (record {
  label = optional_text (group_of 1 p.groups);
  body = optional_text (group_of 2 p.groups);
})

-- `[IVXLCDM]`
is_roman_capital : ℕ → Bool
is_roman_capital c = any (λ d. d == c) (codes "IVXLCDM")

is_dash : ℕ → Bool
is_dash c = c == b'-' || (c == 0x2013 || (c == 0x2014 || c == b':'))

-- _CHAPTER_RE
unfoldable pub match_chapter : Chars → Option Marked
unfolding marked space is_roman_capital is_dash
match_chapter line = marked (
    match_re
      (many space
        then literal (codes "CHAPTER")
        then some_of space
        then group 1 (some_of (one is_roman_capital))
        then many space
        then maybe (one is_dash)
        then many space
        then group 2 (many any_char)
        then end_of_line)
      line)

-- _SECTION_RE
unfoldable pub match_section : Chars → Option Marked
unfolding marked space letter_between dot body_group
match_section line =
    marked (match_re (many space then group 1 (letter_between 65 90) then dot then body_group) line)

-- `(?:x{0,3})(?:ix|iv|v?i{0,3})` with IGNORECASE
roman : Matcher
unfolding any_case
roman =
    up_to 3 (any_case (codes "x"))
    then (any_case (codes "ix")
        or any_case (codes "iv")
        or (maybe (any_case (codes "v")) then up_to 3 (any_case (codes "i"))))

-- _LEVEL2_ROMAN_RE
unfoldable pub match_level2_roman : Chars → Option Marked
unfolding marked space roman dot body_group
match_level2_roman line =
    marked (match_re (many space then group 1 roman then dot then body_group) line)

-- _LEVEL3_RE
unfoldable pub match_level3 : Chars → Option Marked
unfolding marked space letter_between body_group
match_level3 line = marked (
    match_re
      (many space
        then literal (codes "(")
        then group 1 (letter_between 97 122)
        then literal (codes ")")
        then body_group)
      line)

-- _NOTE_RE; the body is its only group.
unfoldable pub match_note : Chars → Option Marked
unfolding marked space any_case
match_note line = marked (
    match_re
      (many space
        then any_case (codes "note")
        then many space
        then maybe (one (λ c. c == b':' || c == b'.'))
        then many space
        then group 2 (many any_char)
        then end_of_line)
      line)

module _ (chars : Characters) where
  decimal : Matcher
  decimal = one chars.is_decimal

  -- _PARA_RE
  unfoldable pub match_para : Chars → Option Marked
  unfolding marked space letter_between dot body_group decimal
  match_para line = marked (
      match_re
        (many space
          then group 1 (between 1 3 decimal then maybe (letter_between 65 90))
          then dot
          then body_group)
        line)

  -- _LEVEL2_PAREN_NUM_RE
  unfoldable pub match_level2_paren : Chars → Option Marked
  unfolding marked space body_group decimal
  match_level2_paren line = marked (
      match_re
        (many space
          then literal (codes "(")
          then group 1 (between 1 2 decimal)
          then literal (codes ")")
          then body_group)
        line)

  -- `starts_marker`
  unfoldable pub starts_marker : Chars → Bool
  unfolding space any_case any_case_between dot decimal roman is_none
  starts_marker line = not (
      is_none (
        match_re
          ((any_case (codes "chapter") then space)
            or (any_case_between 97 122 then dot then space)
            or (between 1 3 decimal then maybe (any_case_between 97 122) then dot then space)
            or (literal (codes "(") then between 1 2 decimal then literal (codes ")") then space)
            or (literal (codes "(")
                then any_case_between 97 122
                then literal (codes ")")
                then space)
            or (roman then dot then space)
            or (any_case (codes "note") then word_boundary chars))
          line))

  unfoldable pub ends_sentence : Chars → Bool
  ends_sentence = ends_in (λ c. any (λ d. d == c) (codes ".:;?!"))

  -- The loop over the lines, with the line that is last in `joined`.
  unfoldable pub join_from : Chars → List Chars → List Chars
  unfolding ends_sentence
  join_from last [] = last ∷ []
  join_from last (line ∷ lines) =
      if not (ends_sentence (strip_end last)) && not (starts_marker line)
      then join_from (last ++ 32 ∷ line) lines
      else last ∷ join_from line lines

  unfoldable pub join_lines : List Chars → List Chars
  join_lines [] = []
  join_lines (line ∷ lines) = join_from line lines

  -- _join_hard_wraps
  unfoldable pub join_hard_wraps : Chars → List Chars
  unfolding join_lines join_from strip strip_end
  join_hard_wraps raw_text =
      join_lines (keep (λ l. not (is_nil l)) (map strip (nonempty_lines raw_text)))
