-- ===== src/Extract/Normalise.antt =====
-- app/extract/normalise.py: typed values of raw texts. `datetime.strptime`, `str.upper`, `int`, the
-- float of a rate, the text of code points and `datetime.combine` in India's zone are parameters.
use nbfc_compliance_agent.Prelude.{
  ℕ, zero, suc, ◌+◌, ◌-◌, ◌*◌, ◌%◌, ◌==◌, leb, String, Bool, true, false, ◌&&◌, ◌||◌, Option, none,
  some, List, [], ◌∷◌, ◌++◌, length, any, if◌then◌else◌,
}
use nbfc_compliance_agent.Prelude.Int.{ℤ}
use nbfc_compliance_agent.Prelude.Regex.{
  Chars, Characters, Position, Matcher, take, one, ◌then◌, ◌or◌, maybe, between, many, some_of,
  literal, group, end_of_line, match_re, fullmatch, group_of,
}
use nbfc_compliance_agent.Prelude.Chars.{
  codes, is_space, is_nil, strip, strip_start, starts_with, same,
}
use nbfc_compliance_agent.Domain.Facts.{Date, DateTime, hour}

-- What the code takes from the standard library.
pub record Library : Type 0 where
  pub strptime : (format : String) → Chars → Option Date
  pub upper : Chars → Chars
  pub int_of : Chars → Option ℤ
  pub bps_of : Chars → Option ℤ
  pub text_of : Chars → String
  pub localise : Date → ℕ → DateTime

-- The first format that fits; `NormalisationError` is none.
first_format : Library → Chars → List String → Option Date
first_format lib raw [] = none
first_format lib raw (f ∷ formats) =
    let later = first_format lib raw formats in
    elim (lib.strptime f raw) [ some d ↦ some d | none ↦ later ]

-- The ISO format, then the day-first ones.
unfoldable pub normalise_date : Library → Chars → Option Date
unfolding first_format strip
normalise_date lib raw =
    first_format lib (strip raw)
      ("%Y-%m-%d" ∷ "%d/%m/%Y" ∷ "%d-%m-%Y" ∷ "%d.%m.%Y" ∷ "%d %B %Y" ∷ "%d %b %Y" ∷ [])

-- `int` of digits.
unfoldable pub number : Characters → ℕ → Chars → ℕ
number chars v [] = v
number chars v (c ∷ cs) = number chars (v * 10 + chars.digit_value c) cs

unfoldable pub text_or_empty : Option Chars → Chars
text_or_empty none = []
text_or_empty (some t) = t

-- Microseconds in a minute.
abbrev pub minute : ℕ
minute = 60 * 1000000

digit_between : ℕ → ℕ → Matcher
digit_between low high = one (λ c. leb low c && leb c high)

unfoldable pub drop_end : ℕ → Chars → Chars
drop_end n cs = take (length cs - n) cs

unfoldable pub ends_with : Chars → Chars → Bool
ends_with [] s = true
ends_with suffix [] = false
ends_with suffix (c ∷ cs) = same (c ∷ cs) suffix || ends_with suffix cs

-- The label of the time zone is taken off.
without_ist : Library → Chars → Chars
without_ist lib raw =
    if ends_with (codes " IST") (lib.upper raw) then strip (drop_end 4 raw) else raw

module _ (chars : Characters) (lib : Library) where
  decimal : Matcher
  decimal = one chars.is_decimal

  -- _TIME_24H_RE
  match_24h : Chars → Option Position
  unfolding digit_between decimal
  match_24h raw =
      match_re
        (group 1 (
            (maybe (digit_between 48 49) then decimal)
            or (literal (codes "2") then digit_between 48 51))
          then literal (codes ":")
          then group 2 (digit_between 48 53 then decimal)
          then end_of_line)
        raw

  -- _TIME_12H_RE
  match_12h : Chars → Option Position
  unfolding digit_between decimal is_space
  match_12h raw =
      match_re
        (group 1 (between 1 2 decimal)
          then literal (codes ":")
          then group 2 (digit_between 48 53 then decimal)
          then many (one is_space)
          then group 3 (
              one (λ c. any (λ d. d == c) (codes "APap"))
              then one (λ c. any (λ d. d == c) (codes "Mm")))
          then end_of_line)
        raw

  int_group : ℕ → Position → ℕ
  unfolding text_or_empty
  int_group n p = number chars 0 (text_or_empty (group_of n p.groups))

  time_of : ℕ → ℕ → ℕ
  time_of h m = h * hour + m * minute

  -- The time of day, in microseconds after midnight.
  unfoldable pub normalise_time : Chars → Option ℕ
  unfolding without_ist match_24h match_12h int_group time_of text_or_empty strip
  normalise_time raw =
      let text = without_ist lib (strip raw) in
      elim (match_24h text) [
        | some p ↦ some (time_of (int_group 1 p) (int_group 2 p))
        | none ↦ elim (match_12h text) [
          | none ↦ none
          | some p ↦ some (
              time_of
                (int_group 1 p % 12
                  + (if same (chars.lower (text_or_empty (group_of 3 p.groups))) (codes "pm")
                      then 12
                      else 0))
                (int_group 2 p))
        ]
      ]

  -- `s.replace(needle, "")`, for a needle that is not empty; the number is what is still to be left out.
  remove_go : Chars → ℕ → Chars → Chars
  remove_go needle skip [] = []
  remove_go needle (suc k) (c ∷ cs) = remove_go needle k cs
  remove_go needle zero (c ∷ cs) = elim (starts_with needle (c ∷ cs)) [
    | true ↦ remove_go needle (length needle - 1) cs
    | false ↦ c ∷ remove_go needle 0 cs
  ]

  unfoldable pub remove : Chars → Chars → Chars
  unfolding remove_go
  remove needle s = remove_go needle 0 s

  -- The text without the signs of the currency, the suffix and the commas.
  unfoldable pub clean_money : Chars → Chars
  unfolding remove strip ends_with drop_end
  clean_money raw =
      let bare = strip (remove (codes "Rs") (remove (codes "Rs.") (remove (0x20b9 ∷ []) raw))) in
      remove (codes ",") (strip (if ends_with (codes "/-") bare then drop_end 2 bare else bare))

  -- `m.group(2) or "0"`, then two digits of it.
  paise_fraction : Option Chars → Chars
  paise_fraction none = take 2 (codes "000")
  paise_fraction (some f) = take 2 ((if is_nil f then codes "0" else f) ++ codes "00")

  unfoldable pub normalise_money_to_paise : Chars → Option ℕ
  unfolding decimal paise_fraction int_group
  normalise_money_to_paise raw =
      elim (fullmatch
        (group 1 (some_of decimal)
          then maybe (literal (codes ".") then group 2 (between 1 2 decimal)))
        (clean_money raw)) [
          | none ↦ none
          | some p ↦
              some (int_group 1 p * 100 + number chars 0 (paise_fraction (group_of 2 p.groups)))
        ]

  -- The days of a unit: a month is 30 and a year 365.
  days_of : ℕ → Chars → ℕ
  days_of value unit =
      if starts_with (codes "month") unit
      then value * 30
      else if starts_with (codes "year") unit
      then value * 365
      else value

  unfoldable pub normalise_duration_days : Chars → Option ℕ
  unfolding decimal is_space int_group days_of text_or_empty strip
  normalise_duration_days raw =
      elim (match_re
        (group 1 (some_of decimal)
          then many (one is_space)
          then maybe (
              group 2 (
                literal (codes "day")
                or literal (codes "days")
                or literal (codes "month")
                or literal (codes "months")
                or literal (codes "year")
                or literal (codes "years")))
          then end_of_line)
        (chars.lower (strip raw))) [
          | none ↦ none
          | some p ↦ some (days_of (int_group 1 p) (text_or_empty (group_of 2 p.groups)))
        ]

-- `raw.split(maxsplit=1)`: the first word, and what follows the white space after it.
first_word : Chars → Chars × Chars
unfolding strip_start
first_word [] = ([], [])
first_word (c ∷ cs) =
    let (word, rest) = first_word cs in
    if is_space c then ([], strip_start cs) else (c ∷ word, rest)

-- parse_full_datetime, with normalise_datetime
unfoldable pub parse_full_datetime : Characters → Library → Chars → Option DateTime
unfolding first_word is_nil strip
parse_full_datetime chars lib raw =
    let (word, rest) = first_word (strip raw) in
    elim (normalise_date lib word) [
      | none ↦ none
      | some d ↦
          if is_nil rest then some (lib.localise d 0) else elim (normalise_time chars lib rest) [
            | none ↦ none
            | some t ↦ some (lib.localise d t)
          ]
    ]
