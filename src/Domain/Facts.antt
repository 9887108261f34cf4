-- ===== src/Domain/Facts.antt =====
-- app/domain/facts.py: typed fact values. A calendar date is its proleptic ordinal
-- (`date.toordinal()`), a time of day its microseconds after midnight. A datetime is its instant
-- in UTC, in microseconds since ordinal 0, with the offset that its text carries.
use nbfc_compliance_agent.Prelude.{ℕ, ◌*◌, String, Bool, false, List, str_eq}
use nbfc_compliance_agent.Prelude.Int.{ℤ, sub_ℕ}

abbrev pub Date : Type 0
Date = ℕ

pub record DateTime : Type 0 where
  pub instant : ℕ
  pub offset : ℤ

pub data FactValue : Type 0 where
  date_value : Date → FactValue
  datetime_value : DateTime → FactValue
  time_value : ℕ → FactValue
  money_value : (paise : ℤ) (currency : String) → FactValue
  rate_value : (bps : ℤ) → FactValue
  int_value : ℤ → FactValue
  days_value : (days : ℤ) → FactValue
  bool_value : Bool → FactValue
  enum_value : String → FactValue
  string_value : String → FactValue

-- A piece of text that the program formats: `words` is literal text, and the others are a value
-- under `str`, `isoformat`, `strftime("%H:%M")`, `.date().isoformat()` or `replace("_", " ")`.
pub data Fragment : Type 0 where
  words : String → Fragment
  decimal : ℤ → Fragment
  iso_date : Date → Fragment
  iso_datetime : DateTime → Fragment
  iso_time : ℕ → Fragment
  iso_date_of : DateTime → Fragment
  clock : ℕ → Fragment
  spaced : Fragment → Fragment

abbrev pub Text : Type 0
Text = List Fragment

-- `s == w` for a formatted value and a literal word that is no date, time or numeral.
unfoldable pub is_word : Fragment → String → Bool
is_word (words s) w = str_eq s w
is_word f w = false

-- Microseconds in an hour.
abbrev pub hour : ℕ
hour = 3600 * 1000000

-- `(later - earlier).days`
unfoldable pub days_between : Date → Date → ℤ
days_between later earlier = sub_ℕ later earlier
