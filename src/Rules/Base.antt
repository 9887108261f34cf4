-- ===== src/Rules/Base.antt =====
-- app/rules/base.py: the fact index with its typed accessors, rule outcomes, and the interface
-- that every rule class implements.
use nbfc_compliance_agent.Prelude.{
  String, ◌==◌, Bool, true, false, not, Option, none, some, List, str_eq, if◌then◌else◌,
}
use nbfc_compliance_agent.Prelude.Int.{ℤ, pos}
use nbfc_compliance_agent.Prelude.Dict.{Dict, get, get_or}
use nbfc_compliance_agent.Prelude.Raises.{
  Raises, returned, raised, missing_fact, assertion_error, key_error, value_error, type_error,
  ◌>>=◌,
}
use nbfc_compliance_agent.Domain.Enums.{Verdict, decisive}
use nbfc_compliance_agent.Domain.Facts.{
  Date, DateTime, FactValue, date_value, datetime_value, time_value, money_value, rate_value,
  int_value, days_value, bool_value, enum_value, string_value, Fragment, words, decimal, iso_date,
  iso_datetime, iso_time, Text,
}
use nbfc_compliance_agent.Domain.Verdicts.{Citation, LoanAccountRef}

pub record RuleOutcome : Type 0 where
  pub verdict : Verdict
  pub citations : List Citation
  pub rationale : Text
  pub inputs_used : Dict Fragment

-- What `evaluate` returns: NOT_APPLICABLE, or an outcome.
pub data Evaluated : Type 0 where
  not_applicable : Evaluated
  outcome : RuleOutcome → Evaluated

pub record FactRecord : Type 0 where
  pub field_key : String
  pub value_normalized : Option FactValue
  pub is_absent : Bool

-- What the accessors and R04 take from the interpreter: how it reads a text as a date, a datetime
-- or an integer, the instant of a bare date's local midnight, and the float expression of R04.
pub record Interpreter : Type 0 where
  pub date_fromisoformat : String → Option Date
  pub datetime_fromisoformat : String → Option DateTime
  pub int_of_text : String → Option ℤ
  pub local_midnight : Date → DateTime
  pub fee_load_bps : (fees principal term_days : ℤ) → ℤ

pub record FactIndex : Type 0 where
  pub facts : Dict FactRecord
  pub python : Interpreter

present : String → FactRecord → Raises FactRecord
present field_key r = if r.is_absent then raised (missing_fact field_key) else returned r

unfoldable pub get_record : FactIndex → String → Raises FactRecord
unfolding present
get_record index field_key = elim (get index.facts field_key) [
  | none ↦ raised (missing_fact field_key)
  | some r ↦ present field_key r
]

unfoldable pub value : FactRecord → Raises FactValue
value r = elim r.value_normalized [
  | none ↦ raised (assertion_error r.field_key)
  | some v ↦ returned v
]

unfoldable pub fact : FactIndex → String → Raises FactValue
fact index field_key = do r ← get_record index field_key; value r

-- `bool(v["v"])`
truth : FactValue → Raises Bool
truth (int_value (pos n)) = returned (not (n == 0))
truth (bool_value b) = returned b
truth (enum_value s) = returned (not (str_eq s ""))
truth (string_value s) = returned (not (str_eq s ""))
truth (money_value p c) = raised key_error
truth (rate_value b) = raised key_error
truth (days_value d) = raised key_error
truth v = returned true

defaulting : Option Bool → Raises FactRecord → Raises Bool
unfolding truth
defaulting default (returned r) = do v ← value r; truth v
defaulting (some b) (raised (missing_fact k)) = returned b
defaulting default (raised e) = raised e

unfoldable pub flag_of : FactIndex → String → Option Bool → Raises Bool
unfolding defaulting value
flag_of index field_key default = defaulting default (get_record index field_key)

or_value_error {ℓ} : {A : Type ℓ} → Option A → Raises A
or_value_error none = raised value_error
or_value_error (some a) = returned a

-- `date.fromisoformat(v["v"])`
read_date : Interpreter → FactValue → Raises Date
unfolding or_value_error
read_date py (date_value d) = returned d
read_date py (datetime_value t) = raised value_error
read_date py (time_value t) = raised value_error
read_date py (enum_value s) = or_value_error (py.date_fromisoformat s)
read_date py (string_value s) = or_value_error (py.date_fromisoformat s)
read_date py (int_value n) = raised type_error
read_date py (bool_value b) = raised type_error
read_date py v = raised key_error

unfoldable pub date_of : FactIndex → String → Raises Date
unfolding read_date
date_of index field_key = do v ← fact index field_key; read_date index.python v

-- `datetime.fromisoformat(v["v"])`; a date's text is its midnight, in local time.
read_datetime : Interpreter → FactValue → Raises DateTime
unfolding or_value_error
read_datetime py (date_value d) = returned (py.local_midnight d)
read_datetime py (datetime_value t) = returned t
read_datetime py (time_value t) = raised value_error
read_datetime py (enum_value s) = or_value_error (py.datetime_fromisoformat s)
read_datetime py (string_value s) = or_value_error (py.datetime_fromisoformat s)
read_datetime py (int_value n) = raised type_error
read_datetime py (bool_value b) = raised type_error
read_datetime py v = raised key_error

unfoldable pub datetime_of : FactIndex → String → Raises DateTime
unfolding read_datetime
datetime_of index field_key = do v ← fact index field_key; read_datetime index.python v

read_paise : FactValue → Raises ℤ
read_paise (money_value p c) = returned p
read_paise v = raised key_error

unfoldable pub money_of : FactIndex → String → Raises ℤ
unfolding read_paise
money_of index field_key = do v ← fact index field_key; read_paise v

read_bps : FactValue → Raises ℤ
read_bps (rate_value b) = returned b
read_bps v = raised key_error

unfoldable pub bps_of : FactIndex → String → Raises ℤ
unfolding read_bps
bps_of index field_key = do v ← fact index field_key; read_bps v

-- `int(v["v"] if "v" in v else v["days"])`
read_int : Interpreter → FactValue → Raises ℤ
unfolding or_value_error
read_int py (int_value n) = returned n
read_int py (days_value n) = returned n
read_int py (bool_value b) = returned (if b then pos 1 else pos 0)
read_int py (enum_value s) = or_value_error (py.int_of_text s)
read_int py (string_value s) = or_value_error (py.int_of_text s)
read_int py (money_value p c) = raised key_error
read_int py (rate_value b) = raised key_error
read_int py v = raised value_error

unfoldable pub int_of : FactIndex → String → Raises ℤ
unfolding read_int
int_of index field_key = do v ← fact index field_key; read_int index.python v

-- `str(v["v"])`
read_string : FactValue → Raises Fragment
read_string (enum_value s) = returned (words s)
read_string (string_value s) = returned (words s)
read_string (date_value d) = returned (iso_date d)
read_string (datetime_value t) = returned (iso_datetime t)
read_string (time_value t) = returned (iso_time t)
read_string (int_value n) = returned (decimal n)
read_string (bool_value b) = returned (words (if b then "True" else "False"))
read_string v = raised key_error

unfoldable pub string_of : FactIndex → String → Raises Fragment
unfolding read_string
string_of index field_key = do v ← fact index field_key; read_string v

unfoldable pub has : FactIndex → String → Bool
has index field_key = elim (get index.facts field_key) [ none ↦ false | some r ↦ not r.is_absent ]

abbrev pub ClauseExcerpts : Type 0
ClauseExcerpts = Dict String

-- The citation that the rules build: decisive, with the clause's text, or none, as its excerpt.
unfoldable pub cite : ClauseExcerpts → String → Citation
cite clause_excerpts path = record {
  clause_path = path;
  role = decisive;
  quoted_clause_excerpt = get_or clause_excerpts path "";
  context_note = none;
}

pub record Rule : Type 0 where
  pub id : String
  pub check_key : String
  pub clause_paths : List String
  pub consumes : List String
  pub valid_from : Option Date
  pub evaluate : FactIndex → LoanAccountRef → Date → ClauseExcerpts → Raises Evaluated

-- A return of `RuleOutcome(verdict=…, citations=cite, rationale=…, inputs_used=…)`.
abbrev pub decide : Verdict → List Citation → Text → Dict Fragment → Raises Evaluated
decide verdict citations rationale inputs_used = returned (
    outcome (record {
      verdict = verdict;
      citations = citations;
      rationale = rationale;
      inputs_used = inputs_used;
    }))

abbrev pub Evaluate : Type 0
Evaluate = FactIndex → LoanAccountRef → Date → ClauseExcerpts → Raises Evaluated

-- The commencement dates date(2025, 11, 28) and date(2027, 1, 1), as ordinals.
abbrev pub rbc2025_effective : Date
rbc2025_effective = 739583

abbrev pub amendment_effective : Date
amendment_effective = 739982

-- The verdict of a call of `evaluate`, where it returns an outcome.
unfoldable pub verdict_of : Raises Evaluated → Option Verdict
verdict_of (returned (outcome o)) = some o.verdict
verdict_of r = none
