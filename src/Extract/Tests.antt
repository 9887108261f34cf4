-- ===== src/Extract/Tests.antt =====
-- Extraction (app/extract) on a short document.
use mathlib.Core.List.{Perm}
use nbfc_compliance_agent.Prelude.{
  ℕ, ◌+◌, ◌-◌, leb, String, ◌≡◌, refl, true, false, ◌&&◌, ◌||◌, ◌==◌, none, some, List, [], ◌∷◌,
  map, arith, if◌then◌else◌,
}
use nbfc_compliance_agent.Prelude.Int.{pos}
use nbfc_compliance_agent.Prelude.Regex.{Characters}
use nbfc_compliance_agent.Prelude.Chars.{codes, is_nil, contains, starts_with}
use nbfc_compliance_agent.Extract.Normalise.{Library}
use nbfc_compliance_agent.Extract.Redact.{redact}
use nbfc_compliance_agent.Extract.Spans.{DocumentRow, verify_span, min, truncate_longest_first}
use nbfc_compliance_agent.Extract.Budget.{
  admit_all, admit_all-used, sum, Descending, Cut, truncate_longest_first-total,
}
use nbfc_compliance_agent.Extract.Service.{FieldSpec, ValueType, FieldExtraction, FactRow, evidence}
use nbfc_compliance_agent.Extract.Evidence.{truncated_quote_whole}

abbrev pub ascii : Characters
ascii = record {
  is_decimal = λ c. leb 48 c && leb c 57;
  is_digit = λ c. leb 48 c && leb c 57;
  digit_value = λ c. c - 48;
  is_word = λ c.
      (leb 48 c && leb c 57) || ((leb 65 c && leb c 90) || ((leb 97 c && leb c 122) || c == 95));
  lower = λ cs. map (λ c. if leb 65 c && leb c 90 then c + 32 else c) cs;
  decimal = λ n. (48 + n) ∷ [];
}

abbrev pub library : Library
library = record {
  strptime = λ f raw. none;
  upper = λ cs. map (λ c. if leb 97 c && leb c 122 then c - 32 else c) cs;
  int_of = λ raw. some (pos 7);
  bps_of = λ raw. none;
  text_of = λ raw. "text";
  localise = λ d t. record { instant = t; offset = pos 0 };
}

abbrev pub rate : FieldSpec
rate = record { key = "borrower_name"; type = ValueType.string; redaction_exempt = true }

abbrev pub extraction : FieldExtraction
extraction = record {
  value_raw = some (codes "Asha");
  is_absent = false;
  quoted_span = some (codes "Asha");
}

-- A document with three characters left in its budget.
abbrev pub nearly_full : DocumentRow
nearly_full = record { char_count = 100; span_budget_chars = 15; span_used_chars = 12 }

admit_all-used_example :
    (admit_all (2 ∷ 4 ∷ []) nearly_full).span_used_chars ≡ min (12 + sum (2 ∷ 4 ∷ [])) 15
admit_all-used_example = admit_all-used (2 ∷ 4 ∷ []) nearly_full (ground arith)

abbrev quotes : List (String × ℕ)
quotes = ("a", 5) ∷ ("b", 9) ∷ []

truncate_longest_first-total_example :
    (sorted : List (String × ℕ)) × Perm sorted quotes
    × Descending sorted
    × Cut 6 sorted (truncate_longest_first quotes 6)
truncate_longest_first-total_example = truncate_longest_first-total 6 quotes

abbrev bare : FactRow
bare = record {
  field_key = "borrower_name";
  value_type = some ValueType.string;
  value_raw = some (codes "Asha");
  value_normalized = none;
  is_absent = false;
  quoted_span = none;
  span_verified = false;
  span_truncated = false;
}

truncated_quote_whole_example :
    ((evidence ascii library
        (codes "Borrower: Asha")
        rate
        (some (codes "Asha"))
        bare
        nearly_full).0.span_truncated
      ≡ true)
    × ((evidence ascii library
          (codes "Borrower: Asha")
          rate
          (some (codes "Asha"))
          bare
          nearly_full).0.quoted_span
        ≡ some (redact ascii (codes "Asha") true).0)
    × ((evidence ascii library
          (codes "Borrower: Asha")
          rate
          (some (codes "Asha"))
          bare
          nearly_full).1.span_used_chars
        ≡ 15)
unfolding codes is_nil verify_span contains starts_with
truncated_quote_whole_example =
    truncated_quote_whole ascii library (codes "Borrower: Asha") rate (codes "Asha") bare
      nearly_full refl refl (ground arith) (ground arith)
