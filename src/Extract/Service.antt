-- ===== src/Extract/Service.antt =====
-- app/extract/service.py and extractor.py: the calls for the fields of a document, and the row that
-- each field's extraction becomes. What the model extracts is a parameter of the calls.
use nbfc_compliance_agent.Prelude.{
  ℕ, leb, String, Bool, true, false, ◌||◌, Option, none, some, List, [], ◌∷◌, ◌++◌, length, any,
  if◌then◌else◌,
}
use nbfc_compliance_agent.Prelude.Int.{pos}
use nbfc_compliance_agent.Prelude.Raises.{Raises, returned, ◌>>=◌}
use nbfc_compliance_agent.Prelude.Batches.{batches}
use nbfc_compliance_agent.Prelude.Regex.{Chars, Characters}
use nbfc_compliance_agent.Prelude.Chars.{codes, is_nil, strip, same}
use nbfc_compliance_agent.Domain.Facts.{
  FactValue, date_value, datetime_value, money_value, rate_value, int_value, days_value, bool_value,
  enum_value, string_value,
}
use nbfc_compliance_agent.Extract.Normalise.{
  Library, normalise_date, parse_full_datetime, normalise_money_to_paise, normalise_duration_days,
}
use nbfc_compliance_agent.Extract.Redact.{redact}
use nbfc_compliance_agent.Extract.Spans.{DocumentRow, verify_span, Admission, admit_span}

pub data ValueType : Type 0 where
  date datetime money rate_bps integer duration_days boolean enum time string : ValueType

pub record FieldSpec : Type 0 where
  pub key : String
  pub type : ValueType
  pub redaction_exempt : Bool

pub record FieldExtraction : Type 0 where
  pub value_raw : Option Chars
  pub is_absent : Bool
  pub quoted_span : Option Chars

-- A row of `extracted_fact`.
pub record FactRow : Type 0 where
  pub field_key : String
  pub value_type : Option ValueType
  pub value_raw : Option Chars
  pub value_normalized : Option FactValue
  pub is_absent : Bool
  pub quoted_span : Option Chars
  pub span_verified : Bool
  pub span_truncated : Bool

-- _MAX_FIELDS_PER_CALL
abbrev pub max_fields_per_call : ℕ
max_fields_per_call = 25

-- The groups of fields of extract_raw_fields, one call for each.
unfoldable pub call_groups : List FieldSpec → List (List FieldSpec)
call_groups fields =
    if leb (length fields) max_fields_per_call
    then fields ∷ []
    else batches max_fields_per_call fields

-- The calls in their order; the first that raises ends them.
unfoldable pub call_all :
    (List FieldSpec → Raises (List (FieldSpec × FieldExtraction)))
    → List (List FieldSpec)
    → Raises (List (FieldSpec × FieldExtraction))
call_all ask [] = returned []
call_all ask (group ∷ groups) = ask group >>= λ parsed_group.
    call_all ask groups >>= λ merged. returned (parsed_group ++ merged)

unfoldable pub extract_raw_fields :
    (List FieldSpec → Raises (List (FieldSpec × FieldExtraction)))
    → List FieldSpec
    → Raises (List (FieldSpec × FieldExtraction))
extract_raw_fields ask fields = call_all ask (call_groups fields)

map_option {ℓ κ} : {A : Type ℓ} {B : Type κ} → (A → B) → Option A → Option B
map_option f none = none
map_option f (some a) = some (f a)

module _ (chars : Characters) (lib : Library) where
  -- _typed_value: none for NormalisationError and ValueError.
  unfoldable pub typed_value : ValueType → Chars → Option FactValue
  unfolding map_option strip same
  typed_value date raw = map_option (λ d. date_value d) (normalise_date lib raw)
  typed_value datetime raw = map_option (λ t. datetime_value t) (parse_full_datetime chars lib raw)
  typed_value money raw =
      map_option (λ n. money_value (pos n) "INR") (normalise_money_to_paise chars lib raw)
  typed_value rate_bps raw = map_option (λ n. rate_value n) (lib.bps_of raw)
  typed_value duration_days raw =
      map_option (λ n. days_value (pos n)) (normalise_duration_days chars lib raw)
  typed_value integer raw = map_option (λ n. int_value n) (lib.int_of raw)
  typed_value boolean raw =
      let word = chars.lower (strip raw) in
      some (bool_value (any (λ w. same w word) (codes "true" ∷ codes "yes" ∷ codes "1" ∷ [])))
  typed_value enum raw = some (enum_value (lib.text_of (strip raw)))
  typed_value time raw = some (string_value (lib.text_of raw))
  typed_value string raw = some (string_value (lib.text_of raw))

  -- The value of an extraction, none when it is absent, empty, or cannot be normalised.
  unfoldable pub value_of : FieldSpec → FieldExtraction → Option (Chars × FactValue)
  unfolding map_option is_nil
  value_of spec extraction = elim extraction.value_raw [
    | none ↦ none
    | some raw ↦
        if extraction.is_absent || is_nil raw
        then none
        else map_option (λ v. (raw, v)) (typed_value spec.type raw)
  ]

  unfoldable pub absent_row : FieldSpec → FactRow
  absent_row spec = record {
    field_key = spec.key;
    value_type = none;
    value_raw = none;
    value_normalized = none;
    is_absent = true;
    quoted_span = none;
    span_verified = false;
    span_truncated = false;
  }

  -- The row of a value without evidence.
  unfoldable pub present_row : FieldSpec → Chars → FactValue → FactRow
  present_row spec raw v = record {
    field_key = spec.key;
    value_type = some spec.type;
    value_raw = some (redact chars raw spec.redaction_exempt).0;
    value_normalized = some v;
    is_absent = false;
    quoted_span = none;
    span_verified = false;
    span_truncated = false;
  }

  -- The row after the budget has answered for its quote.
  unfoldable pub with_admission : FieldSpec → Chars → Admission → FactRow → FactRow
  with_admission spec quoted a row =
      if a.admitted
      then record row {
        quoted_span = some (redact chars quoted spec.redaction_exempt).0;
        span_verified = true;
        span_truncated = a.truncated;
      }
      else record row { span_truncated = a.truncated }

  -- The evidence of a row: a quote that is grounded asks for its place in the budget.
  unfoldable pub evidence :
      Chars → FieldSpec → Option Chars → FactRow → DocumentRow → FactRow × DocumentRow
  unfolding with_admission is_nil
  evidence document_text spec none row d = (row, d)
  evidence document_text spec (some quoted) row d =
      if is_nil quoted
      then (row, d)
      else if verify_span quoted document_text
      then (let (a, d') = admit_span (length quoted) d in (with_admission spec quoted a row, d'))
      else (row, d)

  -- The body of the loop in extract_document.
  unfoldable pub fact_row :
      Chars → FieldSpec → FieldExtraction → DocumentRow → FactRow × DocumentRow
  unfolding absent_row present_row
  fact_row document_text spec extraction d = elim (value_of spec extraction) [
    | none ↦ (absent_row spec, d)
    | some v ↦ evidence document_text spec extraction.quoted_span (present_row spec v.0 v.1) d
  ]

  unfoldable pub write_facts :
      Chars → List (FieldSpec × FieldExtraction) → DocumentRow → List FactRow × DocumentRow
  write_facts document_text [] d = ([], d)
  write_facts document_text ((spec, extraction) ∷ raw) d =
      let (row, d') = fact_row document_text spec extraction d in
      let (rows, d'') = write_facts document_text raw d' in (row ∷ rows, d'')

  unfoldable pub extract_document :
      Chars
      → (List FieldSpec → Raises (List (FieldSpec × FieldExtraction)))
      → List FieldSpec
      → DocumentRow
      → Raises (List FactRow × DocumentRow)
  extract_document document_text ask fields d =
      extract_raw_fields ask fields >>= λ raw. returned (write_facts document_text raw d)
