-- ===== src/Extract/Evidence.antt =====
-- The facts that extract_document (app/extract/service.py) writes: their values, their evidence, and
-- what the evidence takes from the budget.
use nbfc_compliance_agent.Prelude.{
  ℕ, ◌+◌, ◌≤◌, ◌<◌, leb, ◌≡◌, refl, inl, inr, true, false, Bool-cases, not, Option, none, some,
  Option-cases, List, [], ◌∷◌, length, All, is_none, arith,
}
use nbfc_compliance_agent.Prelude.Batches.{flatten, append-nil, flatten-batches, batches-bounded}
use nbfc_compliance_agent.Prelude.Regex.{Chars, Characters}
use nbfc_compliance_agent.Prelude.Chars.{is_nil}
use nbfc_compliance_agent.Extract.Normalise.{Library}
use nbfc_compliance_agent.Extract.Redact.{redact}
use nbfc_compliance_agent.Extract.Spans.{DocumentRow, verify_span, min, admit_span}
use nbfc_compliance_agent.Extract.Service.{
  FieldSpec, FieldExtraction, FactRow, max_fields_per_call, call_groups, value_of, with_admission,
  evidence, fact_row, write_facts,
}

-- The calls ask for each field once, in the order of the registry, and no call asks for more than 25.
call_groups-flatten :
    (fields : List FieldSpec)
    → (flatten (call_groups fields) ≡ fields)
      × All (λ group. length group ≤ max_fields_per_call) (call_groups fields)
unfolding call_groups flatten
call_groups-flatten fields = elim (Bool-cases (leb (length fields) max_fields_per_call)) [
  | inl few ↦ rw few (append-nil fields, (ground (arith, few), tt))
  | inr many ↦ rw many (flatten-batches 25 fields, batches-bounded 25 fields (omega arith))
]

module _ (chars : Characters) (lib : Library) (document_text : Chars) where
  -- What the checks of the table ask of the row of a field, and that its evidence is the quote of the
  -- field's extraction, which stands in the document, redacted unless the field is exempt.
  pub record IsGrounded (spec : FieldSpec) (extraction : FieldExtraction) (row : FactRow)
      : Type 0 where
    pub key : row.field_key ≡ spec.key
    pub present : row.is_absent ≡ is_none row.value_normalized
    pub untyped : row.is_absent ≡ is_none row.value_type
    pub quoted : row.span_verified ≡ not (is_none row.quoted_span)
    pub verified :
        row.span_verified ≡ true
        → (quote : Chars) × (extraction.quoted_span ≡ some quote)
          × (verify_span quote document_text ≡ true)
          × (row.quoted_span ≡ some (redact chars quote spec.redaction_exempt).0)

  -- There is one row for each extraction, in their order, and each is grounded.
  pub AllGrounded : List (FieldSpec × FieldExtraction) → List FactRow → Type 0
  AllGrounded [] [] = Unit {0}
  AllGrounded [] (row ∷ rows) = ⊥
  AllGrounded ((spec, extraction) ∷ raw) [] = ⊥
  AllGrounded ((spec, extraction) ∷ raw) (row ∷ rows) =
      IsGrounded spec extraction row × AllGrounded raw rows

  admit_span-budget :
      (n : ℕ) (d : DocumentRow)
      → d.span_used_chars ≤ d.span_budget_chars
      → ((admit_span n d).1.span_used_chars ≤ (admit_span n d).1.span_budget_chars)
        × ((admit_span n d).1.span_budget_chars ≡ d.span_budget_chars)
  unfolding admit_span min
  admit_span-budget n d h = ground (arith, h)

  evidence-budget :
      (spec : FieldSpec) (q : Option Chars) (row : FactRow) (d : DocumentRow)
      → d.span_used_chars ≤ d.span_budget_chars
      → ((evidence chars lib document_text spec q row d).1.span_used_chars
          ≤ (evidence chars lib document_text spec q row d).1.span_budget_chars)
        × ((evidence chars lib document_text spec q row d).1.span_budget_chars
            ≡ d.span_budget_chars)
  unfolding evidence
  evidence-budget spec none row d h = (h, refl)
  evidence-budget spec (some quote) row d h = elim (Bool-cases (is_nil quote)) [
    | inl empty ↦ rw empty (h, refl)
    | inr full ↦ elim (Bool-cases (verify_span quote document_text)) [
      | inl found ↦ rw (full, found) (admit_span-budget (length quote) d h)
      | inr missing ↦ rw (full, missing) (h, refl)
    ]
  ]

  fact_row-budget :
      (spec : FieldSpec) (extraction : FieldExtraction) (d : DocumentRow)
      → d.span_used_chars ≤ d.span_budget_chars
      → ((fact_row chars lib document_text spec extraction d).1.span_used_chars
          ≤ (fact_row chars lib document_text spec extraction d).1.span_budget_chars)
        × ((fact_row chars lib document_text spec extraction d).1.span_budget_chars
            ≡ d.span_budget_chars)
  unfolding fact_row
  fact_row-budget spec extraction d h = elim (Option-cases (value_of chars lib spec extraction)) [
    | inl missing ↦ rw (missing, fact_row) (h, refl)
    | inr (v, found) ↦ rw (found, fact_row) (evidence-budget spec extraction.quoted_span _ d h)
  ]

  -- Writing all the facts of a document leaves its budget as it is and never uses more than it.
  pub write_facts-budget :
      (raw : List (FieldSpec × FieldExtraction)) (d : DocumentRow)
      → d.span_used_chars ≤ d.span_budget_chars
      → ((write_facts chars lib document_text raw d).1.span_used_chars ≤ d.span_budget_chars)
        × ((write_facts chars lib document_text raw d).1.span_budget_chars ≡ d.span_budget_chars)
  unfolding write_facts
  write_facts-budget [] d h = (h, refl)
  write_facts-budget ((spec, extraction) ∷ raw) d h =
      let (within, same) = fact_row-budget spec extraction d h in
      let rest =
        write_facts-budget raw (fact_row chars lib document_text spec extraction d).1 within in
      (ground (arith, rest.0, same), ground (arith, rest.1, same))

  -- A grounded quote longer than what is left of the budget is marked as truncated and is charged what
  -- is left, but the row keeps the whole of it, redacted.
  pub truncated_quote_whole :
      (spec : FieldSpec) (quote : Chars) (row : FactRow) (d : DocumentRow)
      → is_nil quote ≡ false
      → verify_span quote document_text ≡ true
      → d.span_used_chars < d.span_budget_chars
      → d.span_budget_chars < d.span_used_chars + length quote
      → ((evidence chars lib document_text spec (some quote) row d).0.span_truncated ≡ true)
        × ((evidence chars lib document_text spec (some quote) row d).0.quoted_span
            ≡ some (redact chars quote spec.redaction_exempt).0)
        × ((evidence chars lib document_text spec (some quote) row d).1.span_used_chars
            ≡ d.span_budget_chars)
  unfolding evidence admit_span with_admission min
  truncated_quote_whole spec quote row d full found free long = rw (full, found) (ground arith)
