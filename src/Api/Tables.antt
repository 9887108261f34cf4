-- ===== src/Api/Tables.antt =====
-- The request, the tables and the services of `submit_document` (app/api/v1/documents.py).
use nbfc_compliance_agent.Prelude.{
  ℕ, String, Bool, Option, none, some, List, [], ◌∷◌, str_eq, if◌then◌else◌,
}
use nbfc_compliance_agent.Prelude.Raises.{Raises}
use nbfc_compliance_agent.Prelude.Regex.{Chars}
use nbfc_compliance_agent.Domain.Enums.{
  LifecycleStage, origination, sanction, disbursement, servicing, collections, closure,
}
use nbfc_compliance_agent.Domain.Facts.{Date}
use nbfc_compliance_agent.Extract.Spans.{DocumentRow}
use nbfc_compliance_agent.Extract.Service.{FieldSpec, FieldExtraction, FactRow}

pub record DocumentSubmitRequest : Type 0 where
  pub doc_type : Option String
  pub event_date : String
  pub content_sha256 : ℕ
  pub text : Chars
  pub assess : Bool

-- The errors of app/api/errors.py that the handler raises, and any other exception.
pub data ApiError : Type 0 where
  schema_error hash_mismatch unknown_loan idempotency_conflict duplicate_doc doctype_unknown
        internal :
      ApiError

pub data Answer (A : Type 0) : Type 0 where
  accepted : A → Answer A
  refused : ApiError → Answer A

-- DOC_TYPE_LIFECYCLE_STAGE
abbrev pub doc_type_lifecycle_stage : List (String × LifecycleStage)
doc_type_lifecycle_stage =
    ("kfs", sanction)
    ∷ ("loan_agreement", sanction)
    ∷ ("sanction_letter", sanction)
    ∷ ("mitc", sanction)
    ∷ ("loan_application", origination)
    ∷ ("kyc_set", origination)
    ∷ ("income_proof", origination)
    ∷ ("bureau_report", origination)
    ∷ ("valuation_report", origination)
    ∷ ("field_investigation", origination)
    ∷ ("disbursement_memo", disbursement)
    ∷ ("payment_confirmation", disbursement)
    ∷ ("account_statement", servicing)
    ∷ ("rate_reset_notice", servicing)
    ∷ ("call_transcript", collections)
    ∷ ("penal_charge_notice", collections)
    ∷ ("reminder_notice", collections)
    ∷ ("field_visit_report", collections)
    ∷ ("demand_notice", collections)
    ∷ ("settlement_letter", collections)
    ∷ ("possession_notice", collections)
    ∷ ("closure_statement", closure)
    ∷ ("noc", closure)
    ∷ ("docs_release_ack", closure)
    ∷ ("charge_satisfaction", closure)
    ∷ ("unknown", origination)
    ∷ []

unfoldable pub stage_in : String → List (String × LifecycleStage) → Option LifecycleStage
stage_in doc_type [] = none
stage_in doc_type ((d, stage) ∷ rest) =
    if str_eq d doc_type then some stage else stage_in doc_type rest

unfoldable pub stage_of : String → Option LifecycleStage
unfolding stage_in
stage_of doc_type = stage_in doc_type doc_type_lifecycle_stage

-- classify_document after the model's answer: the type, and whether the confidence is below the floor.
unfoldable pub classified : String → Bool → String
classified doc_type below_floor = if below_floor then "unknown" else doc_type

-- A row of `document`, with its budget row.
pub record Submission : Type 0 where
  pub document_id : ℕ
  pub tenant_id : ℕ
  pub loan_account_id : ℕ
  pub content_sha256 : ℕ
  pub doc_type : String
  pub stage : LifecycleStage
  pub event_date : Date
  pub row : DocumentRow

pub record ResponseBody : Type 0 where
  pub document_id : ℕ
  pub job_id : ℕ
  pub request_id : String

-- A row of `idempotency_key`.
pub record IdempotencyKey : Type 0 where
  pub tenant_id : ℕ
  pub key : String
  pub loan_id : ℕ
  pub request_hash : ℕ
  pub response_body : ResponseBody

-- The tables, and the documents whose assessment is queued.
pub record Tables : Type 0 where
  pub loans : List (ℕ × ℕ)
  pub documents : List Submission
  pub facts : List (ℕ × FactRow)
  pub idempotency_keys : List IdempotencyKey
  pub queued : List ℕ

-- What the handler takes from elsewhere. `enqueued` and `key_kept` say of the new document whether
-- `assess_document.delay` returns, and whether the transaction that inserts the key commits.
pub record Services : Type 0 where
  pub request_hash : DocumentSubmitRequest → ℕ
  pub sha256 : Chars → ℕ
  pub fromisoformat : String → Option Date
  pub classify : Chars → Raises (String × Bool)
  pub span_budget : ℕ → ℕ
  pub fields_for : String → List FieldSpec
  pub enqueued : ℕ → Bool
  pub key_kept : ℕ → Bool
  pub ask : Chars → List FieldSpec → Raises (List (FieldSpec × FieldExtraction))
