-- ===== src/Domain/Verdicts.antt =====
-- app/domain/verdicts.py and app/domain/documents.py: citations, drafts, results, loan accounts.
use nbfc_compliance_agent.Prelude.{ℕ, String, Bool, Option, List}
use nbfc_compliance_agent.Domain.Enums.{Verdict, Severity, ConfidenceBand, DecidedBy, CitationRole}
use nbfc_compliance_agent.Domain.Facts.{Date, Text}

pub record Citation : Type 0 where
  pub clause_path : String
  pub role : CitationRole
  pub quoted_clause_excerpt : String
  pub context_note : Option String

-- What the model may return: it has no severity.
pub record VerdictDraft : Type 0 where
  pub verdict : Verdict
  pub citations : List Citation
  pub rationale : Text
  pub confidence_band : ConfidenceBand

-- Without the telemetry; every result has a field key.
pub record AssessmentResult : Type 0 where
  pub check_key : String
  pub field_key : String
  pub event_date : Date
  pub verdict : Verdict
  pub severity : Severity
  pub confidence_band : ConfidenceBand
  pub rationale : Text
  pub decided_by : DecidedBy
  pub rule_id : Option String
  pub is_shadow : Bool
  pub is_whatif : Bool
  pub citations : List Citation
  pub corpus_snapshot_id : ℕ
  pub candidate_clause_count : ℕ

pub record LoanAccountRef : Type 0 where
  pub id : ℕ
  pub tenant_id : ℕ
  pub is_microfinance : Bool
  pub is_digital_lending : Bool
  pub device_financed : Bool
  pub entity_type : String
