-- ===== src/Verdict/Store.antt =====
-- The tables of app/db/models.py that an assessment reads and writes, newest row first, and the
-- transaction that app/tasks/assess_tasks.py runs it in: an exception leaves before the commit, so
-- its writes are lost with it.
use nbfc_compliance_agent.Prelude.{ℕ, String, Bool, Option, List}
use nbfc_compliance_agent.Prelude.Raises.{Raises, returned, raised}
use nbfc_compliance_agent.Domain.Enums.{Severity, CitationRole, CitationRejectReason}
use nbfc_compliance_agent.Domain.Verdicts.{AssessmentResult}

-- A row of `assessment`; `whatif` is its is_whatif column.
pub record Assessment : Type 0 where
  pub id : ℕ
  pub tenant_id : ℕ
  pub loan_account_id : ℕ
  pub document_id : Option ℕ
  pub result : AssessmentResult
  pub whatif : Bool
  pub superseded_by_id : Option ℕ

-- A row of `assessment_citation`.
pub record AssessmentCitation : Type 0 where
  pub assessment_id : ℕ
  pub clause_id : ℕ
  pub clause_path : String
  pub instrument_code : String
  pub role : CitationRole
  pub quoted_clause_excerpt : String

-- A row of `audit_event` for a rejected citation.
pub record CitationRejected : Type 0 where
  pub assessment_id : ℕ
  pub reason : CitationRejectReason
  pub clause_path : String

-- A row of `fact_conflict`, as far as the state reads it.
pub record ConflictRow : Type 0 where
  pub tenant_id : ℕ
  pub loan_account_id : ℕ
  pub is_open : Bool

-- A row of `loan_compliance_state`.
pub record ComplianceState : Type 0 where
  pub loan_account_id : ℕ
  pub tenant_id : ℕ
  pub open_violations : ℕ
  pub open_ambiguous : ℕ
  pub open_no_clause : ℕ
  pub unresolved_conflicts : ℕ
  pub highest_severity : Option Severity
  pub checks_run : ℕ
  pub corpus_snapshot_id : ℕ
  pub state_version : ℕ

-- `next_id` stands for `uuid7()`: each call gives a number that was not given before.
pub record Store : Type 0 where
  pub next_id : ℕ
  pub assessments : List Assessment
  pub citations : List AssessmentCitation
  pub audit : List CitationRejected
  pub conflicts : List ConflictRow
  pub states : List ComplianceState

abbrev pub Transaction : Type 0 → Type 0
Transaction A = Store → Raises (A × Store)

infixl 5 ◌>>=◌ ◌>>◌
abbrev pub ◌>>=◌ : {A B : Type 0} → Transaction A → (A → Transaction B) → Transaction B
◌>>=◌ m f s = elim (m s) [ raised e ↦ raised e | returned (a, s') ↦ f a s' ]

abbrev pub ◌>>◌ : {B : Type 0} → Transaction (Unit {0}) → Transaction B → Transaction B
m >> k = m >>= λ _. k

abbrev pub pure : {A : Type 0} → A → Transaction A
pure a s = returned (a, s)

-- A call that reads nothing and may raise.
abbrev pub lift : {A : Type 0} → Raises A → Transaction A
lift m s = elim m [ raised e ↦ raised e | returned a ↦ returned (a, s) ]
