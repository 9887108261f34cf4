-- ===== src/Verdict/Persist.antt =====
-- `_persist` of app/verdict/assess.py: one assessment row, a row for each citation, an audit row
-- for each rejected citation, and the supersession of the prior open assessment of the check.
use nbfc_compliance_agent.Prelude.{
  is_none, ℕ, ◌+◌, ◌==◌, String, Bool, not, ◌&&◌, Option, none, some, List, [], ◌∷◌, ◌++◌, map,
  str_eq, if◌then◌else◌,
}
use nbfc_compliance_agent.Prelude.Dict.{Dict, get}
use nbfc_compliance_agent.Prelude.Raises.{Raises, returned, raised, assertion_error, ◌>>=◌}
use nbfc_compliance_agent.Domain.Verdicts.{Citation, AssessmentResult}
use nbfc_compliance_agent.Rules.Path.{instrument_of}
use nbfc_compliance_agent.Verdict.Validator.{RejectedCitation}
use nbfc_compliance_agent.Verdict.Store.{
  Assessment, AssessmentCitation, CitationRejected, Transaction,
}

-- A row that _PRIOR_OPEN_ASSESSMENT_SQL selects.
unfoldable pub is_open : ℕ → String → Assessment → Bool
unfolding is_none
is_open loan_account_id check_key a =
    (a.loan_account_id == loan_account_id && str_eq a.result.check_key check_key)
    && (is_none a.superseded_by_id && not a.whatif)

-- `ORDER BY created_at DESC LIMIT 1`
unfoldable pub prior_open : ℕ → String → List Assessment → Option ℕ
prior_open loan_account_id check_key [] = none
prior_open loan_account_id check_key (a ∷ rows) =
    if is_open loan_account_id check_key a
    then some a.id
    else prior_open loan_account_id check_key rows

supersede_row : ℕ → ℕ → Assessment → Assessment
supersede_row old_id new_id a =
    if a.id == old_id then record a { superseded_by_id = some new_id } else a

-- `UPDATE assessment SET superseded_by_id = :new_id WHERE id = :old_id`
unfoldable pub supersede : ℕ → ℕ → List Assessment → List Assessment
unfolding supersede_row
supersede old_id new_id = map (supersede_row old_id new_id)

unfoldable pub citation_rows : ℕ → Dict ℕ → List Citation → Raises (List AssessmentCitation)
citation_rows assessment_id clause_id_by_path [] = returned []
citation_rows assessment_id clause_id_by_path (citation ∷ rest) =
    let others = citation_rows assessment_id clause_id_by_path rest in
    elim (get clause_id_by_path citation.clause_path) [
      | none ↦ raised (assertion_error citation.clause_path)
      | some clause_id ↦ others >>= λ rows. returned (
          record {
            assessment_id = assessment_id;
            clause_id = clause_id;
            clause_path = citation.clause_path;
            instrument_code = instrument_of citation.clause_path;
            role = citation.role;
            quoted_clause_excerpt = citation.quoted_clause_excerpt;
          }
          ∷ rows)
    ]

audit_row : ℕ → RejectedCitation → CitationRejected
audit_row assessment_id rej = record {
  assessment_id = assessment_id;
  reason = rej.reason;
  clause_path = rej.citation.clause_path;
}

-- The rows after the INSERT and, unless the run is a what-if, the UPDATE of the prior row.
unfoldable pub record_assessment : Bool → Option ℕ → Assessment → List Assessment → List Assessment
record_assessment is_whatif none a rows = a ∷ rows
record_assessment is_whatif (some prior) a rows =
    if is_whatif then a ∷ rows else supersede prior a.id (a ∷ rows)

module _ (tenant_id loan_account_id : ℕ) (document_id : Option ℕ) (result : AssessmentResult)
    (clause_id_by_path : Dict ℕ) (is_whatif : Bool) (rejected : List RejectedCitation) where
  abbrev pub new_row : ℕ → Assessment
  new_row id = record {
    id = id;
    tenant_id = tenant_id;
    loan_account_id = loan_account_id;
    document_id = document_id;
    result = result;
    whatif = is_whatif;
    superseded_by_id = none;
  }

  unfoldable pub persist : Transaction ℕ
  unfolding audit_row
  persist s = citation_rows s.next_id clause_id_by_path result.citations >>= λ rows. returned (
    s.next_id,
    record s {
      next_id = s.next_id + 1;
      assessments =
          record_assessment is_whatif (prior_open loan_account_id result.check_key s.assessments)
            (new_row s.next_id) s.assessments;
      citations = rows ++ s.citations;
      audit = map (audit_row s.next_id) rejected ++ s.audit;
    },
  )
