-- ===== src/Rules/Contract.antt =====
-- What the rest of the program relies on in a rule of app/rules: what it cites, when it is silent.
-- The rules are shown to meet it one by one in the child.
pub mod Each
use nbfc_compliance_agent.Prelude.{◌≡◌, ◌≢◌, ◌<◌, Option, none, some, map, arith}
use nbfc_compliance_agent.Prelude.Raises.{returned}
use nbfc_compliance_agent.Domain.Enums.{no_clause_found}
use nbfc_compliance_agent.Domain.Facts.{Date}
use nbfc_compliance_agent.Domain.Verdicts.{LoanAccountRef}
use nbfc_compliance_agent.Rules.Base.{
  Rule, RuleOutcome, FactIndex, ClauseExcerpts, not_applicable, outcome, cite,
}

-- An outcome is conclusive, and cites the rule's clause paths in order, each decisively.
pub record Cites (r : Rule) (ex : ClauseExcerpts) (o : RuleOutcome) : Type 0 where
  pub conclusive : o.verdict ≢ no_clause_found
  pub cited : o.citations ≡ map (cite ex) r.clause_paths

abbrev pub Before : Date → Option Date → Type 0
Before as_of none = ⊥
Before as_of (some d) = as_of < d

pub record Contract (r : Rule) : Type 0 where
  pub cites :
      (facts : FactIndex) (account : LoanAccountRef) (as_of : Date) (ex : ClauseExcerpts)
      (o : RuleOutcome)
      → r.evaluate facts account as_of ex ≡ returned (outcome o)
      → Cites r ex o
  pub silent :
      (facts : FactIndex) (account : LoanAccountRef) (as_of : Date) (ex : ClauseExcerpts)
      → Before as_of r.valid_from
      → r.evaluate facts account as_of ex ≡ returned not_applicable
