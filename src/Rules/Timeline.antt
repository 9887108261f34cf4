-- ===== src/Rules/Timeline.antt =====
-- The timeline rules of app/rules as functions of the dates on record: R01, R02, R02b and R22.
use nbfc_compliance_agent.Prelude.{
  ℕ, ◌+◌, ◌*◌, ◌-◌, ◌≤◌, ◌<◌, ltb, leb, ◌≡◌, ◌≢◌, false, none, some, arith, if◌then◌else◌,
}
use nbfc_compliance_agent.Prelude.Int.{pos, ◌-ℤ◌, ◌*ℤ◌}
use nbfc_compliance_agent.Prelude.Raises.{returned}
use nbfc_compliance_agent.Domain.Enums.{compliant, violation}
use nbfc_compliance_agent.Domain.Facts.{Date, days_between}
use nbfc_compliance_agent.Domain.Verdicts.{LoanAccountRef}
use nbfc_compliance_agent.Rules.Base.{
  FactIndex, ClauseExcerpts, verdict_of, flag_of, date_of, money_of, rbc2025_effective,
  amendment_effective,
}
use nbfc_compliance_agent.Rules.Release.{r01, r02, r02b}
use nbfc_compliance_agent.Rules.Contact.{r22}

module _ (facts : FactIndex) (account : LoanAccountRef) (as_of : Date) (ex : ClauseExcerpts) where
  -- R01 and R02b never both decide: whenever one of them returns an outcome, the other returns
  -- none.
  release_limbs_exclusive :
      verdict_of (r01.evaluate facts account as_of ex) ≢ none
      → verdict_of (r02b.evaluate facts account as_of ex) ≡ none
  unfolding r01 r02b verdict_of
  release_limbs_exclusive h = ground arith

  -- R02 returns an outcome only where R01 finds a violation.
  compensation_needs_violation :
      verdict_of (r02.evaluate facts account as_of ex) ≢ none
      → verdict_of (r01.evaluate facts account as_of ex) ≡ some violation
  unfolding r01 r02 verdict_of
  compensation_needs_violation h = ground arith

  module _ (repaid released : Date) (in_force : rbc2025_effective ≤ as_of)
      (kept : flag_of facts "docs_lost_flag" (some false) ≡ returned false)
      (repaid_on : date_of facts "full_repayment_date" ≡ returned repaid)
      (released_on : date_of facts "original_docs_released_date" ≡ returned released) where
    -- Once the instrument is in force, with the documents not lost and both dates on record, R01
    -- is compliant exactly when the release is at most thirty days after the repayment.
    pub release_window_exact :
        verdict_of (r01.evaluate facts account as_of ex)
        ≡ some (if leb released (repaid + 30) then compliant else violation)
    unfolding r01 verdict_of days_between
    release_window_exact = ground arith

    -- Where moreover the release is more than thirty days late and a payment is on record, R02 is
    -- compliant exactly when the payment covers Rs 5,000 for each day past the thirty.
    pub compensation_exact :
        (paid : ℕ)
        → money_of facts "release_delay_compensation_paid" ≡ returned (pos paid)
        → repaid + 30 < released
        → verdict_of (r02.evaluate facts account as_of ex)
          ≡ some (if leb ((released - (repaid + 30)) * 500000) paid then compliant else violation)
    unfolding r02 verdict_of days_between ◌-ℤ◌ ◌*ℤ◌
    compensation_exact paid paid_on late = ground arith

  -- A visit on record with an intimation is compliant under R22, once the amendment is in force,
  -- exactly when the intimation was given on an earlier day.
  intimation_exact :
      (visit intimation : Date)
      → amendment_effective ≤ as_of
      → date_of facts "first_visit_date" ≡ returned visit
      → date_of facts "visit_prior_intimation_date" ≡ returned intimation
      → verdict_of (r22.evaluate facts account as_of ex)
        ≡ some (if ltb intimation visit then compliant else violation)
  unfolding r22 verdict_of days_between
  intimation_exact visit intimation in_force visited intimated = ground arith
