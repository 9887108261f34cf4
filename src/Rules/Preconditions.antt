-- ===== src/Rules/Preconditions.antt =====
-- R23: what a device restriction that is found compliant has on record, and R04's tolerance.
use nbfc_compliance_agent.Prelude.{◌≤◌, ◌<◌, ◌≡◌, true, false, some, inl, inr, ◌↔◌, arith}
use nbfc_compliance_agent.Prelude.Int.{ℤ, pos, ◌≤ℤ◌}
use nbfc_compliance_agent.Prelude.Raises.{returned, Raises-cases}
use nbfc_compliance_agent.Domain.Enums.{compliant}
use nbfc_compliance_agent.Domain.Facts.{Date}
use nbfc_compliance_agent.Domain.Verdicts.{LoanAccountRef}
use nbfc_compliance_agent.Rules.Base.{
  FactIndex, ClauseExcerpts, verdict_of, flag_of, date_of, int_of, amendment_effective,
}
use nbfc_compliance_agent.Rules.Device.{r23}

-- What R23 asks for.
pub record IsPermitted (facts : FactIndex) : Type 0 where
  pub financed : flag_of facts "device_financed_by_loan_flag" (some false) ≡ returned true
  pub days_past_due : ℤ
  pub days_read : int_of facts "days_past_due_at_contact" ≡ returned days_past_due
  pub overdue : pos 60 ≤ℤ days_past_due
  pub notice21 : Date
  pub notice21_read : date_of facts "cure_notice_21day_sent_date" ≡ returned notice21
  pub notice7 : Date
  pub notice7_read : date_of facts "cure_notice_7day_sent_date" ≡ returned notice7
  pub ordered : notice21 < notice7

module _ (facts : FactIndex) (account : LoanAccountRef) (as_of : Date) (ex : ClauseExcerpts) where
  pub restriction_sufficient :
      amendment_effective ≤ as_of
      → flag_of facts "device_restriction_applied_flag" (some false) ≡ returned true
      → IsPermitted facts
      → verdict_of (r23.evaluate facts account as_of ex) ≡ some compliant
  unfolding r23 verdict_of
  restriction_sufficient in_force applied p = ground arith

  -- The reads fix the values; the four tests then follow from the verdict.
  read-IsPermitted :
      (d : ℤ) (sent21 sent7 : Date)
      → verdict_of (r23.evaluate facts account as_of ex) ≡ some compliant
      → int_of facts "days_past_due_at_contact" ≡ returned d
      → date_of facts "cure_notice_21day_sent_date" ≡ returned sent21
      → date_of facts "cure_notice_7day_sent_date" ≡ returned sent7
      → IsPermitted facts
  unfolding r23 verdict_of
  read-IsPermitted d sent21 sent7 h days at21 at7 = record {
    financed = ground arith;
    days_past_due = d;
    days_read = days;
    overdue = ground arith;
    notice21 = sent21;
    notice21_read = at21;
    notice7 = sent7;
    notice7_read = at7;
    ordered = ground arith;
  }

  pub restriction_necessary :
      verdict_of (r23.evaluate facts account as_of ex) ≡ some compliant → IsPermitted facts
  unfolding r23 verdict_of
  restriction_necessary h = elim (Raises-cases (int_of facts "days_past_due_at_contact")) [
    | inr (e, p) ↦ absurd (ground arith)
    | inl (d, days) ↦ elim (Raises-cases (date_of facts "cure_notice_21day_sent_date")) [
      | inr (e, p) ↦ absurd (ground arith)
      | inl (a, at21) ↦ elim (Raises-cases (date_of facts "cure_notice_7day_sent_date")) [
        | inr (e, p) ↦ absurd (ground arith)
        | inl (b, at7) ↦ read-IsPermitted d a b h days at21 at7
      ]
    ]
  ]

  -- Once the amendment is in force and a restriction is on record as applied, R23 is compliant
  -- exactly when the device was financed by the loan, at least sixty days past due are on record,
  -- and both cure notices are on record with the 7-day one on a later day than the 21-day one.
  pub restriction_exact :
      amendment_effective ≤ as_of
      → flag_of facts "device_restriction_applied_flag" (some false) ≡ returned true
      → (verdict_of (r23.evaluate facts account as_of ex) ≡ some compliant) ↔ IsPermitted facts
  restriction_exact in_force applied =
      (restriction_necessary, restriction_sufficient in_force applied)
