-- ===== src/Rules/Window.antt =====
-- The contact-window rules R16 and R17: one clock, whatever the offset of the record, and the pair
-- of rules around the amendment's commencement.
use nbfc_compliance_agent.Prelude.{
  ◌≤◌, ◌<◌, leb, ◌%◌, ◌&&◌, ◌≡◌, true, false, some, arith, if◌then◌else◌,
}
use nbfc_compliance_agent.Prelude.Raises.{returned}
use nbfc_compliance_agent.Domain.Enums.{compliant, violation}
use nbfc_compliance_agent.Domain.Facts.{Date, DateTime}
use nbfc_compliance_agent.Domain.Verdicts.{LoanAccountRef}
use nbfc_compliance_agent.Rules.Base.{
  FactIndex, ClauseExcerpts, not_applicable, verdict_of, datetime_of, amendment_effective,
}
use nbfc_compliance_agent.Rules.Contact.{r16, r17, ist_time, inside_window}

-- From 08:00 to 19:00 in India is from 02:30 to 13:30 of the same day in UTC.
window_in_utc :
    (ts : DateTime)
    → inside_window (ist_time ts)
      ≡ leb 9000000000 (ts.instant % 86400000000) && leb (ts.instant % 86400000000) 48600000000
unfolding ist_time inside_window
window_in_utc ts = ground arith

module _ (account : LoanAccountRef) (as_of : Date) (ex : ClauseExcerpts) where
  -- From the amendment on, R16 is compliant exactly when the contact's time of day in UTC lies between
  -- 02:30 and 13:30, both included, which is from 08:00 to 19:00 in India.
  pub window_exact :
      (facts : FactIndex) (ts : DateTime)
      → amendment_effective ≤ as_of
      → datetime_of facts "contact_datetime" ≡ returned ts
      → verdict_of (r16.evaluate facts account as_of ex)
        ≡ some (
            if leb 9000000000 (ts.instant % 86400000000)
              && leb (ts.instant % 86400000000) 48600000000
            then compliant
            else violation)
  unfolding r16 verdict_of
  window_exact facts ts in_force at = ground (arith, window_in_utc ts)

  -- Two records of the same instant get the same verdict from R16, whatever offset each carries.
  window_offset_free :
      (facts facts' : FactIndex) (ts ts' : DateTime)
      → datetime_of facts "contact_datetime" ≡ returned ts
      → datetime_of facts' "contact_datetime" ≡ returned ts'
      → ts.instant ≡ ts'.instant
      → verdict_of (r16.evaluate facts account as_of ex)
        ≡ verdict_of (r16.evaluate facts' account as_of ex)
  unfolding r16 verdict_of ist_time inside_window
  window_offset_free facts facts' ts ts' at at' same = ground arith

  -- From the amendment on, the general rule and the microfinance rule give a microfinance loan the
  -- same verdict, whatever is on record.
  microfinance_agrees :
      (facts : FactIndex)
      → amendment_effective ≤ as_of
      → account.is_microfinance ≡ true
      → verdict_of (r16.evaluate facts account as_of ex)
        ≡ verdict_of (r17.evaluate facts account as_of ex)
  unfolding r16 r17 verdict_of
  microfinance_agrees facts in_force micro = ground arith

  -- Before the amendment no contact-window rule decides a loan that is not microfinance: both are
  -- not applicable, so that the case goes on to retrieval.
  no_window_before_amendment :
      (facts : FactIndex)
      → as_of < amendment_effective
      → account.is_microfinance ≡ false
      → (r16.evaluate facts account as_of ex ≡ returned not_applicable)
        × (r17.evaluate facts account as_of ex ≡ returned not_applicable)
  unfolding r16 r17
  no_window_before_amendment facts before general = ground arith
