-- ===== src/Rules/Tests.antt =====
-- Test data for app/rules: a loan account, the dates on its record, and the registry.
use nbfc_compliance_agent.Prelude.{
  ℕ, ◌*◌, ◌+◌, String, ◌≡◌, refl, Bool, true, false, none, some, List, [], ◌∷◌, ◌↔◌, In, here, keep,
  member, arith,
}
use nbfc_compliance_agent.Prelude.Int.{pos}
use nbfc_compliance_agent.Prelude.Dict.{get, set}
use nbfc_compliance_agent.Prelude.Raises.{Raises, returned, raised}
use nbfc_compliance_agent.Domain.Enums.{compliant, violation}
use nbfc_compliance_agent.Domain.Facts.{
  Date, FactValue, date_value, datetime_value, int_value, money_value, bool_value, hour,
}
use nbfc_compliance_agent.Domain.Verdicts.{LoanAccountRef}
use nbfc_compliance_agent.Rules.Base.{
  FactRecord, Interpreter, FactIndex, ClauseExcerpts, get_record, value, fact, flag_of, date_of,
  datetime_of, money_of, verdict_of,
}
use nbfc_compliance_agent.Rules.Path.{canonical_path}
use nbfc_compliance_agent.Rules.Registry.{
  Registry, rule_modules, register, import_rules, rules_of, rules_for_field,
}
use nbfc_compliance_agent.Rules.Contract.{Contract}
use nbfc_compliance_agent.Rules.Registered.{rules_for_field-Contract}
use nbfc_compliance_agent.Rules.Timeline.{release_window_exact, compensation_exact}
use nbfc_compliance_agent.Rules.Window.{window_exact}
use nbfc_compliance_agent.Rules.Preconditions.{IsPermitted, restriction_exact}
use nbfc_compliance_agent.Rules.Release.{r01, r02, r02b}
use nbfc_compliance_agent.Rules.Pricing.{r03, r04, r05, r06}
use nbfc_compliance_agent.Rules.Digital.{r07, r08, r09, r10}
use nbfc_compliance_agent.Rules.Disclosure.{r11, r12, r26, r27}
use nbfc_compliance_agent.Rules.Data.{r13, r14, r15}
use nbfc_compliance_agent.Rules.Contact.{r16, r17, r22, ist_time}
use nbfc_compliance_agent.Rules.Recovery.{r18, r19, r20, r21, r25}
use nbfc_compliance_agent.Rules.Device.{r23, r24}

abbrev pub python : Interpreter
python = record {
  date_fromisoformat = λ s. none;
  datetime_fromisoformat = λ s. none;
  int_of_text = λ s. none;
  local_midnight = λ d. record { instant = d * (24 * hour); offset = pos 0 };
  fee_load_bps = λ fees principal term_days. pos 0;
}

abbrev pub on_record : String → FactValue → String × FactRecord
on_record key v = (key, record { field_key = key; value_normalized = some v; is_absent = false })

abbrev pub index : List (String × FactRecord) → FactIndex
index records = record { facts = records; python = python }

abbrev pub loan : Bool → LoanAccountRef
loan microfinance = record {
  id = 7;
  tenant_id = 1;
  is_microfinance = microfinance;
  is_digital_lending = false;
  device_financed = true;
  entity_type = "nbfc_icc";
}

abbrev pub excerpts : ClauseExcerpts
excerpts = ("RBC2025/p35", "within a period of 30 days") ∷ []

-- 2 March 2026, and 1 February 2027.
abbrev pub in_2026 : Date
in_2026 = 739677

abbrev in_2027 : Date
in_2027 = 740013

-- A release forty days after the repayment, with Rs 40,000 paid.
abbrev pub late_release : FactIndex
late_release = index (
    on_record "docs_lost_flag" (bool_value false)
    ∷ on_record "full_repayment_date" (date_value 739600)
    ∷ on_record "original_docs_released_date" (date_value 739640)
    ∷ on_record "release_delay_compensation_paid" (money_value (pos 4000000) "INR")
    ∷ on_record "first_visit_date" (date_value 739650)
    ∷ on_record "visit_prior_intimation_date" (date_value 739650)
    ∷ [])

abbrev at : ℕ → FactIndex
at instant = index (
    on_record "contact_datetime" (datetime_value (record { instant = instant; offset = pos 0 }))
    ∷ [])

abbrev restricted : FactIndex
restricted = index (
    on_record "device_restriction_applied_flag" (bool_value true)
    ∷ on_record "device_financed_by_loan_flag" (bool_value true)
    ∷ on_record "days_past_due_at_contact" (int_value (pos 75))
    ∷ on_record "cure_notice_21day_sent_date" (date_value 739950)
    ∷ on_record "cure_notice_7day_sent_date" (date_value 739972)
    ∷ [])

registry_or : Raises Registry → Registry
registry_or (returned r) = r
registry_or (raised e) = []

unfoldable pub registry : Registry
unfolding registry_or import_rules register canonical_path set r01 r02 r02b r03 r04 r05 r06 r07 r08
    r09 r10 r11 r12 r13 r14 r15 r16 r17 r18 r19 r20 r21 r22 r23 r24 r25 r26 r27
registry = registry_or (import_rules rule_modules [])

pub imported : import_rules rule_modules [] ≡ returned registry
unfolding registry import_rules register canonical_path set r01 r02 r02b r03 r04 r05 r06 r07 r08 r09
    r10 r11 r12 r13 r14 r15 r16 r17 r18 r19 r20 r21 r22 r23 r24 r25 r26 r27
imported = refl

pub finds_r01 : In r01 (rules_for_field registry "full_repayment_date")
unfolding registry rules_for_field rules_of keep member import_rules register canonical_path set r01
    r02 r02b r03 r04 r05 r06 r07 r08 r09 r10 r11 r12 r13 r14 r15 r16 r17 r18 r19 r20 r21 r22 r23 r24
    r25 r26 r27
finds_r01 = here

release_window_exact_example :
    verdict_of (r01.evaluate late_release (loan false) in_2026 excerpts) ≡ some violation
unfolding flag_of date_of fact get_record value get
release_window_exact_example =
    release_window_exact late_release (loan false) in_2026 excerpts 739600 739640 (omega arith) refl
      refl refl

compensation_exact_example :
    verdict_of (r02.evaluate late_release (loan false) in_2026 excerpts) ≡ some violation
unfolding flag_of date_of money_of fact get_record value get
compensation_exact_example =
    compensation_exact late_release (loan false) in_2026 excerpts 739600 739640 (omega arith) refl
      refl refl 4000000 refl (omega arith)

-- 03:00 UTC is 08:30 in India, and 19:00 UTC is after midnight there.
abbrev morning : ℕ
morning = 740000 * (24 * hour) + 3 * hour

abbrev night : ℕ
night = 740000 * (24 * hour) + 19 * hour

window_exact_example :
    verdict_of (r16.evaluate (at night) (loan false) in_2027 excerpts) ≡ some violation
unfolding datetime_of fact get_record value get ist_time
window_exact_example =
    window_exact (loan false) in_2027 excerpts (at night)
      (record { instant = night; offset = pos 0 }) (omega arith) refl

abbrev at_offset : FactIndex
at_offset = index (
    on_record "contact_datetime" (datetime_value (record { instant = morning; offset = pos 330 }))
    ∷ [])

restriction_exact_example :
    (verdict_of (r23.evaluate restricted (loan false) in_2027 excerpts) ≡ some compliant)
    ↔ IsPermitted restricted
unfolding flag_of get_record value get
restriction_exact_example =
    restriction_exact restricted (loan false) in_2027 excerpts (omega arith) refl

rules_for_field-Contract_example : Contract r01
rules_for_field-Contract_example =
    rules_for_field-Contract registry "full_repayment_date" r01 imported finds_r01
