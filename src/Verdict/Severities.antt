-- ===== src/Verdict/Severities.antt =====
-- app/verdict/severity.py: the static severity map. A lifecycle stage is given as it stands in
-- fields.yaml, where every stage is one of the enumeration.
use nbfc_compliance_agent.Prelude.{
  String, ◌≡◌, ◌≢◌, refl, Option, none, some, [], ◌∷◌, str_eq, if◌then◌else◌,
}
use nbfc_compliance_agent.Prelude.Dict.{Dict, get}
use nbfc_compliance_agent.Prelude.Raises.{Raises, returned, raised, unknown_rule_error, value_error}
use nbfc_compliance_agent.Domain.Enums.{
  Severity, critical, major, minor, informational, Verdict, compliant, violation, ambiguous,
  no_clause_found, LifecycleStage, origination, sanction, disbursement, servicing, collections,
  closure,
}

-- SEVERITY
abbrev pub severity_map : Dict Severity
severity_map =
    ("R01_docs_release_30d", critical)
    ∷ ("R02_docs_release_compensation", critical)
    ∷ ("R02b_lost_documents", critical)
    ∷ ("R03_apr_consistency", critical)
    ∷ ("R04_apr_computation", critical)
    ∷ ("R05_penal_not_interest", major)
    ∷ ("R06_no_capitalisation", major)
    ∷ ("R07_cooling_off_disclosed", major)
    ∷ ("R08_disbursal_to_borrower", critical)
    ∷ ("R09_no_pool_account", critical)
    ∷ ("R10_lsp_fee_borne_by_lender", major)
    ∷ ("R11_grievance_officer_in_kfs", minor)
    ∷ ("R12_grievance_escalation_disclosed", minor)
    ∷ ("R13_offshore_deletion", critical)
    ∷ ("R14_no_biometric", critical)
    ∷ ("R15_agent_identity_notified", minor)
    ∷ ("R16_contact_window", major)
    ∷ ("R17_microfinance_contact_hours", major)
    ∷ ("R18_recording_retention", minor)
    ∷ ("R19_agent_certified", major)
    ∷ ("R20_no_third_party_contact", critical)
    ∷ ("R21_no_social_media_disclosure", critical)
    ∷ ("R22_visit_prior_intimation", major)
    ∷ ("R23_device_restriction_preconditions", critical)
    ∷ ("R24_restoration_compensation", critical)
    ∷ ("R25_grievance_officer_on_recovery_comms", minor)
    ∷ ("R26_kfs_validity", major)
    ∷ ("R27_kfs_summary_reproduced", minor)
    ∷ []

-- FIELD_SEVERITY_DEFAULT
unfoldable pub field_severity_default : LifecycleStage → Severity
field_severity_default sanction = major
field_severity_default collections = major
field_severity_default closure = critical
field_severity_default servicing = minor
field_severity_default origination = minor
field_severity_default disbursement = major

rule_severity : Option Severity → Raises Severity
rule_severity none = raised unknown_rule_error
rule_severity (some s) = returned s

stage_severity : Option LifecycleStage → Raises Severity
unfolding field_severity_default
stage_severity none = raised value_error
stage_severity (some stage) = returned (field_severity_default stage)

-- `if rule_id:` is false for None and for the empty text.
by_rule : Option String → Option LifecycleStage → Raises Severity
unfolding stage_severity rule_severity get
by_rule none stage = stage_severity stage
by_rule (some rule_id) stage =
    if str_eq rule_id "" then stage_severity stage else rule_severity (get severity_map rule_id)

unfoldable pub severity_for : Option String → Option LifecycleStage → Verdict → Raises Severity
unfolding by_rule
severity_for rule_id lifecycle_stage no_clause_found = returned informational
severity_for rule_id lifecycle_stage verdict = by_rule rule_id lifecycle_stage

-- The severity does not depend on which conclusive verdict was reached.
pub severity_for-conclusive :
    (rule_id : Option String) (stage : Option LifecycleStage) (verdict : Verdict)
    → verdict ≢ no_clause_found
    → severity_for rule_id stage verdict ≡ severity_for rule_id stage violation
unfolding severity_for
severity_for-conclusive rule_id stage compliant h = refl
severity_for-conclusive rule_id stage violation h = refl
severity_for-conclusive rule_id stage ambiguous h = refl
severity_for-conclusive rule_id stage no_clause_found h = absurd (h refl)
