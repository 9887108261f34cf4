-- ===== src/Verdict/RunTests.antt =====
-- Test data for `assess_fact` of app/verdict/assess.py: one rule that fires on a late release.
use nbfc_compliance_agent.Prelude.{
  ◌≡◌, refl, true, false, none, some, Option, List, [], ◌∷◌, any, keep, member,
}
use nbfc_compliance_agent.Prelude.Dict.{get, set, assign_all}
use nbfc_compliance_agent.Prelude.Raises.{Raises, returned, raised, client_error}
use nbfc_compliance_agent.Domain.Enums.{critical, closure}
use nbfc_compliance_agent.Domain.Facts.{Date, days_between}
use nbfc_compliance_agent.Domain.Verdicts.{AssessmentResult}
use nbfc_compliance_agent.Rules.Base.{get_record, value, fact, flag_of, date_of, cite}
use nbfc_compliance_agent.Rules.Path.{instrument_of}
use nbfc_compliance_agent.Rules.Release.{r01}
use nbfc_compliance_agent.Rules.Registry.{
  Registry, rules_of, rules_for_field, is_shadow, unverified_basis,
}
use nbfc_compliance_agent.Rules.Tests.{late_release, loan, in_2026}
use nbfc_compliance_agent.Retrieve.Corpus.{Corpus}
use nbfc_compliance_agent.Retrieve.Tests.{clause, instrument, scores, engine, settings, pins}
use nbfc_compliance_agent.Verdict.Severities.{severity_for}
use nbfc_compliance_agent.Verdict.Store.{Store}
use nbfc_compliance_agent.Verdict.Persist.{persist, citation_rows}
use nbfc_compliance_agent.Verdict.State.{recompute_loan_compliance_state}
use nbfc_compliance_agent.Verdict.Assess.{
  ExtractedFact, Client, Environment, Ruled, load_clause_refs, load_instrument_verification,
  from_rule_outcome, fire, consider, run_rules, recompute, finish, store_draft, assess_fact,
}
use nbfc_compliance_agent.Verdict.Decides.{is_firm, rule_decides}
use nbfc_compliance_agent.Verdict.Assessed.{SameStanding, assess_fact_whatif, store_draft_total}
use nbfc_compliance_agent.Verdict.Tests.{candidates, draft, store}

abbrev pub registry : Registry
registry =
    (
      "R01_docs_release_30d",
      record { rule_cls = r01; shadow_if_unverified = true; severity = critical },
    )
    ∷ []

abbrev pub corpus : Corpus
corpus = record {
  clauses = clause 1 "RBC2025/p35" ∷ [];
  instruments = instrument ∷ [];
  references = [];
}

abbrev pub environment : Environment
environment = record {
  corpus = corpus;
  pins = pins;
  scores = scores;
  engine = engine;
  settings = settings;
  registry = registry;
  stage_of = λ key. returned closure;
  snapshot_id = 1;
}

abbrev repayment : ExtractedFact
repayment = record { field_key = "full_repayment_date"; loan_account_id = 7; document_id = none }

-- A client that answers, and one that is down.
abbrev pub answering : Client
answering = record { embed = returned tt; structured = λ set. returned draft }

abbrev down : Client
down = record { embed = raised client_error; structured = λ set. raised client_error }

store_draft_total_example :
    (result : AssessmentResult) × (after : Store) × (store_draft environment late_release
        (loan false)
        repayment
        in_2026
        none
        closure
        candidates
        draft
        store
      ≡ returned (result, after))
store_draft_total_example =
    store_draft_total environment late_release (loan false) repayment in_2026 none closure
      candidates draft store

ruled_or : Raises (Ruled × Store) → Ruled × Store
ruled_or (returned p) = p
ruled_or (raised e) = (([], false), store)

ruled : Ruled × Store
unfolding ruled_or
ruled = ruled_or (
    run_rules environment late_release (loan false) repayment in_2026 none
      (rules_for_field registry "full_repayment_date") store)

ran :
    run_rules environment late_release
      (loan false)
      repayment
      in_2026
      none
      (rules_for_field registry "full_repayment_date")
      store
    ≡ returned ruled
unfolding ruled ruled_or run_rules rules_for_field rules_of keep member r01 consider flag_of date_of
    fact get_record value get days_between fire load_clause_refs load_instrument_verification
    assign_all set is_shadow unverified_basis instrument_of from_rule_outcome severity_for persist
    citation_rows cite
ran = refl

fired : any is_firm ruled.0.0 ≡ true
unfolding ruled ruled_or run_rules rules_for_field rules_of keep member r01 consider flag_of date_of
    fact get_record value get days_between fire load_clause_refs load_instrument_verification
    assign_all set is_shadow unverified_basis instrument_of from_rule_outcome severity_for persist
    citation_rows cite any is_firm
fired = refl

rule_decides_example :
    assess_fact environment late_release (loan false) repayment in_2026 none answering store
    ≡ assess_fact environment late_release (loan false) repayment in_2026 none down store
rule_decides_example =
    rule_decides environment late_release (loan false) repayment in_2026 none answering down store
      ruled.1 ruled.0 ran fired

run_or : Raises (List AssessmentResult × Store) → List AssessmentResult × Store
run_or (returned p) = p
run_or (raised e) = ([], store)

run : Option Date → List AssessmentResult × Store
unfolding run_or
run as_of =
    run_or
      (assess_fact environment late_release (loan false) repayment in_2026 as_of answering store)

real :
    assess_fact environment late_release (loan false) repayment in_2026 none answering store
    ≡ returned (run none)
unfolding run run_or assess_fact finish recompute recompute_loan_compliance_state run_rules
    rules_for_field rules_of keep member r01 consider flag_of date_of fact get_record value get
    days_between fire load_clause_refs load_instrument_verification assign_all set is_shadow
    unverified_basis instrument_of from_rule_outcome severity_for persist citation_rows cite
real = refl

whatif :
    assess_fact environment late_release
      (loan false)
      repayment
      in_2026
      (some 739700)
      answering
      store
    ≡ returned (run (some 739700))
unfolding run run_or assess_fact finish recompute run_rules rules_for_field rules_of keep member r01
    consider flag_of date_of fact get_record value get days_between fire load_clause_refs
    load_instrument_verification assign_all set is_shadow unverified_basis instrument_of
    from_rule_outcome severity_for persist citation_rows cite
whatif = refl

assess_fact_whatif_example : SameStanding store (run (some 739700)).1
assess_fact_whatif_example =
    assess_fact_whatif environment late_release (loan false) repayment in_2026 739700 answering
      store (run (some 739700)).1 (run (some 739700)).0 whatif
