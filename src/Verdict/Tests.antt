-- ===== src/Verdict/Tests.antt =====
-- Test data for app/verdict: a candidate set, a model's draft, and a store with one assessment.
use nbfc_compliance_agent.Prelude.{
  ℕ, ◌↔◌, ◌≤◌, ltb, count, String, ◌≡◌, refl, Bool, true, false, none, some, [], ◌∷◌, All, arith,
}
use nbfc_compliance_agent.Prelude.Dict.{Dict, get}
use nbfc_compliance_agent.Prelude.Raises.{Raises, returned, raised}
use nbfc_compliance_agent.Domain.Enums.{
  general, pinned, compliant, violation, ambiguous, no_clause_found, critical, high, DecidedBy,
  decisive,
}
use nbfc_compliance_agent.Domain.Facts.{Date, words}
use nbfc_compliance_agent.Domain.Clauses.{ClauseCandidate, ClauseCandidateSet}
use nbfc_compliance_agent.Domain.Verdicts.{Citation, VerdictDraft, AssessmentResult}
use nbfc_compliance_agent.Verdict.Validator.{is_conclusive, validate}
use nbfc_compliance_agent.Verdict.Grounding.{Grounded, validate-Grounded}
use nbfc_compliance_agent.Verdict.Downgrade.{decisives, validate_conclusive_exact}
use nbfc_compliance_agent.Verdict.Store.{Assessment, Store}
use nbfc_compliance_agent.Prelude.Chars.{codes, is_nil}
use nbfc_compliance_agent.Verdict.Quotes.{is_literal_substring, Occurs}
use nbfc_compliance_agent.Verdict.Words.{spaced, is_literal_substring_words}
use nbfc_compliance_agent.Verdict.Persist.{prior_open, citation_rows, persist}
use nbfc_compliance_agent.Verdict.State.{open_tally, severity_rank}
use nbfc_compliance_agent.Verdict.Latest.{open_count, WellFormed}
use nbfc_compliance_agent.Verdict.History.{Resolves, persist-WellFormed, persist_latest}
use nbfc_compliance_agent.Verdict.Standing.{top_rank, counted, has_verdict, open_tally_exact}

-- 2 March 2026.
abbrev pub today : Date
today = 739677

abbrev clause : ClauseCandidate
clause = record {
  ref = record {
    clause_id = 11;
    clause_path = "RBC2025/p35";
    instrument_code = "RBC2025";
    effective_from = some 739583;
    effective_to = none;
    citable = true;
  };
  heading = none;
  text = "Documents shall be released within 30 days.";
  source = pinned;
  rank = 1;
  exclusion_reason = none;
  context_note = none;
}

abbrev pub candidates : ClauseCandidateSet
candidates = record {
  as_of = today;
  entity_type = "nbfc_icc";
  borrower_class = general;
  candidates = clause ∷ [];
  context_only = [];
  snapshot_id = 1;
}

abbrev quote : String → Citation
quote path = record {
  clause_path = path;
  role = decisive;
  quoted_clause_excerpt = "released  within 30 days";
  context_note = none;
}

-- One citation that is good, and one of a clause that was not offered.
abbrev pub draft : VerdictDraft
draft = record {
  verdict = violation;
  citations = quote "RBC2025/p35" ∷ quote "RBC2025/p99" ∷ [];
  rationale = words "Late." ∷ [];
  confidence_band = high;
}

validate-Grounded_example :
    All (Grounded candidates today) (validate draft candidates today).citations
validate-Grounded_example = validate-Grounded draft candidates today

validate_conclusive_exact_example :
    is_conclusive (validate draft candidates today).verdict
    ≡ ltb 0 (decisives (validate draft candidates today).citations)
validate_conclusive_exact_example = validate_conclusive_exact draft candidates today

is_literal_substring_words_example : (is_literal_substring "within  30" "within 30 days" ≡ true) ↔ (
    (is_nil (codes "within  30") ≡ false)
    × Occurs (spaced (codes "within  30")) (spaced (codes "within 30 days")))
is_literal_substring_words_example = is_literal_substring_words "within  30" "within 30 days"

abbrev result : AssessmentResult
result = record {
  check_key = "R01_docs_release_30d";
  field_key = "full_repayment_date";
  event_date = today;
  verdict = violation;
  severity = critical;
  confidence_band = high;
  rationale = words "Late." ∷ [];
  decided_by = DecidedBy.rule;
  rule_id = some "R01_docs_release_30d";
  is_shadow = false;
  is_whatif = false;
  citations = quote "RBC2025/p35" ∷ [];
  corpus_snapshot_id = 1;
  candidate_clause_count = 1;
}

abbrev earlier : Assessment
earlier = record {
  id = 4;
  tenant_id = 1;
  loan_account_id = 7;
  document_id = none;
  result = record result { verdict = compliant };
  whatif = false;
  superseded_by_id = none;
}

abbrev pub store : Store
store = record {
  next_id = 5;
  assessments = earlier ∷ [];
  citations = [];
  audit = [];
  conflicts = [];
  states = [];
}

abbrev clause_ids : Dict ℕ
clause_ids = ("RBC2025/p35", 11) ∷ []

pub store-WellFormed : WellFormed store
unfolding open_count count
store-WellFormed = record {
  one_open = record { at_most_one = λ loan check. ground arith };
  fresh = (omega arith, tt);
}

after_or : Raises (ℕ × Store) → Store
after_or (returned p) = p.1
after_or (raised e) = store

after : Bool → Store
unfolding persist after_or
after is_whatif = after_or (persist 1 7 none result clause_ids is_whatif [] store)

done : (w : Bool) → persist 1 7 none result clause_ids w [] store ≡ returned (5, after w)
unfolding persist citation_rows after after_or get
done w = refl

resolved : All (Resolves clause_ids) result.citations
unfolding get
resolved = (record { clause_id = 11; known = refl }, tt)

persist-WellFormed_example : WellFormed (after false)
persist-WellFormed_example =
    persist-WellFormed 1 7 none result clause_ids false [] store 5 (after false) (done false)
      store-WellFormed

persist_latest_example :
    (prior_open 7 "R01_docs_release_30d" (after false).assessments ≡ some 5)
    × (open_count 7 "R01_docs_release_30d" (after false).assessments ≤ 1)
persist_latest_example =
    persist_latest 1 7 none result clause_ids false [] store 5 (after false) (done false)
      store-WellFormed refl

open_tally_exact_example :
    ((open_tally 1 7 1 store).open_violations ≡ count (has_verdict violation) (counted 1 7 1 store))
    × ((open_tally 1 7 1 store).open_ambiguous
        ≡ count (has_verdict ambiguous) (counted 1 7 1 store))
    × ((open_tally 1 7 1 store).open_no_clause
        ≡ count (has_verdict no_clause_found) (counted 1 7 1 store))
    × (severity_rank (open_tally 1 7 1 store).highest_severity ≡ top_rank (counted 1 7 1 store))
open_tally_exact_example = open_tally_exact 1 7 1 store
