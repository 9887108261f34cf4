-- ===== src/Verdict/Assess.antt =====
-- `assess_fact` of app/verdict/assess.py with the two queries before it and `_from_rule_outcome`.
-- What the model answers is a parameter, a function of the candidate set: the prompt, and the
-- telemetry of the call, are left out. The accounts' facts are read before anything is written.
use Prim.Native.String.{◌++◌ as str_append}
use nbfc_compliance_agent.Prelude.{
  ℕ, ◌==◌, String, Bool, true, false, not, ◌&&◌, ◌||◌, Option, none, some, List, [], ◌∷◌, ◌++◌, map,
  keep, length, member, if◌then◌else◌,
}
use nbfc_compliance_agent.Prelude.Dict.{Dict, assign_all}
use nbfc_compliance_agent.Prelude.Raises.{Raises, returned, raised, missing_fact}
use nbfc_compliance_agent.Domain.Enums.{
  BorrowerClass, general, microfinance, LifecycleStage, VerificationStatus, Severity, high,
  DecidedBy, validator_downgrade,
}
use nbfc_compliance_agent.Domain.Facts.{Date}
use nbfc_compliance_agent.Domain.Clauses.{ClauseCandidate, ClauseCandidateSet}
use nbfc_compliance_agent.Domain.Verdicts.{AssessmentResult, LoanAccountRef, VerdictDraft}
use nbfc_compliance_agent.Rules.Base.{
  Rule, RuleOutcome, FactIndex, ClauseExcerpts, Evaluated, not_applicable, outcome,
}
use nbfc_compliance_agent.Rules.Registry.{Registry, rules_for_field, is_shadow}
use nbfc_compliance_agent.Retrieve.Corpus.{Corpus, Clause, Instrument}
use nbfc_compliance_agent.Retrieve.Fusion.{Scores}
use nbfc_compliance_agent.Retrieve.Service.{SearchEngine, Settings, retrieve_candidates}
use nbfc_compliance_agent.Verdict.Severities.{severity_for}
use nbfc_compliance_agent.Verdict.Validator.{ValidationOutcome, validate}
use nbfc_compliance_agent.Verdict.Store.{Transaction, pure, lift, ◌>>=◌}
use nbfc_compliance_agent.Verdict.Persist.{persist}
use nbfc_compliance_agent.Verdict.State.{recompute_loan_compliance_state}

-- What the function reads of an ExtractedFactOut.
pub record ExtractedFact : Type 0 where
  pub field_key : String
  pub loan_account_id : ℕ
  pub document_id : Option ℕ

-- `client.embed` and `client.structured`.
pub record Client : Type 0 where
  pub embed : Raises (Unit {0})
  pub structured : ClauseCandidateSet → Raises VerdictDraft

-- What surrounds a run: the corpus and retrieval, the imported rules, and the field registry, which
-- gives a known field's lifecycle stage.
pub record Environment : Type 1 where
  pub corpus : Corpus
  pub pins : Dict (List String)
  pub scores : Scores
  pub engine : SearchEngine
  pub settings : Settings
  pub registry : Registry
  pub stage_of : String → Raises LifecycleStage
  pub snapshot_id : ℕ

-- _load_clause_refs
unfoldable pub load_clause_refs : Corpus → ℕ → List String → List Clause
load_clause_refs corpus snapshot_id clause_paths =
    keep (λ (c : Clause). c.snapshot_id == snapshot_id && member c.clause_path clause_paths)
      corpus.clauses

abbrev pub clause_excerpts : List Clause → ClauseExcerpts
clause_excerpts refs = assign_all (map (λ (c : Clause). (c.clause_path, c.text)) refs) []

abbrev pub ref_ids : List Clause → Dict ℕ
ref_ids refs = assign_all (map (λ (c : Clause). (c.clause_path, c.clause_id)) refs) []

-- _load_instrument_verification
unfoldable pub load_instrument_verification : Corpus → ℕ → Dict VerificationStatus
load_instrument_verification corpus snapshot_id =
    assign_all
      (map (λ (i : Instrument). (i.code, i.verification_status))
        (keep (λ (i : Instrument). i.snapshot_id == snapshot_id) corpus.instruments))
      []

abbrev pub candidate_pairs : ClauseCandidateSet → List (String × ℕ)
candidate_pairs candidates =
    map (λ (c : ClauseCandidate). (c.clause_path, c.clause_id))
      (candidates.candidates ++ candidates.context_only)

-- `{c.clause_path: c.clause_id for c in [*candidates.candidates, *candidates.context_only]}`
unfoldable pub candidate_ids : ClauseCandidateSet → Dict ℕ
candidate_ids candidates = assign_all (candidate_pairs candidates) []

-- The results, and any_rule_decided.
abbrev pub Ruled : Type 0
Ruled = List AssessmentResult × Bool

module _ (env : Environment) (facts : FactIndex) (account : LoanAccountRef) (fact : ExtractedFact)
    (document_event_date : Date) (as_of : Option Date) where
  -- `as_of or document_event_date`
  abbrev pub event_date : Date
  event_date = elim as_of [ none ↦ document_event_date | some d ↦ d ]

  abbrev pub is_whatif : Bool
  is_whatif = elim as_of [ none ↦ false | some d ↦ true ]

  rule_result : Rule → RuleOutcome → Bool → Severity → AssessmentResult
  rule_result rule o shadow severity = record {
    check_key = rule.check_key;
    field_key = fact.field_key;
    event_date = event_date;
    verdict = o.verdict;
    severity = severity;
    confidence_band = high;
    rationale = o.rationale;
    decided_by = if shadow then DecidedBy.shadow else DecidedBy.rule;
    rule_id = some rule.id;
    is_shadow = shadow;
    is_whatif = false;
    citations = o.citations;
    corpus_snapshot_id = env.snapshot_id;
    candidate_clause_count = length o.citations;
  }

  unfoldable pub from_rule_outcome : Rule → RuleOutcome → Bool → Raises AssessmentResult
  unfolding rule_result
  from_rule_outcome rule o shadow = elim (severity_for (some rule.id) none o.verdict) [
    | raised e ↦ raised e
    | returned severity ↦ returned (rule_result rule o shadow severity)
  ]

  abbrev pub store_result : AssessmentResult → Dict ℕ → Transaction ℕ
  store_result result ids =
      persist account.tenant_id fact.loan_account_id fact.document_id result ids is_whatif []

  unfoldable pub fire : Rule → RuleOutcome → List Clause → Transaction (AssessmentResult × Bool)
  fire rule o refs =
      lift
        (is_shadow env.registry rule.id (load_instrument_verification env.corpus env.snapshot_id))
      >>= λ shadow. lift (from_rule_outcome rule o shadow) >>= λ result.
          store_result result (ref_ids refs) >>= λ id. pure (result, shadow)

  -- The body of the loop, with what the rest of the loop does.
  unfoldable pub consider :
      Rule → List Clause → Transaction Ruled → Raises Evaluated → Transaction Ruled
  consider rule refs rest (raised (missing_fact k)) = rest
  consider rule refs rest (returned not_applicable) = rest
  consider rule refs rest (returned (outcome o)) = fire rule o refs >>= λ fired.
      rest >>= λ later. pure (fired.0 ∷ later.0, not fired.1 || later.1)
  consider rule refs rest (raised e) = lift (raised e)

  -- The loop over the rules.
  unfoldable pub run_rules : List Rule → Transaction Ruled
  run_rules [] = pure ([], false)
  run_rules (rule ∷ rules) =
      let refs = load_clause_refs env.corpus env.snapshot_id rule.clause_paths in
      consider rule refs (run_rules rules)
        (rule.evaluate facts account event_date (clause_excerpts refs))

  unfoldable pub recompute : Transaction (Unit {0})
  recompute =
      if is_whatif
      then pure tt
      else recompute_loan_compliance_state account.tenant_id fact.loan_account_id env.snapshot_id

  unfoldable pub model_result :
      ValidationOutcome → VerdictDraft → ClauseCandidateSet → Severity → AssessmentResult
  model_result validated draft candidates severity = record {
    check_key = str_append "F:" fact.field_key;
    field_key = fact.field_key;
    event_date = event_date;
    verdict = validated.verdict;
    severity = severity;
    confidence_band = draft.confidence_band;
    rationale = draft.rationale;
    decided_by = if validated.downgraded then validator_downgrade else DecidedBy.model;
    rule_id = none;
    is_shadow = false;
    is_whatif = is_whatif;
    citations = validated.citations;
    corpus_snapshot_id = env.snapshot_id;
    candidate_clause_count = length candidates.candidates;
  }

  abbrev pub borrower_class : BorrowerClass
  borrower_class = if account.is_microfinance then microfinance else general

  -- The call of retrieve_candidates.
  abbrev pub offered : Raises ClauseCandidateSet
  offered =
      retrieve_candidates env.scores env.engine env.settings env.corpus env.pins env.snapshot_id
        account.entity_type borrower_class (some event_date) fact.field_key true

  -- What happens once the model's draft is there.
  unfoldable pub store_draft :
      LifecycleStage → ClauseCandidateSet → VerdictDraft → Transaction AssessmentResult
  unfolding model_result
  store_draft stage candidates draft =
      let validated = validate draft candidates event_date in
      lift (severity_for none (some stage) validated.verdict) >>= λ severity.
      (let result = model_result validated draft candidates severity in
        persist account.tenant_id fact.loan_account_id fact.document_id result
          (candidate_ids candidates) is_whatif validated.rejected
        >>= λ id. pure result)

  unfoldable pub ask_model : Client → LifecycleStage → Transaction AssessmentResult
  ask_model client stage = lift client.embed >>= λ query_vector. lift offered >>= λ candidates.
      lift (client.structured candidates) >>= λ draft. store_draft stage candidates draft

  -- What follows the loop: a rule that decided ends the run.
  unfoldable pub finish : Client → LifecycleStage → Ruled → Transaction (List AssessmentResult)
  finish client stage (results, true) = recompute >>= λ u. pure results
  finish client stage (results, false) =
      ask_model client stage >>= λ result. recompute >>= λ u. pure (results ++ (result ∷ []))

  unfoldable pub assess_fact : Client → Transaction (List AssessmentResult)
  assess_fact client = lift (env.stage_of fact.field_key) >>= λ stage.
      run_rules (rules_for_field env.registry fact.field_key) >>= λ ruled. finish client stage ruled
