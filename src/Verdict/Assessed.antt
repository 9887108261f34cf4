-- ===== src/Verdict/Assessed.antt =====
-- What a run of `assess_fact` of app/verdict/assess.py leaves behind: a well-formed history, nothing
-- of a what-if, no call of the model where a rule decided, and no citation without a clause.
use nbfc_compliance_agent.Prelude.{
  ℕ, String, ◌≡◌, refl, inl, inr, true, ◌||◌, Option, Option-cases, none, some, List, [], ◌∷◌, ◌++◌,
  map, All-map, ◌∙◌, sym, subst, arith,
}
use nbfc_compliance_agent.Prelude.Dict.{Dict, get, is_some, has_key, has_key-assign_all}
use nbfc_compliance_agent.Prelude.Raises.{Raises-cases, returned}
use nbfc_compliance_agent.Domain.Enums.{
  LifecycleStage, Verdict, compliant, violation, ambiguous, no_clause_found, Severity,
  informational,
}
use nbfc_compliance_agent.Domain.Facts.{Date}
use nbfc_compliance_agent.Domain.Clauses.{ClauseCandidate, ClauseCandidateSet, find_path, by_path}
use nbfc_compliance_agent.Domain.Verdicts.{Citation, AssessmentResult, LoanAccountRef, VerdictDraft}
use nbfc_compliance_agent.Rules.Base.{FactIndex}
use nbfc_compliance_agent.Verdict.Severities.{severity_for, field_severity_default}
use nbfc_compliance_agent.Verdict.Validator.{RejectedCitation, validate}
use nbfc_compliance_agent.Verdict.Grounding.{Grounded, validate-Grounded}
use nbfc_compliance_agent.Verdict.Store.{Store}
use nbfc_compliance_agent.Verdict.Persist.{prior_open, persist}
use nbfc_compliance_agent.Verdict.State.{open_tally, recompute_loan_compliance_state}
use nbfc_compliance_agent.Verdict.Latest.{OneOpen, WellFormed}
use nbfc_compliance_agent.Verdict.History.{
  Resolves, persist_total, persist-WellFormed, persist_whatif,
}
use nbfc_compliance_agent.Verdict.Assess.{
  ExtractedFact, Client, Environment, candidate_pairs, candidate_ids, event_date, is_whatif,
  recompute, model_result, store_draft, assess_fact,
}
use nbfc_compliance_agent.Verdict.Run.{Keeps, assess_fact-Keeps}

-- Nothing that counts for an account differs: the states, the open assessments, and the tallies.
pub record SameStanding (before s : Store) : Type 0 where
  pub states : s.states ≡ before.states
  pub prior :
      (loan : ℕ) (check : String)
      → prior_open loan check s.assessments ≡ prior_open loan check before.assessments
  pub tally :
      (tenant loan snapshot : ℕ)
      → open_tally tenant loan snapshot s ≡ open_tally tenant loan snapshot before

WellFormed-same :
    (s t : Store)
    → t.assessments ≡ s.assessments
    → t.next_id ≡ s.next_id
    → WellFormed s
    → WellFormed t
WellFormed-same s t a n w = record {
  one_open = subst OneOpen (sym a) w.one_open;
  fresh = rw (n, a) w.fresh;
}

module _ (env : Environment) (facts : FactIndex) (account : LoanAccountRef) (fact : ExtractedFact)
    (document_event_date : Date) where
  recompute-WellFormed :
      (as_of : Option Date)
      → Keeps WellFormed (recompute env facts account fact document_event_date as_of)
  unfolding recompute recompute_loan_compliance_state
  recompute-WellFormed none s after u e w = WellFormed-same s after (ground arith) (ground arith) w
  recompute-WellFormed (some d) s after u e w = subst WellFormed (ground arith) w

  -- A run of assess_fact that returns, real or what-if, keeps the history well formed: at most one
  -- open assessment for each check of each account, and every id in it below the next to be given.
  pub assess_fact-WellFormed :
      (as_of : Option Date) (client : Client) (s after : Store) (results : List AssessmentResult)
      → assess_fact env facts account fact document_event_date as_of client s
        ≡ returned (results, after)
      → WellFormed s
      → WellFormed after
  assess_fact-WellFormed as_of client =
      assess_fact-Keeps WellFormed env facts account fact document_event_date as_of
        (λ result ids rejected s after id e w.
          persist-WellFormed _ _ _ result ids _ rejected s id after e w)
        (recompute-WellFormed as_of) client

  persist-SameStanding :
      (before : Store) (tenant loan : ℕ) (document_id : Option ℕ) (result : AssessmentResult)
      (ids : Dict ℕ) (rejected : List RejectedCitation)
      → Keeps (SameStanding before) (persist tenant loan document_id result ids true rejected)
  persist-SameStanding before tenant loan document_id result ids rejected s after id e same =
      let (states, prior, counts) =
        persist_whatif tenant loan document_id result ids true rejected s id after e refl in
      record {
        states = states ∙ same.states;
        prior = λ l c. prior l c ∙ same.prior l c;
        tally = λ t l n. counts t l n ∙ same.tally t l n;
      }

  recompute-SameStanding :
      (before : Store) (d : Date)
      → Keeps (SameStanding before) (recompute env facts account fact document_event_date (some d))
  unfolding recompute
  recompute-SameStanding before d s after u e same = subst (SameStanding before) (ground arith) same

  -- A what-if run of assess_fact that returns leaves every account's standing as it was: no
  -- compliance state changes, every check has the open assessment that it had, and the counts that
  -- a recomputation would take from the history are the same.
  pub assess_fact_whatif :
      (d : Date) (client : Client) (s after : Store) (results : List AssessmentResult)
      → assess_fact env facts account fact document_event_date (some d) client s
        ≡ returned (results, after)
      → SameStanding s after
  assess_fact_whatif d client s after results e =
      assess_fact-Keeps (SameStanding s) env facts account fact document_event_date (some d)
        (λ result ids rejected. persist-SameStanding s _ _ _ result ids rejected)
        (recompute-SameStanding s d) client s after results e
        (record { states = refl; prior = λ l c. refl; tally = λ t l n. refl })

find_path-has_key :
    (cs : List ClauseCandidate) (path : String)
    → is_some (find_path cs path)
      ≡ has_key (map (λ (c : ClauseCandidate). (c.clause_path, c.clause_id)) cs) path
unfolding find_path has_key is_some
find_path-has_key [] path = refl
find_path-has_key (c ∷ cs) path = ground (arith, find_path-has_key cs path)

by_path-has_key :
    (cs ds : List ClauseCandidate) (path : String)
    → (is_some (find_path cs path) || is_some (find_path ds path))
      ≡ has_key (map (λ (c : ClauseCandidate). (c.clause_path, c.clause_id)) (cs ++ ds)) path
unfolding find_path has_key is_some
by_path-has_key [] ds path = find_path-has_key ds path
by_path-has_key (c ∷ cs) ds path = ground (arith, by_path-has_key cs ds path)

Grounded-Resolves :
    (candidates : ClauseCandidateSet) (as_of : Date) (cit : Citation)
    → Grounded candidates as_of cit
    → Resolves (candidate_ids candidates) cit
unfolding candidate_ids by_path
Grounded-Resolves candidates as_of cit g =
    let found = g.resolved in
    let keyed = by_path-has_key candidates.candidates candidates.context_only cit.clause_path in
    let assigned = has_key-assign_all (candidate_pairs candidates) [] cit.clause_path in
    elim (Option-cases (get (candidate_ids candidates) cit.clause_path)) [
      | inl absent ↦ absurd (unfold is_some in ground (arith, found, keyed, assigned, absent))
      | inr (n, known) ↦ record { clause_id = n; known = known }
    ]

stage_severity_total :
    (stage : LifecycleStage) (verdict : Verdict)
    → (severity : Severity) × (severity_for none (some stage) verdict ≡ returned severity)
unfolding severity_for
stage_severity_total stage compliant = (field_severity_default stage, refl)
stage_severity_total stage violation = (field_severity_default stage, refl)
stage_severity_total stage ambiguous = (field_severity_default stage, refl)
stage_severity_total stage no_clause_found = (informational, refl)

module _ (env : Environment) (facts : FactIndex) (account : LoanAccountRef) (fact : ExtractedFact)
    (document_event_date : Date) (as_of : Option Date) where
  -- Whatever the model drafts, storing what the validator leaves of it returns: no citation that
  -- survives validation lacks a clause id, so the assertion on unresolvable citations never fires,
  -- and the severity is always known.
  pub store_draft_total :
      (stage : LifecycleStage) (candidates : ClauseCandidateSet) (draft : VerdictDraft) (s : Store)
      → (result : AssessmentResult) × (after : Store) × (store_draft env facts account fact
            document_event_date as_of stage candidates draft s
          ≡ returned (result, after))
  unfolding store_draft model_result
  store_draft_total stage candidates draft s =
      let date = event_date env facts account fact document_event_date as_of in
      let validated = validate draft candidates date in
      let (severity, known) = stage_severity_total stage validated.verdict in
      let result =
        model_result env facts account fact document_event_date as_of validated draft candidates
          severity in
      let ((id, after), stored) =
        (persist_total account.tenant_id fact.loan_account_id fact.document_id result
            (candidate_ids candidates) (is_whatif env facts account fact document_event_date as_of)
            validated.rejected s).1
          (All-map (Grounded candidates date) (Resolves (candidate_ids candidates))
            (Grounded-Resolves candidates date) validated.citations
            (validate-Grounded draft candidates date)) in
      elim (Raises-cases
        (store_draft env facts account fact document_event_date as_of stage candidates draft s)) [
          | inl ((r, t), ok) ↦ (r, t, ok)
          | inr (x, bad) ↦ absurd (ground (arith, known, stored, bad))
        ]
