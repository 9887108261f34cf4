-- ===== src/Verdict/Run.antt =====
-- What `assess_fact` of app/verdict/assess.py keeps of the account's history and standing, and what
-- a rule that decides means for the model.
use nbfc_compliance_agent.Prelude.{
  ℕ, ◌≡◌, inl, inr, true, false, Option, List, [], ◌∷◌, ◌++◌, subst, arith,
}
use nbfc_compliance_agent.Prelude.Dict.{Dict}
use nbfc_compliance_agent.Prelude.Raises.{Raises, Raises-cases, returned, raised, missing_fact}
use nbfc_compliance_agent.Domain.Enums.{LifecycleStage}
use nbfc_compliance_agent.Domain.Facts.{Date}
use nbfc_compliance_agent.Domain.Clauses.{ClauseCandidateSet}
use nbfc_compliance_agent.Domain.Verdicts.{AssessmentResult, LoanAccountRef, VerdictDraft}
use nbfc_compliance_agent.Rules.Base.{
  Rule, RuleOutcome, FactIndex, Evaluated, not_applicable, outcome,
}
use nbfc_compliance_agent.Rules.Registry.{is_shadow}
use nbfc_compliance_agent.Retrieve.Corpus.{Clause}
use nbfc_compliance_agent.Verdict.Validator.{RejectedCitation}
use nbfc_compliance_agent.Verdict.Store.{Store, Transaction, pure, lift, ◌>>=◌}
use nbfc_compliance_agent.Verdict.Persist.{persist}
use nbfc_compliance_agent.Verdict.Assess.{
  ExtractedFact, Client, Environment, Ruled, load_instrument_verification, from_rule_outcome,
  ref_ids, fire, consider, run_rules, recompute, store_draft, ask_model, offered, finish,
  assess_fact, is_whatif,
}

-- Whatever the transaction returns, the property still holds after it.
abbrev pub Keeps : {A : Type 0} → (Store → Type 0) → Transaction A → Type 0
Keeps {A = A} I m = (s after : Store) (a : A) → m s ≡ returned (a, after) → I s → I after

module _ (I : Store → Type 0) {A : Type 0} where
  pub pure-Keeps : (a : A) → Keeps I (pure a)
  pure-Keeps a s after b e i = subst I (ground arith) i

  pub lift-Keeps : (r : Raises A) → Keeps I (lift r)
  lift-Keeps (returned a) s after b e i = subst I (ground arith) i
  lift-Keeps (raised x) s after b e i = absurd (ground arith)

  pub bind-Keeps :
      {B : Type 0} (m : Transaction A) (f : A → Transaction B)
      → Keeps I m
      → ((a : A) → Keeps I (f a))
      → Keeps I (m >>= f)
  bind-Keeps m f first then_ s after b e i = elim (Raises-cases (m s)) [
    | inr (x, bad) ↦ absurd (ground arith)
    | inl ((a, s'), ok) ↦ then_ a s' after b (ground arith) (first s s' a ok i)
  ]

module _ (I : Store → Type 0) (env : Environment) (facts : FactIndex) (account : LoanAccountRef)
    (fact : ExtractedFact) (document_event_date : Date) (as_of : Option Date)
    (kept : (result : AssessmentResult) (ids : Dict ℕ) (rejected : List RejectedCitation)
      → Keeps I (
          persist account.tenant_id fact.loan_account_id fact.document_id result ids
            (is_whatif env facts account fact document_event_date as_of)
            rejected))
    (recomputed : Keeps I (recompute env facts account fact document_event_date as_of)) where
  fire-Keeps :
      (rule : Rule) (o : RuleOutcome) (refs : List Clause)
      → Keeps I (fire env facts account fact document_event_date as_of rule o refs)
  unfolding fire
  fire-Keeps rule o refs =
      bind-Keeps I _ _
        (lift-Keeps I (
          is_shadow env.registry rule.id (load_instrument_verification env.corpus env.snapshot_id)))
        λ shadow.
          bind-Keeps I _ _
            (lift-Keeps I
              (from_rule_outcome env facts account fact document_event_date as_of rule o shadow))
            λ result.
              bind-Keeps I _ _ (kept result (ref_ids refs) []) λ id. pure-Keeps I (result, shadow)

  consider-Keeps :
      (rule : Rule) (refs : List Clause) (rest : Transaction Ruled) (r : Raises Evaluated)
      → Keeps I rest
      → Keeps I (consider env facts account fact document_event_date as_of rule refs rest r)
  unfolding consider
  consider-Keeps rule refs rest (raised (missing_fact k)) h = h
  consider-Keeps rule refs rest (returned not_applicable) h = h
  consider-Keeps rule refs rest (returned (outcome o)) h =
      bind-Keeps I _ _ (fire-Keeps rule o refs) λ fired. bind-Keeps I _ _ h λ later. pure-Keeps I _
  consider-Keeps rule refs rest (raised e) h = lift-Keeps I (raised e)

  run_rules-Keeps :
      (rules : List Rule)
      → Keeps I (run_rules env facts account fact document_event_date as_of rules)
  unfolding run_rules
  run_rules-Keeps [] = pure-Keeps I ([], false)
  run_rules-Keeps (rule ∷ rules) = consider-Keeps rule _ _ _ (run_rules-Keeps rules)

  store_draft-Keeps :
      (stage : LifecycleStage) (candidates : ClauseCandidateSet) (draft : VerdictDraft)
      → Keeps I
          (store_draft env facts account fact document_event_date as_of stage candidates draft)
  unfolding store_draft
  store_draft-Keeps stage candidates draft =
      bind-Keeps I _ _ (lift-Keeps I _)
        λ severity. bind-Keeps I _ _ (kept _ _ _) λ id. pure-Keeps I _

  ask_model-Keeps :
      (client : Client) (stage : LifecycleStage)
      → Keeps I (ask_model env facts account fact document_event_date as_of client stage)
  unfolding ask_model
  ask_model-Keeps client stage = bind-Keeps I _ _ (lift-Keeps I client.embed) λ v.
      bind-Keeps I _ _ (lift-Keeps I (offered env facts account fact document_event_date as_of))
        λ candidates.
          bind-Keeps I _ _ (lift-Keeps I (client.structured candidates))
            λ draft. store_draft-Keeps stage candidates draft

  finish-Keeps :
      (client : Client) (stage : LifecycleStage) (ruled : Ruled)
      → Keeps I (finish env facts account fact document_event_date as_of client stage ruled)
  unfolding finish
  finish-Keeps client stage (results, true) = bind-Keeps I _ _ recomputed λ u. pure-Keeps I results
  finish-Keeps client stage (results, false) =
      bind-Keeps I _ _ (ask_model-Keeps client stage)
        λ result. bind-Keeps I _ _ recomputed λ u. pure-Keeps I (results ++ (result ∷ []))

  pub assess_fact-Keeps :
      (client : Client)
      → Keeps I (assess_fact env facts account fact document_event_date as_of client)
  unfolding assess_fact
  assess_fact-Keeps client =
      bind-Keeps I _ _ (lift-Keeps I _)
        λ stage. bind-Keeps I _ _ (run_rules-Keeps _) λ ruled. finish-Keeps client stage ruled
