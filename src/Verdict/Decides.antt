-- ===== src/Verdict/Decides.antt =====
-- When the rules of `assess_fact` of app/verdict/assess.py leave the model out.
use nbfc_compliance_agent.Prelude.{
  ◌≡◌, inl, inr, Bool, true, not, Option, List, [], ◌∷◌, any, arith,
}
use nbfc_compliance_agent.Prelude.Raises.{Raises, Raises-cases, returned, raised, missing_fact}
use nbfc_compliance_agent.Domain.Facts.{Date}
use nbfc_compliance_agent.Domain.Verdicts.{AssessmentResult, LoanAccountRef}
use nbfc_compliance_agent.Rules.Base.{
  Rule, RuleOutcome, FactIndex, Evaluated, not_applicable, outcome,
}
use nbfc_compliance_agent.Rules.Registry.{rules_for_field, is_shadow}
use nbfc_compliance_agent.Retrieve.Corpus.{Clause}
use nbfc_compliance_agent.Verdict.Store.{Store, Transaction, lift, ◌>>=◌}
use nbfc_compliance_agent.Verdict.Assess.{
  ExtractedFact, Client, Environment, Ruled, from_rule_outcome, load_instrument_verification,
  ref_ids, store_result, fire, consider, run_rules, finish, assess_fact,
}

-- What a transaction returns, where it returns, has the property.
abbrev Ensures : {A : Type 0} → (A → Type 0) → Transaction A → Type 0
Ensures {A = A} Q m = (s after : Store) (a : A) → m s ≡ returned (a, after) → Q a

module _ {A B : Type 0} (P : A → Type 0) (Q : B → Type 0) where
  bind-Ensures :
      (m : Transaction A) (f : A → Transaction B)
      → Ensures P m
      → ((a : A) → P a → Ensures Q (f a))
      → Ensures Q (m >>= f)
  bind-Ensures m f first then_ s after b e = elim (Raises-cases (m s)) [
    | inr (x, bad) ↦ absurd (ground arith)
    | inl ((a, s'), ok) ↦ then_ a (first s s' a ok) s' after b (ground arith)
  ]

-- The result of a rule that is not a shadow rule.
unfoldable pub is_firm : AssessmentResult → Bool
is_firm r = not r.is_shadow

-- The flag tells whether some result is not a shadow rule's.
pub Decided : Ruled → Type 0
Decided ruled = ruled.1 ≡ any is_firm ruled.0

module _ (env : Environment) (facts : FactIndex) (account : LoanAccountRef) (fact : ExtractedFact)
    (document_event_date : Date) (as_of : Option Date) where
  from_rule_outcome-shadow :
      (rule : Rule) (o : RuleOutcome) (shadow : Bool)
      → Ensures
          (λ (r : AssessmentResult). r.is_shadow ≡ shadow)
          (lift (from_rule_outcome env facts account fact document_event_date as_of rule o shadow))
  unfolding from_rule_outcome
  from_rule_outcome-shadow rule o shadow s after r e = ground arith

  fire-shadow :
      (rule : Rule) (o : RuleOutcome) (refs : List Clause)
      → Ensures
          (λ fired. fired.0.is_shadow ≡ fired.1)
          (fire env facts account fact document_event_date as_of rule o refs)
  unfolding fire
  fire-shadow rule o refs s after fired e =
      elim (Raises-cases (
        is_shadow env.registry rule.id (load_instrument_verification env.corpus env.snapshot_id))) [
          | inr (x, bad) ↦ absurd (ground (arith, bad, e))
          | inl (shadow, p) ↦
              elim (Raises-cases (
                from_rule_outcome env facts account fact document_event_date as_of rule o shadow)) [
                  | inr (x, bad) ↦ absurd (ground (arith, p, bad, e))
                  | inl (result, q) ↦
                      let same =
                        from_rule_outcome-shadow rule o shadow s s result (ground (arith, q)) in
                      elim (Raises-cases (
                        store_result env facts account fact document_event_date as_of result
                          (ref_ids refs) s)) [
                            | inr (x, bad) ↦ absurd (ground (arith, p, q, bad, e))
                            | inl (stored, r) ↦ ground (arith, p, q, r, e, same)
                          ]
                ]
        ]

  consider-Decided :
      (rule : Rule) (refs : List Clause) (rest : Transaction Ruled) (r : Raises Evaluated)
      → Ensures Decided rest
      → Ensures Decided (consider env facts account fact document_event_date as_of rule refs rest r)
  unfolding consider Decided any is_firm
  consider-Decided rule refs rest (raised (missing_fact k)) h = h
  consider-Decided rule refs rest (returned not_applicable) h = h
  consider-Decided rule refs rest (returned (outcome o)) h =
      bind-Ensures _ Decided _ _ (fire-shadow rule o refs) λ fired shadow.
        bind-Ensures Decided Decided _ _ h
          λ later decided s after b e. ground (arith, shadow, decided, e)
  consider-Decided rule refs rest (raised x) h = λ s after b e. absurd (ground arith)

  run_rules-Decided :
      (rules : List Rule)
      → Ensures Decided (run_rules env facts account fact document_event_date as_of rules)
  unfolding run_rules Decided any
  run_rules-Decided [] = λ s after b e. ground arith
  run_rules-Decided (rule ∷ rules) = consider-Decided rule _ _ _ (run_rules-Decided rules)

  -- Where a rule that is not a shadow rule fires, the model has no say: the run is the same
  -- whatever the client answers.
  pub rule_decides :
      (client client' : Client) (s s' : Store) (ruled : Ruled)
      → run_rules env facts account fact document_event_date as_of
          (rules_for_field env.registry fact.field_key)
          s
        ≡ returned (ruled, s')
      → any is_firm ruled.0 ≡ true
      → assess_fact env facts account fact document_event_date as_of client s
        ≡ assess_fact env facts account fact document_event_date as_of client' s
  unfolding assess_fact finish Decided
  rule_decides client client' s s' ruled e firm =
      let decided = run_rules-Decided (rules_for_field env.registry fact.field_key) s s' ruled e in
      elim (Raises-cases (env.stage_of fact.field_key)) [
        | inl (stage, p) ↦ ground (arith, e, p, decided, firm)
        | inr (x, p) ↦ ground (arith, p)
      ]
