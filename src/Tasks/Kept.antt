-- ===== src/Tasks/Kept.antt =====
-- What the tasks of app/tasks/assess_tasks.py keep of the assessments' history.
use nbfc_compliance_agent.Prelude.{
  ℕ, ◌==◌, String, inl, inr, none, Option-cases, List, [], ◌∷◌, keep,
}
use nbfc_compliance_agent.Prelude.Raises.{Raises-cases}
use nbfc_compliance_agent.Domain.Facts.{Date}
use nbfc_compliance_agent.Domain.Verdicts.{LoanAccountRef}
use nbfc_compliance_agent.Verdict.Store.{Store}
use nbfc_compliance_agent.Verdict.Latest.{WellFormed}
use nbfc_compliance_agent.Verdict.Run.{Keeps, pure-Keeps, lift-Keeps, bind-Keeps}
use nbfc_compliance_agent.Verdict.Assessed.{assess_fact-WellFormed}
use nbfc_compliance_agent.Tasks.Assess.{
  AssessedDocument, AssessedFact, World, first, required, load_account_ref, active_snapshot,
  document_row, facts_for_document, field_of_check, assessed_field_keys, latest_fact,
  assess_one_field, assess_facts, run_assess_document, run_assess_check, assess_field,
  assess_fields, run_assess_account, committed, Task, assess_document, assess_check, assess_account,
  run,
}

module _ (w : World) where
  assess_one_field-Keeps :
      (loan_account_id document_id : ℕ) (event_date : Date) (account : LoanAccountRef)
      (snapshot_id : ℕ) (f : AssessedFact)
      → Keeps WellFormed
          (assess_one_field w loan_account_id document_id event_date account snapshot_id f)
  unfolding assess_one_field
  assess_one_field-Keeps loan_account_id document_id event_date account snapshot_id f =
      bind-Keeps WellFormed _ _
        (λ s after results. assess_fact-WellFormed _ _ _ _ _ none w.client s after results)
        λ results. pure-Keeps WellFormed _

  assess_facts-Keeps :
      (d : AssessedDocument) (account : LoanAccountRef) (snapshot_id : ℕ)
      (facts : List AssessedFact)
      → Keeps WellFormed (assess_facts w d account snapshot_id facts)
  unfolding assess_facts
  assess_facts-Keeps d account snapshot_id [] = pure-Keeps WellFormed 0
  assess_facts-Keeps d account snapshot_id (f ∷ facts) =
      bind-Keeps WellFormed _ _ (assess_one_field-Keeps _ _ _ account snapshot_id f) λ n.
        bind-Keeps WellFormed _ _ (assess_facts-Keeps d account snapshot_id facts)
          λ m. pure-Keeps WellFormed _

  assess_field-Keeps :
      (loan_account_id : ℕ) (account : LoanAccountRef) (snapshot_id : ℕ) (field_key : String)
      → Keeps WellFormed (assess_field w loan_account_id account snapshot_id field_key)
  unfolding assess_field
  assess_field-Keeps loan_account_id account snapshot_id field_key =
      elim (Option-cases (latest_fact w loan_account_id field_key)) [
        | inl missing ↦ rw (missing, assess_field) (pure-Keeps WellFormed 0)
        | inr (f, found) ↦
            elim (Option-cases
              (first (keep (λ (d : AssessedDocument). d.id == f.document_id) w.documents))) [
                | inl lost ↦ rw (found, lost, assess_field) (pure-Keeps WellFormed 0)
                | inr (d, there) ↦
                    rw (found, there, assess_field)
                      (assess_one_field-Keeps _ _ _ account snapshot_id f)
              ]
      ]

  assess_fields-Keeps :
      (loan_account_id : ℕ) (account : LoanAccountRef) (snapshot_id : ℕ) (keys : List String)
      → Keeps WellFormed (assess_fields w loan_account_id account snapshot_id keys)
  unfolding assess_fields
  assess_fields-Keeps loan_account_id account snapshot_id [] = pure-Keeps WellFormed 0
  assess_fields-Keeps loan_account_id account snapshot_id (k ∷ keys) =
      bind-Keeps WellFormed _ _ (assess_field-Keeps loan_account_id account snapshot_id k) λ n.
        bind-Keeps WellFormed _ _ (assess_fields-Keeps loan_account_id account snapshot_id keys)
          λ m. pure-Keeps WellFormed _

  run_assess_document-Keeps :
      (document_id : ℕ) → Keeps WellFormed (run_assess_document w document_id)
  unfolding run_assess_document
  run_assess_document-Keeps document_id =
      bind-Keeps WellFormed _ _ (lift-Keeps WellFormed (document_row w document_id)) λ d.
        bind-Keeps WellFormed _ _ (lift-Keeps WellFormed (active_snapshot w)) λ i.
          bind-Keeps WellFormed _ _ (lift-Keeps WellFormed (load_account_ref w d.loan_account_id))
            λ a. assess_facts-Keeps d a i (facts_for_document w document_id)

  run_assess_check-Keeps :
      (loan_account_id : ℕ) (check_key : String)
      → Keeps WellFormed (run_assess_check w loan_account_id check_key)
  unfolding run_assess_check
  run_assess_check-Keeps loan_account_id check_key =
      bind-Keeps WellFormed _ _ (lift-Keeps WellFormed (field_of_check w check_key)) λ k.
        bind-Keeps WellFormed _ _
          (lift-Keeps WellFormed (required (latest_fact w loan_account_id k)))
          λ f. bind-Keeps WellFormed _ _ (lift-Keeps WellFormed (document_row w f.document_id)) λ d.
            bind-Keeps WellFormed _ _ (lift-Keeps WellFormed (active_snapshot w)) λ i.
              bind-Keeps WellFormed _ _ (lift-Keeps WellFormed (load_account_ref w loan_account_id))
                λ a. assess_one_field-Keeps loan_account_id f.document_id d.event_date a i f

  run_assess_account-Keeps :
      (loan_account_id : ℕ) → Keeps WellFormed (run_assess_account w loan_account_id)
  unfolding run_assess_account
  run_assess_account-Keeps loan_account_id =
      bind-Keeps WellFormed _ _ (lift-Keeps WellFormed (active_snapshot w)) λ i.
        bind-Keeps WellFormed _ _ (lift-Keeps WellFormed (load_account_ref w loan_account_id))
          λ a. assess_fields-Keeps loan_account_id a i (assessed_field_keys w loan_account_id)

  run-Keeps : (task : Task) → Keeps WellFormed (run w task)
  unfolding run
  run-Keeps (assess_document document_id) = run_assess_document-Keeps document_id
  run-Keeps (assess_check loan_account_id check_key) =
      run_assess_check-Keeps loan_account_id check_key
  run-Keeps (assess_account loan_account_id) = run_assess_account-Keeps loan_account_id

-- Tasks one after the other, each on the world of its time: one that raises is rolled back.
pub run_all : List (World × Task) → Store → Store
run_all [] s = s
run_all ((w, task) ∷ tasks) s = run_all tasks (committed (run w task s) s)

-- After any tasks, in any order and whichever of them fail, the history is well formed: at most one open
-- assessment for each check of each account.
pub run_all-WellFormed :
    (tasks : List (World × Task)) (s : Store) → WellFormed s → WellFormed (run_all tasks s)
unfolding run_all committed
run_all-WellFormed [] s h = h
run_all-WellFormed ((w, task) ∷ tasks) s h = elim (Raises-cases (run w task s)) [
  | inr (e, failed) ↦ rw failed (run_all-WellFormed tasks s h)
  | inl ((n, after), done) ↦
      rw done (run_all-WellFormed tasks after (run-Keeps w task s after n done h))
]
