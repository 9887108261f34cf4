-- ===== src/Tasks/Tests.antt =====
-- A run of the tasks of app/tasks/assess_tasks.py.
use nbfc_compliance_agent.Prelude.{◌==◌, true, false, none, some, [], ◌∷◌, if◌then◌else◌}
use nbfc_compliance_agent.Rules.Tests.{late_release, loan, in_2026}
use nbfc_compliance_agent.Verdict.Latest.{WellFormed}
use nbfc_compliance_agent.Verdict.Tests.{store, store-WellFormed}
use nbfc_compliance_agent.Verdict.RunTests.{registry, environment, answering}
use nbfc_compliance_agent.Tasks.Assess.{World, assess_document, assess_check, assess_account}
use nbfc_compliance_agent.Tasks.Kept.{run_all, run_all-WellFormed}

abbrev world : World
world = record {
  snapshots = record { id = 1; is_active = true; chunk_count = 1 } ∷ [];
  documents = record { id = 20; loan_account_id = 7; event_date = in_2026 } ∷ [];
  facts =
      record {
        document_id = 20;
        loan_account_id = 7;
        field_key = "full_repayment_date";
        is_absent = false;
      }
      ∷ [];
  account_of = λ id. if id == 7 then some (loan false) else none;
  index_of = λ id. late_release;
  environment_of = λ id. environment;
  registry = registry;
  client = answering;
}

run_all-WellFormed_example : WellFormed (
    run_all
      ((world, assess_document 20)
        ∷ (world, assess_check 7 "R01_docs_release_30d")
        ∷ (world, assess_account 8)
        ∷ [])
      store)
run_all-WellFormed_example =
    run_all-WellFormed
      ((world, assess_document 20)
        ∷ (world, assess_check 7 "R01_docs_release_30d")
        ∷ (world, assess_account 8)
        ∷ [])
      store store-WellFormed
