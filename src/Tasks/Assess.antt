-- ===== src/Tasks/Assess.antt =====
-- app/tasks/assess_tasks.py: the three assessment tasks, each one transaction. The accounts, the facts
-- that an account's rules see, and what surrounds a run on a snapshot are parameters.
use Prim.Native.Char.{code}
use nbfc_compliance_agent.Prelude.{
  ℕ, ◌+◌, ◌==◌, String, Bool, not, ◌&&◌, Option, none, some, List, [], ◌∷◌, length, keep, map,
  str_eq, if◌then◌else◌,
}
use nbfc_compliance_agent.Prelude.Dict.{get}
use nbfc_compliance_agent.Prelude.Raises.{
  Raises, returned, raised, assessment_task_error, key_error,
}
use nbfc_compliance_agent.Domain.Facts.{Date}
use nbfc_compliance_agent.Domain.Verdicts.{LoanAccountRef}
use nbfc_compliance_agent.Rules.Base.{FactIndex}
use nbfc_compliance_agent.Rules.Registry.{Registry}
use nbfc_compliance_agent.Corpus.Snapshot.{SnapshotRow, get_active_snapshot_id}
use nbfc_compliance_agent.Verdict.Store.{Store, Transaction, pure, lift, ◌>>=◌}
use nbfc_compliance_agent.Verdict.Assess.{Client, Environment, assess_fact}

-- What _DOCUMENT_ROW_SQL reads.
pub record AssessedDocument : Type 0 where
  pub id : ℕ
  pub loan_account_id : ℕ
  pub event_date : Date

-- A row of `extracted_fact`, newest first.
pub record AssessedFact : Type 0 where
  pub document_id : ℕ
  pub loan_account_id : ℕ
  pub field_key : String
  pub is_absent : Bool

pub record World : Type 1 where
  pub snapshots : List SnapshotRow
  pub documents : List AssessedDocument
  pub facts : List AssessedFact
  pub account_of : ℕ → Option LoanAccountRef
  pub index_of : ℕ → FactIndex
  pub environment_of : ℕ → Environment
  pub registry : Registry
  pub client : Client

-- `.first()`
unfoldable pub first {ℓ} : {A : Type ℓ} → List A → Option A
first [] = none
first (x ∷ xs) = some x

-- `if row is None: raise AssessmentTaskError`
unfoldable pub required : {A : Type 0} → Option A → Raises A
required none = raised assessment_task_error
required (some a) = returned a

-- The field after `F:`.
unfoldable pub after_f : String → Option String
after_f String.[] = none
after_f (String.◌∷◌ c s) = if code c == b'F' then after_colon s else none
  where
    after_colon : String → Option String
    after_colon String.[] = none
    after_colon (String.◌∷◌ d rest) = if code d == b':' then some rest else none

-- _load_account_ref
unfoldable pub load_account_ref : World → ℕ → Raises LoanAccountRef
load_account_ref w loan_account_id = required (w.account_of loan_account_id)

-- The active snapshot, which has to be there.
unfoldable pub active_snapshot : World → Raises ℕ
active_snapshot w = elim (get_active_snapshot_id w.snapshots) [
  | raised e ↦ raised e
  | returned none ↦ raised assessment_task_error
  | returned (some i) ↦ returned i
]

unfoldable pub document_row : World → ℕ → Raises AssessedDocument
document_row w document_id =
    required (first (keep (λ (d : AssessedDocument). d.id == document_id) w.documents))

-- _FACTS_FOR_DOCUMENT_SQL
unfoldable pub facts_for_document : World → ℕ → List AssessedFact
facts_for_document w document_id =
    keep (λ (f : AssessedFact). f.document_id == document_id && not f.is_absent) w.facts

-- _LATEST_FACT_FOR_FIELD_SQL
unfoldable pub latest_fact : World → ℕ → String → Option AssessedFact
latest_fact w loan_account_id field_key = first (
    keep
      (λ (f : AssessedFact).
        f.loan_account_id == loan_account_id && (str_eq f.field_key field_key && not f.is_absent))
      w.facts)

-- `DISTINCT`: the first of each value.
unfoldable pub distinct : List String → List String
distinct [] = []
distinct (s ∷ ss) = let rest = distinct ss in s ∷ keep (λ t. not (str_eq t s)) rest

-- _ALL_ASSESSED_FIELD_KEYS_SQL
unfoldable pub assessed_field_keys : World → ℕ → List String
assessed_field_keys w loan_account_id = distinct (
    map (λ (f : AssessedFact). f.field_key)
      (keep (λ (f : AssessedFact). f.loan_account_id == loan_account_id && not f.is_absent)
        w.facts))

-- _assess_one_field: how many results there are. The typed value of the fact's row is left out: the
-- assessment reads the values from the account's facts.
unfoldable pub assess_one_field :
    World → ℕ → ℕ → Date → LoanAccountRef → ℕ → AssessedFact → Transaction ℕ
assess_one_field w loan_account_id document_id event_date account snapshot_id f =
    assess_fact (w.environment_of snapshot_id) (w.index_of loan_account_id) account
      (record {
        field_key = f.field_key;
        loan_account_id = loan_account_id;
        document_id = some document_id;
      })
      event_date none w.client
    >>= λ results. pure (length results)

-- The loop of the document's task.
unfoldable pub assess_facts :
    World → AssessedDocument → LoanAccountRef → ℕ → List AssessedFact → Transaction ℕ
assess_facts w d account snapshot_id [] = pure 0
assess_facts w d account snapshot_id (f ∷ facts) =
    assess_one_field w d.loan_account_id d.id d.event_date account snapshot_id f >>= λ n.
    assess_facts w d account snapshot_id facts >>= λ m. pure (n + m)

-- _run_assess_document: the checks run.
unfoldable pub run_assess_document : World → ℕ → Transaction ℕ
run_assess_document w document_id = lift (document_row w document_id) >>= λ d.
    lift (active_snapshot w) >>= λ snapshot_id.
    lift (load_account_ref w d.loan_account_id) >>= λ account.
    assess_facts w d account snapshot_id (facts_for_document w document_id)

-- The field that a check is about: the one it names, or the first that its rule consumes.
unfoldable pub field_of_check : World → String → Raises String
unfolding after_f
field_of_check w check_key = elim (after_f check_key) [
  | some field_key ↦ returned field_key
  | none ↦ elim (get w.registry check_key) [
    | none ↦ raised key_error
    | some r ↦ required (first r.rule_cls.consumes)
  ]
]

-- _run_assess_check
unfoldable pub run_assess_check : World → ℕ → String → Transaction ℕ
run_assess_check w loan_account_id check_key = lift (field_of_check w check_key) >>= λ field_key.
    lift (required (latest_fact w loan_account_id field_key)) >>= λ f.
    lift (document_row w f.document_id) >>= λ d. lift (active_snapshot w) >>= λ snapshot_id.
    lift (load_account_ref w loan_account_id) >>= λ account.
    assess_one_field w loan_account_id f.document_id d.event_date account snapshot_id f

-- A field of the account's task: without a fact or its document, it is passed over.
unfoldable pub assess_field : World → ℕ → LoanAccountRef → ℕ → String → Transaction ℕ
assess_field w loan_account_id account snapshot_id field_key =
    elim (latest_fact w loan_account_id field_key) [
      | none ↦ pure 0
      | some f ↦ elim (first (keep (λ (d : AssessedDocument). d.id == f.document_id) w.documents)) [
        | none ↦ pure 0
        | some d ↦
            assess_one_field w loan_account_id f.document_id d.event_date account snapshot_id f
      ]
    ]

unfoldable pub assess_fields : World → ℕ → LoanAccountRef → ℕ → List String → Transaction ℕ
assess_fields w loan_account_id account snapshot_id [] = pure 0
assess_fields w loan_account_id account snapshot_id (k ∷ keys) =
    assess_field w loan_account_id account snapshot_id k >>= λ n.
    assess_fields w loan_account_id account snapshot_id keys >>= λ m. pure (n + m)

-- _run_assess_account
unfoldable pub run_assess_account : World → ℕ → Transaction ℕ
run_assess_account w loan_account_id = lift (active_snapshot w) >>= λ snapshot_id.
    lift (load_account_ref w loan_account_id) >>= λ account.
    assess_fields w loan_account_id account snapshot_id (assessed_field_keys w loan_account_id)

-- The store after the transaction: an exception leaves before the commit.
unfoldable pub committed : Raises (ℕ × Store) → Store → Store
committed (returned (n, after)) s = after
committed (raised e) s = s

-- The three tasks.
pub data Task : Type 0 where
  assess_document : (document_id : ℕ) → Task
  assess_check : (loan_account_id : ℕ) (check_key : String) → Task
  assess_account : (loan_account_id : ℕ) → Task

unfoldable pub run : World → Task → Transaction ℕ
run w (assess_document document_id) = run_assess_document w document_id
run w (assess_check loan_account_id check_key) = run_assess_check w loan_account_id check_key
run w (assess_account loan_account_id) = run_assess_account w loan_account_id
