-- ===== src/Verdict/State.antt =====
-- app/verdict/state.py: `recompute_loan_compliance_state`. The grouped query is modelled by adding
-- the selected rows to their group one by one; SQL leaves the order of the groups open.
use nbfc_compliance_agent.Prelude.{
  is_none, ℕ, ◌+◌, ◌==◌, ltb, String, Bool, true, false, not, ◌&&◌, Option, none, some, List, [],
  ◌∷◌, keep, count, map, member, if◌then◌else◌,
}
use nbfc_compliance_agent.Prelude.Raises.{returned}
use nbfc_compliance_agent.Domain.Enums.{
  Verdict, compliant, violation, ambiguous, no_clause_found, Severity, critical, major, minor,
  informational,
}
use nbfc_compliance_agent.Verdict.Store.{
  Assessment, ConflictRow, ComplianceState, Store, Transaction,
}

-- _SEVERITY_RANK; no severity has rank 0.
unfoldable pub severity_rank : Option Severity → ℕ
severity_rank none = 0
severity_rank (some critical) = 4
severity_rank (some major) = 3
severity_rank (some minor) = 2
severity_rank (some informational) = 1

-- The rows that _OPEN_COUNTS_SQL selects.
unfoldable pub is_counted : ℕ → ℕ → Assessment → Bool
unfolding is_none
is_counted tenant_id loan_account_id a =
    (a.tenant_id == tenant_id && a.loan_account_id == loan_account_id)
    && (is_none a.superseded_by_id && (not a.result.is_shadow && not a.whatif))

-- The rows that _CHECKS_RUN_SQL selects: shadow rows too.
unfoldable pub is_run : ℕ → ℕ → Assessment → Bool
unfolding is_none
is_run tenant_id loan_account_id a =
    (a.tenant_id == tenant_id && a.loan_account_id == loan_account_id)
    && (is_none a.superseded_by_id && not a.whatif)

pub record Group : Type 0 where
  pub verdict : Verdict
  pub severity : Severity
  pub n : ℕ

unfoldable pub verdict_eq : Verdict → Verdict → Bool
verdict_eq compliant compliant = true
verdict_eq violation violation = true
verdict_eq ambiguous ambiguous = true
verdict_eq no_clause_found no_clause_found = true
verdict_eq _ _ = false

severity_eq : Severity → Severity → Bool
severity_eq critical critical = true
severity_eq major major = true
severity_eq minor minor = true
severity_eq informational informational = true
severity_eq _ _ = false

-- Whether a row of the verdict and the severity belongs to the group.
unfoldable pub same_group : Group → Verdict → Severity → Bool
unfolding verdict_eq severity_eq
same_group g v s = verdict_eq g.verdict v && severity_eq g.severity s

-- One more row of a verdict and a severity.
unfoldable pub add_to_group : Verdict → Severity → List Group → List Group
add_to_group v s [] = record { verdict = v; severity = s; n = 1 } ∷ []
add_to_group v s (g ∷ gs) =
    if same_group g v s then record g { n = g.n + 1 } ∷ gs else g ∷ add_to_group v s gs

-- `SELECT verdict, severity, COUNT(*) … GROUP BY verdict, severity`
unfoldable pub group_by : List Assessment → List Group
group_by [] = []
group_by (a ∷ rows) = add_to_group a.result.verdict a.result.severity (group_by rows)

pub record Tally : Type 0 where
  pub open_violations : ℕ
  pub open_ambiguous : ℕ
  pub open_no_clause : ℕ
  pub highest_severity : Option Severity

abbrev pub empty : Tally
empty = record {
  open_violations = 0;
  open_ambiguous = 0;
  open_no_clause = 0;
  highest_severity = none;
}

unfoldable pub raise_highest : Severity → Option Severity → Option Severity
raise_highest s highest =
    if ltb (severity_rank highest) (severity_rank (some s)) then some s else highest

-- The body of the loop over the groups.
unfoldable pub add_group : Tally → Group → Tally
unfolding raise_highest
add_group t g = record {
  open_violations = t.open_violations + elim g.verdict [ violation ↦ g.n | _ ↦ 0 ];
  open_ambiguous = t.open_ambiguous + elim g.verdict [ ambiguous ↦ g.n | _ ↦ 0 ];
  open_no_clause = t.open_no_clause + elim g.verdict [ no_clause_found ↦ g.n | _ ↦ 0 ];
  highest_severity = raise_highest g.severity t.highest_severity;
}

unfoldable pub tally : Tally → List Group → Tally
tally t [] = t
tally t (g ∷ gs) = tally (add_group t g) gs

-- `COUNT(DISTINCT check_key)`
unfoldable pub count_distinct : List String → ℕ
count_distinct [] = 0
count_distinct (k ∷ ks) = (if member k ks then 0 else 1) + count_distinct ks

-- `INSERT … ON CONFLICT (loan_account_id) DO UPDATE`: the version starts at 1 and grows by 1, and
-- the row keeps the tenant that it was inserted with.
unfoldable pub upsert : ComplianceState → List ComplianceState → List ComplianceState
upsert new [] = new ∷ []
upsert new (old ∷ rows) =
    if old.loan_account_id == new.loan_account_id
    then record new { tenant_id = old.tenant_id; state_version = old.state_version + 1 } ∷ rows
    else old ∷ upsert new rows

module _ (tenant_id loan_account_id corpus_snapshot_id : ℕ) where
  unfoldable pub open_tally : Store → Tally
  open_tally s = tally empty (group_by (keep (is_counted tenant_id loan_account_id) s.assessments))

  unfoldable pub recompute_loan_compliance_state : Transaction (Unit {0})
  recompute_loan_compliance_state s =
      let t = open_tally s in
      returned (
        tt,
        record s {
          states =
              upsert
                (record {
                  loan_account_id = loan_account_id;
                  tenant_id = tenant_id;
                  open_violations = t.open_violations;
                  open_ambiguous = t.open_ambiguous;
                  open_no_clause = t.open_no_clause;
                  unresolved_conflicts =
                      count
                        (λ (c : ConflictRow).
                          (c.tenant_id == tenant_id && c.loan_account_id == loan_account_id)
                          && c.is_open)
                        s.conflicts;
                  highest_severity = t.highest_severity;
                  checks_run = count_distinct (
                      map (λ (a : Assessment). a.result.check_key)
                        (keep (is_run tenant_id loan_account_id) s.assessments));
                  corpus_snapshot_id = corpus_snapshot_id;
                  state_version = 1;
                })
                s.states;
        },
      )
