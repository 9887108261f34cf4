-- ===== src/Verdict/Standing.antt =====
-- What `recompute_loan_compliance_state` of app/verdict/state.py computes: counts of the open
-- assessments, and the highest severity among them.
use Prim.Native.Nat.{max}
use nbfc_compliance_agent.Prelude.{
  ap, ℕ, ◌+◌, ◌≡◌, inl, inr, refl, Bool, true, Option, some, List, [], ◌∷◌, keep, count, arith,
  if◌then◌else◌, Bool-cases,
}
use nbfc_compliance_agent.Domain.Enums.{Verdict, violation, ambiguous, no_clause_found, Severity}
use nbfc_compliance_agent.Verdict.Store.{Assessment, Store}
use nbfc_compliance_agent.Verdict.State.{
  severity_rank, is_counted, Group, verdict_eq, same_group, add_to_group, group_by, Tally, empty,
  raise_highest, add_group, tally, open_tally,
}

pub has_verdict : Verdict → Assessment → Bool
has_verdict v a = verdict_eq a.result.verdict v

-- The groups' sizes for one verdict.
size : Verdict → List Group → ℕ
size v [] = 0
size v (g ∷ gs) = (if verdict_eq g.verdict v then g.n else 0) + size v gs

same_group-eq :
    (g : Group) (v : Verdict) (s : Severity)
    → same_group g v s ≡ true
    → (g.verdict ≡ v) × (g.severity ≡ s)
unfolding same_group
same_group-eq g v s h = ground arith

size-add_to_group :
    (v w : Verdict) (s : Severity) (gs : List Group)
    → size v (add_to_group w s gs) ≡ (if verdict_eq w v then 1 else 0) + size v gs
unfolding size add_to_group
size-add_to_group v w s [] = refl
size-add_to_group v w s (g ∷ gs) = elim (Bool-cases (same_group g w s)) [
  | inl same ↦ ground (arith, same_group-eq g w s same)
  | inr other ↦ ground (arith, size-add_to_group v w s gs)
]

size-group_by :
    (v : Verdict) (rows : List Assessment) → size v (group_by rows) ≡ count (has_verdict v) rows
unfolding size group_by count has_verdict
size-group_by v [] = refl
size-group_by v (a ∷ rows) = ground (
  arith,
  size-group_by v rows,
  size-add_to_group v a.result.verdict a.result.severity (group_by rows),
)

add_group_counts :
    (t : Tally) (g : Group)
    → ((add_group t g).open_violations
        ≡ t.open_violations + (if verdict_eq g.verdict violation then g.n else 0))
      × ((add_group t g).open_ambiguous
          ≡ t.open_ambiguous + (if verdict_eq g.verdict ambiguous then g.n else 0))
      × ((add_group t g).open_no_clause
          ≡ t.open_no_clause + (if verdict_eq g.verdict no_clause_found then g.n else 0))
unfolding add_group verdict_eq
add_group_counts t g = ground arith

tally_counts :
    (t : Tally) (gs : List Group)
    → ((tally t gs).open_violations ≡ t.open_violations + size violation gs)
      × ((tally t gs).open_ambiguous ≡ t.open_ambiguous + size ambiguous gs)
      × ((tally t gs).open_no_clause ≡ t.open_no_clause + size no_clause_found gs)
unfolding tally size
tally_counts t [] = (omega arith, omega arith, omega arith)
tally_counts t (g ∷ gs) = omega (arith, add_group_counts t g, tally_counts (add_group t g) gs)

abbrev rank : Severity → ℕ
rank s = severity_rank (some s)

top : List Group → ℕ
top [] = 0
top (g ∷ gs) = max (rank g.severity) (top gs)

-- The greatest rank among assessments, 0 if there is none.
pub top_rank : List Assessment → ℕ
top_rank [] = 0
top_rank (a ∷ rows) = max (rank a.result.severity) (top_rank rows)

rank-raise_highest :
    (s : Severity) (h : Option Severity)
    → severity_rank (raise_highest s h) ≡ max (rank s) (severity_rank h)
unfolding raise_highest
rank-raise_highest s h = ground arith

top-add_to_group :
    (w : Verdict) (s : Severity) (gs : List Group)
    → top (add_to_group w s gs) ≡ max (rank s) (top gs)
unfolding top add_to_group
top-add_to_group w s [] = refl
top-add_to_group w s (g ∷ gs) = elim (Bool-cases (same_group g w s)) [
  | inl same ↦ rw same (omega (arith, ap rank (same_group-eq g w s same).1))
  | inr other ↦ rw other (omega (arith, top-add_to_group w s gs))
]

top-group_by : (rows : List Assessment) → top (group_by rows) ≡ top_rank rows
unfolding group_by top_rank
top-group_by [] = unfold top in refl
top-group_by (a ∷ rows) =
    omega (
      arith,
      top-add_to_group a.result.verdict a.result.severity (group_by rows),
      top-group_by rows,
    )

highest_of :
    (t : Tally) (g : Group)
    → severity_rank (add_group t g).highest_severity
      ≡ severity_rank (raise_highest g.severity t.highest_severity)
unfolding add_group
highest_of t g = refl

rank-tally :
    (t : Tally) (gs : List Group)
    → severity_rank (tally t gs).highest_severity ≡ max (severity_rank t.highest_severity) (top gs)
unfolding tally top
rank-tally t [] = omega arith
rank-tally t (g ∷ gs) = omega (
  arith,
  rank-tally (add_group t g) gs,
  highest_of t g,
  rank-raise_highest g.severity t.highest_severity,
)

module _ (tenant_id loan_account_id snapshot : ℕ) (s : Store) where
  -- The rows that count: of the tenant's account, not superseded, neither shadow nor what-if.
  pub counted : List Assessment
  counted = keep (is_counted tenant_id loan_account_id) s.assessments

  -- The three counters are the numbers of open assessments with that verdict, and the rank of the
  -- highest severity is the greatest rank of an open assessment, 0 for none.
  pub open_tally_exact :
      ((open_tally tenant_id loan_account_id snapshot s).open_violations
        ≡ count (has_verdict violation) counted)
      × ((open_tally tenant_id loan_account_id snapshot s).open_ambiguous
          ≡ count (has_verdict ambiguous) counted)
      × ((open_tally tenant_id loan_account_id snapshot s).open_no_clause
          ≡ count (has_verdict no_clause_found) counted)
      × (severity_rank (open_tally tenant_id loan_account_id snapshot s).highest_severity
          ≡ top_rank counted)
  unfolding open_tally counted severity_rank
  open_tally_exact =
      let rows = keep (is_counted tenant_id loan_account_id) s.assessments in
      let counts = tally_counts empty (group_by rows) in
      (
        omega (arith, counts, size-group_by violation rows),
        omega (arith, counts, size-group_by ambiguous rows),
        omega (arith, counts, size-group_by no_clause_found rows),
        omega (arith, rank-tally empty (group_by rows), top-group_by rows),
      )
