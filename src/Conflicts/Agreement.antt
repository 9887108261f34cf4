-- ===== src/Conflicts/Agreement.antt =====
-- What app/conflicts/detector.py reports: the same pair whichever fact triggers it, nothing of a chain
-- in order, and for the release window of closures, how it stands to rule R01.
use nbfc_compliance_agent.Prelude.{
  ℕ, ◌+◌, ◌≤◌, ◌<◌, leb, String, ◌≡◌, ◌↔◌, refl, inl, inr, false, Option-cases, none, some, List,
  [], ◌∷◌, ◌++◌, arith, if◌then◌else◌,
}
use nbfc_compliance_agent.Prelude.Int.{pos, floor_div}
use nbfc_compliance_agent.Prelude.Raises.{Raises, returned, raised, ◌>>=◌}
use nbfc_compliance_agent.Domain.Enums.{compliant, violation}
use nbfc_compliance_agent.Domain.Facts.{Date, date_value}
use nbfc_compliance_agent.Domain.Verdicts.{LoanAccountRef}
use nbfc_compliance_agent.Rules.Base.{
  FactIndex, ClauseExcerpts, verdict_of, flag_of, date_of, rbc2025_effective,
}
use nbfc_compliance_agent.Rules.Release.{r01}
use nbfc_compliance_agent.Rules.Timeline.{release_window_exact}
use nbfc_compliance_agent.Conflicts.Detector.{
  in_order, after, ConflictMember, Params, ConflictGroup, FetchedFact, scalar_of, kind_of, points,
  days_of, in_direction, compare, DetectedConflict,
}
use nbfc_compliance_agent.Conflicts.Groups.{
  FactRow, fetch_member_fact, check_pair, check_member, check_step, check_chain, present,
  evaluate_strictly_increasing,
}

-- What two evaluations in turn report is empty only if each reports nothing.
both_empty :
    (m n : Raises (List DetectedConflict))
    → (m >>= λ found. n >>= λ later. returned (found ++ later)) ≡ returned []
    → (m ≡ returned []) × (n ≡ returned [])
both_empty (returned []) (returned []) e = (refl, refl)
both_empty (returned []) (returned (d ∷ ds)) e = absurd (ground arith)
both_empty (returned (c ∷ cs)) (returned ds) e = absurd (ground arith)
both_empty (returned cs) (raised x) e = absurd (ground arith)
both_empty (raised x) n e = absurd (ground arith)

module _ (rows : List FactRow) (loan_account_id : ℕ) (group : ConflictGroup) where
  -- Two present members of a pairwise group are compared in the group's order, the earlier member's
  -- fact first, whichever of the two facts triggers the evaluation.
  pub check_member_symmetric :
      (i j : ℕ) (earlier later : ConflictMember) (a b : FetchedFact)
      → i < j
      → fetch_member_fact rows loan_account_id earlier ≡ some a
      → fetch_member_fact rows loan_account_id later ≡ some b
      → (check_member rows loan_account_id group i earlier.field a j later
          ≡ check_pair group earlier.field a b)
        × (check_member rows loan_account_id group j later.field b i earlier
            ≡ check_pair group later.field a b)
  unfolding check_member
  check_member_symmetric i j earlier later a b lt at_a at_b = (ground arith, ground arith)

  -- The two facts are dates, or datetimes, the second strictly later.
  pub record IsLater (a b : FetchedFact) : Type 0 where
    pub same_kind : kind_of a.value ≡ kind_of b.value
    pub at : ℕ × ℕ × ℕ
    pub points_at : points (scalar_of a.value) (scalar_of b.value) ≡ some at
    pub later : at.0 < at.1

  pub InOrder : List (String × FetchedFact) → Type 0
  InOrder [] = Unit {0}
  InOrder (x ∷ []) = Unit {0}
  InOrder (x ∷ y ∷ rest) = IsLater x.1 y.1 × InOrder (y ∷ rest)

  check_step-IsLater :
      (a : FetchedFact) (y : String × FetchedFact)
      → check_step rows loan_account_id group a y ≡ returned []
      → IsLater a y.1
  unfolding check_step
  check_step-IsLater a y e =
      elim (Option-cases (points (scalar_of a.value) (scalar_of y.1.value))) [
        | inl absent ↦ absurd (ground (arith, absent, e))
        | inr (p, found) ↦ record {
          same_kind = ground arith;
          at = p;
          points_at = found;
          later = ground arith;
        }
      ]

  IsLater-check_step :
      (a : FetchedFact) (y : String × FetchedFact)
      → IsLater a y.1
      → check_step rows loan_account_id group a y ≡ returned []
  unfolding check_step
  IsLater-check_step a y h = ground (arith, h.same_kind, h.points_at, h.later)

  chain_sound :
      (xs : List (String × FetchedFact))
      → check_chain rows loan_account_id group xs ≡ returned []
      → InOrder xs
  unfolding check_chain InOrder
  chain_sound [] e = tt
  chain_sound (x ∷ []) e = tt
  chain_sound (x ∷ y ∷ rest) e =
      let (step, later) =
        both_empty (check_step rows loan_account_id group x.1 y)
          (check_chain rows loan_account_id group (y ∷ rest)) e in
      (check_step-IsLater x.1 y step, chain_sound (y ∷ rest) later)

  chain_complete :
      (xs : List (String × FetchedFact))
      → InOrder xs
      → check_chain rows loan_account_id group xs ≡ returned []
  unfolding check_chain InOrder
  chain_complete [] h = refl
  chain_complete (x ∷ []) h = refl
  chain_complete (x ∷ y ∷ rest) h =
      ground (arith, IsLater-check_step x.1 y h.0, chain_complete (y ∷ rest) h.1)

  -- A strictly increasing group reports nothing exactly when its facts that are on record, in the
  -- group's order, are dates or datetimes of one kind and each is strictly later than the one before.
  pub strictly_increasing_exact :
      (evaluate_strictly_increasing rows loan_account_id group ≡ returned [])
      ↔ InOrder (present rows loan_account_id group group.members)
  unfolding evaluate_strictly_increasing
  strictly_increasing_exact = (chain_sound _, chain_complete _)

-- The parameters of the group closure_release_window.
abbrev pub release_params : Params
release_params = record { tolerance = none; direction = some after; within_days = some (pos 30) }

compare_release :
    (repaid released : Date)
    → compare in_order (date_value repaid) (date_value released) release_params
      ≡ returned (if leb released repaid then false else leb released (repaid + 30))
unfolding compare in_direction days_of points scalar_of kind_of floor_div
compare_release repaid released = ground arith

module _ (facts : FactIndex) (account : LoanAccountRef) (as_of : Date) (ex : ClauseExcerpts)
    (repaid released : Date) (in_force : rbc2025_effective ≤ as_of)
    (kept : flag_of facts "docs_lost_flag" (some false) ≡ returned false)
    (repaid_on : date_of facts "full_repayment_date" ≡ returned repaid)
    (released_on : date_of facts "original_docs_released_date" ≡ returned released) where
  -- For a release on a later day than the repayment, once the instrument is in force and with the
  -- documents not lost, the comparison of the closure release window finds a conflict exactly when
  -- R01, the rule that the conflict raises, finds a violation.
  pub release_conflict_agrees :
      repaid < released
      → (compare in_order (date_value repaid) (date_value released) release_params ≡ returned false)
        ↔ (verdict_of (r01.evaluate facts account as_of ex) ≡ some violation)
  release_conflict_agrees late =
      let verdict =
        release_window_exact facts account as_of ex repaid released in_force kept repaid_on
          released_on in
      let compared = compare_release repaid released in
      (λ e. ground (arith, verdict, compared, e), λ e. ground (arith, verdict, compared, e))

  -- For a release on or before the day of the repayment, the comparison finds a conflict although
  -- R01 finds the release compliant.
  pub early_release_differs :
      released ≤ repaid
      → (compare in_order (date_value repaid) (date_value released) release_params ≡ returned false)
        × (verdict_of (r01.evaluate facts account as_of ex) ≡ some compliant)
  early_release_differs early =
      let verdict =
        release_window_exact facts account as_of ex repaid released in_force kept repaid_on
          released_on in
      let compared = compare_release repaid released in
      (ground (arith, compared), ground (arith, verdict))
