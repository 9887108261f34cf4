-- ===== src/Conflicts/Tests.antt =====
-- Test data for app/conflicts: the facts of a closure statement and of an acknowledgement.
use nbfc_compliance_agent.Prelude.{
  ℕ, ◌≡◌, ◌↔◌, refl, false, true, none, some, any, List, [], ◌∷◌, All, arith,
}
use nbfc_compliance_agent.Prelude.Int.{pos}
use nbfc_compliance_agent.Prelude.Dict.{get}
use nbfc_compliance_agent.Prelude.Raises.{returned}
use nbfc_compliance_agent.Domain.Enums.{date_order, compliant, violation}
use nbfc_compliance_agent.Domain.Facts.{FactValue, date_value, bool_value}
use nbfc_compliance_agent.Rules.Base.{
  FactIndex, get_record, value, fact, flag_of, date_of, verdict_of,
}
use nbfc_compliance_agent.Rules.Release.{r01}
use nbfc_compliance_agent.Rules.Tests.{late_release, index, on_record, loan, in_2026, excerpts}
use nbfc_compliance_agent.Conflicts.Detector.{
  in_order, strictly_increasing, ConflictMember, Params, ConflictGroup, dates, day, compare,
  DetectedConflict,
}
use nbfc_compliance_agent.Conflicts.Groups.{
  FactRow, fetch_member_fact, check_pair, check_member, present, evaluate_strictly_increasing,
}
use nbfc_compliance_agent.Conflicts.Agreement.{
  InOrder, check_member_symmetric, strictly_increasing_exact, release_params,
  release_conflict_agrees, early_release_differs,
}
use nbfc_compliance_agent.Conflicts.Record.{
  is_stored, persist_conflicts, persist_conflicts_idempotent,
}

abbrev repayment : ConflictMember
repayment = record { doc_type = "closure_statement"; field = "full_repayment_date" }

abbrev release : ConflictMember
release = record { doc_type = "docs_release_ack"; field = "original_docs_released_date" }

abbrev group : Params → ConflictGroup
group p = record {
  key = "closure_release_window";
  members = repayment ∷ release ∷ [];
  operator = in_order;
  tolerance = none;
  params = p;
  raises_check = "R01_docs_release_30d";
}

abbrev row : ℕ → ConflictMember → FactValue → FactRow
row id m v = record {
  id = id;
  loan_account_id = 7;
  field_key = m.field;
  doc_type = m.doc_type;
  is_absent = false;
  value_normalized = some v;
}

abbrev rows : List FactRow
rows = row 2 release (date_value 739640) ∷ row 1 repayment (date_value 739600) ∷ []

check_member_symmetric_example :
    (check_member rows 7
        (group release_params)
        0
        "full_repayment_date"
        (record { id = 1; value = date_value 739600 })
        1
        release
      ≡ check_pair
          (group release_params)
          "full_repayment_date"
          (record { id = 1; value = date_value 739600 })
          (record { id = 2; value = date_value 739640 }))
    × (check_member rows 7
          (group release_params)
          1
          "original_docs_released_date"
          (record { id = 2; value = date_value 739640 })
          0
          repayment
        ≡ check_pair
            (group release_params)
            "original_docs_released_date"
            (record { id = 1; value = date_value 739600 })
            (record { id = 2; value = date_value 739640 }))
unfolding fetch_member_fact
check_member_symmetric_example =
    check_member_symmetric rows 7 (group release_params) 0 1 repayment release
      (record { id = 1; value = date_value 739600 }) (record { id = 2; value = date_value 739640 })
      (omega arith) refl refl

abbrev chain : Params
chain = record { tolerance = none; direction = some strictly_increasing; within_days = none }

strictly_increasing_exact_example :
    (evaluate_strictly_increasing rows 7 (group chain) ≡ returned [])
    ↔ InOrder rows 7 (group chain) (present rows 7 (group chain) (repayment ∷ release ∷ []))
strictly_increasing_exact_example = strictly_increasing_exact rows 7 (group chain)

release_conflict_agrees_example :
    (compare in_order (date_value 739600) (date_value 739640) release_params ≡ returned false)
    ↔ (verdict_of (r01.evaluate late_release (loan false) in_2026 excerpts) ≡ some violation)
unfolding flag_of date_of fact get_record value get
release_conflict_agrees_example =
    release_conflict_agrees late_release (loan false) in_2026 excerpts 739600 739640 (omega arith)
      refl refl refl (omega arith)

-- A release on the day of the repayment.
abbrev same_day : FactIndex
same_day = index (
    on_record "docs_lost_flag" (bool_value false)
    ∷ on_record "full_repayment_date" (date_value 739600)
    ∷ on_record "original_docs_released_date" (date_value 739600)
    ∷ [])

early_release_differs_example :
    (compare in_order (date_value 739600) (date_value 739600) release_params ≡ returned false)
    × (verdict_of (r01.evaluate same_day (loan false) in_2026 excerpts) ≡ some compliant)
unfolding flag_of date_of fact get_record value get
early_release_differs_example =
    early_release_differs same_day (loan false) in_2026 excerpts 739600 739600 (omega arith) refl
      refl refl (omega arith)

abbrev found : DetectedConflict
found = record {
  group_key = "closure_release_window";
  field_key = "full_repayment_date";
  fact_a_id = 1;
  fact_b_id = 2;
  conflict_type = date_order;
  operator = in_order;
  delta = dates (day 739600) (day 739640) (pos 40);
  raises_check = "R01_docs_release_30d";
}

persist_conflicts_idempotent_example :
    ((persist_conflicts 1 7 9 (found ∷ []) (persist_conflicts 1 7 5 (found ∷ []) []).1).1
      ≡ (persist_conflicts 1 7 5 (found ∷ []) []).1)
    × All (λ c. any (is_stored 1 c) (persist_conflicts 1 7 5 (found ∷ []) []).1 ≡ true) (found ∷ [])
persist_conflicts_idempotent_example = persist_conflicts_idempotent 1 7 5 9 (found ∷ []) []
