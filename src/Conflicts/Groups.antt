-- ===== src/Conflicts/Groups.antt =====
-- app/conflicts/detector.py: the evaluation of a group, and `detect_for_fact`. A conflict's facts
-- come in the order of the group's members, whichever fact triggered the evaluation.
use nbfc_compliance_agent.Prelude.{
  ℕ, ◌+◌, ◌==◌, ltb, String, str_eq, Bool, true, false, not, ◌&&◌, Option, none, some, List, [],
  ◌∷◌, ◌++◌, keep, any, if◌then◌else◌,
}
use nbfc_compliance_agent.Prelude.Raises.{
  Raises, returned, raised, conflict_comparison_error, assertion_error, ◌>>=◌,
}
use nbfc_compliance_agent.Domain.Facts.{FactValue}
use nbfc_compliance_agent.Conflicts.Detector.{
  in_order, strictly_increasing, ConflictMember, Params, ConflictGroup, FetchedFact, scalar_of,
  kind_of, points, compare, delta_for, conflict_type_for, DetectedConflict,
}

-- A row of `extracted_fact` joined to its document, newest first.
pub record FactRow : Type 0 where
  pub id : ℕ
  pub loan_account_id : ℕ
  pub field_key : String
  pub doc_type : String
  pub is_absent : Bool
  pub value_normalized : Option FactValue

is_member_row : ℕ → ConflictMember → FactRow → Bool
is_member_row loan_account_id m r =
    (r.loan_account_id == loan_account_id && str_eq r.field_key m.field)
    && (str_eq r.doc_type m.doc_type && not r.is_absent)

fetched : FactRow → Option FetchedFact
fetched r = elim r.value_normalized [
  | none ↦ none
  | some v ↦ some (record { id = r.id; value = v })
]

-- _fetch_member_fact
unfoldable pub fetch_member_fact : List FactRow → ℕ → ConflictMember → Option FetchedFact
unfolding is_member_row fetched
fetch_member_fact [] loan_account_id m = none
fetch_member_fact (r ∷ rows) loan_account_id m =
    let rest = fetch_member_fact rows loan_account_id m in
    if is_member_row loan_account_id m r then fetched r else rest

unfoldable pub same_member : String → String → ConflictMember → Bool
same_member doc_type field_key m = str_eq m.doc_type doc_type && str_eq m.field field_key

-- _member_of, with the member's index.
unfoldable pub member_of : String → String → ℕ → List ConflictMember → Option (ℕ × ConflictMember)
unfolding same_member
member_of doc_type field_key n [] = none
member_of doc_type field_key n (m ∷ members) =
    let rest = member_of doc_type field_key (n + 1) members in
    if same_member doc_type field_key m then some (n, m) else rest

-- `params.setdefault("tolerance", group.tolerance)`
unfoldable pub params_of : ConflictGroup → Params
params_of group = record group.params {
  tolerance = elim group.params.tolerance [ some t ↦ some t | none ↦ group.tolerance ];
}

conflict : ConflictGroup → String → FetchedFact → FetchedFact → DetectedConflict
conflict group field_key a b = record {
  group_key = group.key;
  field_key = field_key;
  fact_a_id = a.id;
  fact_b_id = b.id;
  conflict_type = conflict_type_for group.operator;
  operator = group.operator;
  delta = delta_for a.value b.value;
  raises_check = group.raises_check;
}

-- The comparison of two facts, the earlier member's first.
unfoldable pub check_pair :
    ConflictGroup → String → FetchedFact → FetchedFact → Raises (List DetectedConflict)
unfolding conflict
check_pair group field_key a b = compare group.operator a.value b.value (params_of group) >>= λ ok.
    returned (if ok then [] else conflict group field_key a b ∷ [])

module _ (rows : List FactRow) (loan_account_id : ℕ) (group : ConflictGroup) where
  module _ (trigger_idx : ℕ) (trigger_field : String) (trigger_fact : FetchedFact) where
    -- The body of the loop over the members.
    unfoldable pub check_member : ℕ → ConflictMember → Raises (List DetectedConflict)
    check_member idx other =
        if idx == trigger_idx
        then returned []
        else elim (fetch_member_fact rows loan_account_id other) [
          | none ↦ returned []
          | some counterpart ↦
              if ltb idx trigger_idx
              then check_pair group trigger_field counterpart trigger_fact
              else check_pair group trigger_field trigger_fact counterpart
        ]

    -- _evaluate_pairwise_group
    unfoldable pub evaluate_pairwise : ℕ → List ConflictMember → Raises (List DetectedConflict)
    evaluate_pairwise idx [] = returned []
    evaluate_pairwise idx (other ∷ members) =
        let rest = evaluate_pairwise (idx + 1) members in
        check_member idx other >>= λ found. rest >>= λ later. returned (found ++ later)

  unfoldable pub present : List ConflictMember → List (String × FetchedFact)
  present [] = []
  present (m ∷ members) =
      let rest = present members in
      elim (fetch_member_fact rows loan_account_id m) [ none ↦ rest | some f ↦ (m.field, f) ∷ rest ]

  -- The body of the loop over the neighbours.
  unfoldable pub check_step : FetchedFact → String × FetchedFact → Raises (List DetectedConflict)
  unfolding conflict
  check_step a (field_key, b) =
      if kind_of a.value == kind_of b.value
      then elim (points (scalar_of a.value) (scalar_of b.value)) [
        | none ↦ raised conflict_comparison_error
        | some p ↦ returned (if ltb p.0 p.1 then [] else conflict group field_key a b ∷ [])
      ]
      else raised conflict_comparison_error

  unfoldable pub check_chain : List (String × FetchedFact) → Raises (List DetectedConflict)
  check_chain [] = returned []
  check_chain (x ∷ []) = returned []
  check_chain (x ∷ y ∷ present) =
      let rest = check_chain (y ∷ present) in
      check_step x.1 y >>= λ found. rest >>= λ later. returned (found ++ later)

  -- _evaluate_strictly_increasing_group
  unfoldable pub evaluate_strictly_increasing : Raises (List DetectedConflict)
  unfolding present
  evaluate_strictly_increasing = check_chain (present group.members)

is_chain : ConflictGroup → Bool
is_chain group = elim group.operator [
  | in_order ↦ elim group.params.direction [ some strictly_increasing ↦ true | _ ↦ false ]
  | _ ↦ false
]

-- ConflictRegistry.groups_containing
unfoldable pub groups_containing : List ConflictGroup → String → String → List ConflictGroup
unfolding same_member
groups_containing groups doc_type field_key =
    keep (λ (g : ConflictGroup). any (same_member doc_type field_key) g.members) groups

module _ (rows : List FactRow) (loan_account_id : ℕ) (doc_type field_key : String)
    (fact : FetchedFact) where
  evaluate_triggered : ConflictGroup → Option (ℕ × ConflictMember) → Raises (List DetectedConflict)
  unfolding evaluate_pairwise
  evaluate_triggered group none = raised (assertion_error group.key)
  evaluate_triggered group (some (idx, m)) =
      evaluate_pairwise rows loan_account_id group idx m.field fact 0 group.members

  unfoldable pub evaluate_group : ConflictGroup → Raises (List DetectedConflict)
  unfolding is_chain evaluate_triggered
  evaluate_group group =
      if is_chain group
      then evaluate_strictly_increasing rows loan_account_id group
      else evaluate_triggered group (member_of doc_type field_key 0 group.members)

  -- detect_for_fact, of a fact that is present.
  unfoldable pub detect_for_fact : List ConflictGroup → Raises (List DetectedConflict)
  detect_for_fact [] = returned []
  detect_for_fact (group ∷ groups) =
      let rest = detect_for_fact groups in
      evaluate_group group >>= λ found. rest >>= λ later. returned (found ++ later)
