-- ===== src/Conflicts/Record.antt =====
-- `persist_conflicts` of app/conflicts/detector.py on the rows of `fact_conflict`, newest first. The
-- ids are numbers from the one given on.
use nbfc_compliance_agent.Prelude.{
  ℕ, ◌+◌, ◌==◌, ◌≡◌, refl, Bool, true, ◌&&◌, List, [], ◌∷◌, any, All, str_eq, eq_iff, arith,
  if◌then◌else◌,
}
use nbfc_compliance_agent.Conflicts.Detector.{DetectedConflict}

pub record FactConflict : Type 0 where
  pub id : ℕ
  pub tenant_id : ℕ
  pub loan_account_id : ℕ
  pub detected : DetectedConflict

-- The unique key (tenant_id, group_key, fact_a_id, fact_b_id).
unfoldable pub is_stored : ℕ → DetectedConflict → FactConflict → Bool
is_stored tenant_id c row =
    (row.tenant_id == tenant_id && str_eq row.detected.group_key c.group_key)
    && (row.detected.fact_a_id == c.fact_a_id && row.detected.fact_b_id == c.fact_b_id)

module _ (tenant_id loan_account_id : ℕ) where
  -- `INSERT … ON CONFLICT … DO NOTHING`
  unfoldable pub insert_conflict : ℕ → DetectedConflict → List FactConflict → List FactConflict
  insert_conflict id c rows =
      if any (is_stored tenant_id c) rows
      then rows
      else record {
        id = id;
        tenant_id = tenant_id;
        loan_account_id = loan_account_id;
        detected = c;
      }
        ∷ rows

  -- The returned ids, of rows that were inserted or not, and the rows.
  unfoldable pub persist_conflicts :
      ℕ → List DetectedConflict → List FactConflict → List ℕ × List FactConflict
  persist_conflicts next_id [] rows = ([], rows)
  persist_conflicts next_id (c ∷ conflicts) rows =
      let (ids, after) =
        persist_conflicts (next_id + 1) conflicts (insert_conflict next_id c rows) in
      (next_id ∷ ids, after)

  insert_conflict-stored :
      (id : ℕ) (c : DetectedConflict) (rows : List FactConflict)
      → any (is_stored tenant_id c) (insert_conflict id c rows) ≡ true
  unfolding insert_conflict any is_stored
  insert_conflict-stored id c rows = ground (arith, eq_iff c.group_key c.group_key)

  insert_conflict-keeps :
      (id : ℕ) (d c : DetectedConflict) (rows : List FactConflict)
      → any (is_stored tenant_id c) rows ≡ true
      → any (is_stored tenant_id c) (insert_conflict id d rows) ≡ true
  unfolding insert_conflict any
  insert_conflict-keeps id d c rows h = ground arith

  persist_conflicts-keeps :
      (n : ℕ) (cs : List DetectedConflict) (c : DetectedConflict) (rows : List FactConflict)
      → any (is_stored tenant_id c) rows ≡ true
      → any (is_stored tenant_id c) (persist_conflicts n cs rows).1 ≡ true
  unfolding persist_conflicts
  persist_conflicts-keeps n [] c rows h = h
  persist_conflicts-keeps n (d ∷ cs) c rows h =
      persist_conflicts-keeps (n + 1) cs c (insert_conflict n d rows)
        (insert_conflict-keeps n d c rows h)

  abbrev Stored : List FactConflict → DetectedConflict → Type 0
  Stored rows c = any (is_stored tenant_id c) rows ≡ true

  persist_conflicts-Stored :
      (n : ℕ) (cs : List DetectedConflict) (rows : List FactConflict)
      → All (Stored (persist_conflicts n cs rows).1) cs
  unfolding persist_conflicts
  persist_conflicts-Stored n [] rows = tt
  persist_conflicts-Stored n (c ∷ cs) rows = (
    persist_conflicts-keeps (n + 1) cs c (insert_conflict n c rows)
        (insert_conflict-stored n c rows),
    persist_conflicts-Stored (n + 1) cs (insert_conflict n c rows),
  )

  persist_conflicts-same :
      (n : ℕ) (cs : List DetectedConflict) (rows : List FactConflict)
      → All (Stored rows) cs
      → (persist_conflicts n cs rows).1 ≡ rows
  unfolding persist_conflicts
  persist_conflicts-same n [] rows h = refl
  persist_conflicts-same n (c ∷ cs) rows h =
      let unchanged : insert_conflict n c rows ≡ rows =
        unfold insert_conflict in ground (arith, h.0) in
      rw unchanged (persist_conflicts-same (n + 1) cs rows h.1)

  -- Persisting the same conflicts again, under whatever new ids, leaves the table as it is, and
  -- after the first time each of them is in the table.
  pub persist_conflicts_idempotent :
      (n m : ℕ) (cs : List DetectedConflict) (rows : List FactConflict)
      → (let after = (persist_conflicts n cs rows).1 in
          ((persist_conflicts m cs after).1 ≡ after)
          × All (λ c. any (is_stored tenant_id c) after ≡ true) cs)
  persist_conflicts_idempotent n m cs rows = (
    persist_conflicts-same m cs (persist_conflicts n cs rows).1
        (persist_conflicts-Stored n cs rows),
    persist_conflicts-Stored n cs rows,
  )
