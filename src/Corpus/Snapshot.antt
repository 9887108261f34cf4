-- ===== src/Corpus/Snapshot.antt =====
-- app/corpus/snapshot.py: the snapshots of the corpus, and which of them is active.
use nbfc_compliance_agent.Prelude.{
  ℕ, ◌==◌, ◌≡◌, ◌≢◌, refl, inl, inr, Bool, true, false, Bool-cases, Option, none, some, List, [],
  ◌∷◌, map, keep, any, All, subst, arith, if◌then◌else◌,
}
use nbfc_compliance_agent.Prelude.Raises.{Raises, returned, raised, value_error}

-- A row of `corpus_snapshot`.
pub record SnapshotRow : Type 0 where
  pub id : ℕ
  pub is_active : Bool
  pub chunk_count : ℕ

-- UPDATE corpus_snapshot SET is_active = false WHERE is_active = true
unfoldable pub deactivate : List SnapshotRow → List SnapshotRow
deactivate rows =
    map (λ (r : SnapshotRow). if r.is_active then record r { is_active = false } else r) rows

-- UPDATE corpus_snapshot SET is_active = true WHERE id = :id
unfoldable pub activate : ℕ → List SnapshotRow → List SnapshotRow
activate snapshot_id rows =
    map (λ (r : SnapshotRow). if r.id == snapshot_id then record r { is_active = true } else r) rows

unfoldable pub activate_snapshot : ℕ → List SnapshotRow → List SnapshotRow
activate_snapshot snapshot_id rows = activate snapshot_id (deactivate rows)

unfoldable pub active_ids : List SnapshotRow → List ℕ
active_ids rows = map (λ (r : SnapshotRow). r.id) (keep (λ (r : SnapshotRow). r.is_active) rows)

-- `scalar_one_or_none`: more than one row is an error.
unfoldable pub one_or_none : List ℕ → Raises (Option ℕ)
one_or_none [] = returned none
one_or_none (i ∷ []) = returned (some i)
one_or_none (i ∷ j ∷ rest) = raised value_error

unfoldable pub get_active_snapshot_id : List SnapshotRow → Raises (Option ℕ)
get_active_snapshot_id rows = one_or_none (active_ids rows)

-- No two rows have the same id.
unfoldable pub Unique : List SnapshotRow → Type 0
Unique [] = Unit {0}
Unique (r ∷ rows) = All (λ (q : SnapshotRow). q.id ≢ r.id) rows × Unique rows

active_ids-activate_snapshot :
    (snapshot_id : ℕ) (rows : List SnapshotRow)
    → active_ids (activate_snapshot snapshot_id rows)
      ≡ keep (λ i. i == snapshot_id) (map (λ (r : SnapshotRow). r.id) rows)
unfolding active_ids activate_snapshot activate deactivate keep
active_ids-activate_snapshot snapshot_id [] = refl
active_ids-activate_snapshot snapshot_id (r ∷ rows) =
    ground (arith, active_ids-activate_snapshot snapshot_id rows)

none_kept :
    (snapshot_id : ℕ) (rows : List SnapshotRow)
    → All (λ (q : SnapshotRow). q.id ≢ snapshot_id) rows
    → keep (λ i. i == snapshot_id) (map (λ (r : SnapshotRow). r.id) rows) ≡ []
unfolding keep
none_kept snapshot_id [] h = refl
none_kept snapshot_id (r ∷ rows) h =
    let rest = none_kept snapshot_id rows h.1 in ground (arith, rest, h.0)

unfoldable pub has_id : ℕ → List SnapshotRow → Bool
has_id snapshot_id rows = any (λ (r : SnapshotRow). r.id == snapshot_id) rows

-- Of rows with different ids, one at most has the id.
kept_one :
    (snapshot_id : ℕ) (rows : List SnapshotRow)
    → Unique rows
    → keep (λ i. i == snapshot_id) (map (λ (r : SnapshotRow). r.id) rows)
      ≡ (if has_id snapshot_id rows then snapshot_id ∷ [] else [])
unfolding keep Unique has_id any
kept_one snapshot_id [] h = refl
kept_one snapshot_id (r ∷ rows) h =
    let rest = kept_one snapshot_id rows h.1 in
    elim (Bool-cases (r.id == snapshot_id)) [
      | inl same ↦
          let at : r.id ≡ snapshot_id = ground (arith, same) in
          let none_left =
            none_kept snapshot_id rows
              (subst (λ i. All (λ (q : SnapshotRow). q.id ≢ i) rows) at h.0) in
          ground (arith, same, at, none_left)
      | inr other ↦ ground (arith, other, rest)
    ]

-- Of snapshots with different ids, an activation leaves the given one as the only active snapshot, and
-- none when no snapshot has the id; so the query for the active one finds at most one row.
pub activate_snapshot_exact :
    (snapshot_id : ℕ) (rows : List SnapshotRow)
    → Unique rows
    → get_active_snapshot_id (activate_snapshot snapshot_id rows)
      ≡ returned (if has_id snapshot_id rows then some snapshot_id else none)
unfolding get_active_snapshot_id one_or_none
activate_snapshot_exact snapshot_id rows h =
    rw (active_ids-activate_snapshot snapshot_id rows)
      (rw (kept_one snapshot_id rows h) (go (has_id snapshot_id rows)))
  where
    go :
        (b : Bool)
        → one_or_none (if b then snapshot_id ∷ [] else [])
          ≡ returned (if b then some snapshot_id else none)
    go true = refl
    go false = refl
