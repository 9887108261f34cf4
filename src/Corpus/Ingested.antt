-- ===== src/Corpus/Ingested.antt =====
-- What an ingest (app/corpus/service.py) does to the active snapshot and to the clauses.
use nbfc_compliance_agent.Prelude.{
  ℕ, String, ◌≡◌, ◌≢◌, refl, sym, inl, inr, Bool, true, false, Option, some, List, [], ◌∷◌, ◌++◌,
  length, keep, any, All, All-append, arith, if◌then◌else◌,
}
use nbfc_compliance_agent.Prelude.Raises.{Raises, Raises-cases, returned}
use nbfc_compliance_agent.Prelude.Regex.{Chars, Characters}
use nbfc_compliance_agent.Corpus.Instruments.{InstrumentSource}
use nbfc_compliance_agent.Corpus.Embed.{Embedded}
use nbfc_compliance_agent.Corpus.Snapshot.{
  SnapshotRow, activate_snapshot, active_ids, get_active_snapshot_id, Unique, has_id,
  activate_snapshot_exact,
}
use nbfc_compliance_agent.Corpus.Ingest.{
  ClauseRow, CorpusDb, Parsed, parse_all, clause_rows, embeddings, zip_strict, ingest,
}

module _ (snapshot_id n : ℕ) where
  new_row : SnapshotRow
  new_row = record { id = snapshot_id; is_active = false; chunk_count = n }

  active_ids-append_new :
      (rows : List SnapshotRow) → active_ids (rows ++ (new_row ∷ [])) ≡ active_ids rows
  unfolding active_ids keep new_row
  active_ids-append_new [] = refl
  active_ids-append_new (r ∷ rows) = ground (arith, active_ids-append_new rows)

  Unique-append_new :
      (rows : List SnapshotRow)
      → All (λ (q : SnapshotRow). q.id ≢ snapshot_id) rows
      → Unique rows
      → Unique (rows ++ (new_row ∷ []))
  unfolding Unique new_row
  Unique-append_new [] fresh h = (tt, tt)
  Unique-append_new (r ∷ rows) fresh h = (
    All-append (λ (q : SnapshotRow). q.id ≢ r.id) rows (new_row ∷ []) h.0
        ((λ e. fresh.0 (sym e)), tt),
    Unique-append_new rows fresh.1 h.1,
  )

  has_id-append_new : (rows : List SnapshotRow) → has_id snapshot_id (rows ++ (new_row ∷ [])) ≡ true
  unfolding has_id any new_row
  has_id-append_new [] = ground arith
  has_id-append_new (r ∷ rows) = ground (arith, has_id-append_new rows)

module _ (chars : Characters) (search_title : Chars → Chars → Bool)
    (patterns : List (Chars × List Chars)) {V : Type 0} (fetch : String → Raises Chars)
    (embedder : Option (List Chars → Embedded V)) where
  -- What stands in the database after an ingest that returns.
  record Written (instruments : List InstrumentSource) (activate : Bool) (snapshot_id : ℕ)
      (db db' : CorpusDb V) : Type 0 where
    parsed : List Parsed
    vs : List (Option V)
    embedded : List (ClauseRow × Option V)
    zipped : zip_strict (clause_rows chars snapshot_id parsed) vs ≡ returned embedded
    clauses : db'.clauses ≡ db.clauses ++ embedded
    snapshots : db'.snapshots ≡ (
        if activate
        then activate_snapshot snapshot_id (
            db.snapshots
            ++ (new_row snapshot_id (length (clause_rows chars snapshot_id parsed)) ∷ []))
        else db.snapshots
          ++ (new_row snapshot_id (length (clause_rows chars snapshot_id parsed)) ∷ []))

  ingest-Written :
      (instruments : List InstrumentSource) (activate : Bool) (snapshot_id : ℕ)
      (db db' : CorpusDb V)
      → ingest chars search_title patterns fetch embedder instruments activate snapshot_id db
        ≡ returned db'
      → Written instruments activate snapshot_id db db'
  unfolding ingest new_row
  ingest-Written instruments activate snapshot_id db db' e =
      elim (Raises-cases (parse_all chars fetch instruments)) [
        | inr (x, failed) ↦ absurd (ground (arith, failed, e))
        | inl (ps, parsed) ↦
            let rows = clause_rows chars snapshot_id ps in
            elim (Raises-cases (embeddings embedder rows)) [
              | inr (x, failed) ↦ absurd (ground (arith, parsed, failed, e))
              | inl (vs, got) ↦ elim (Raises-cases (zip_strict rows vs)) [
                | inr (x, failed) ↦ absurd (ground (arith, parsed, got, failed, e))
                | inl (embedded, zipped) ↦ record {
                  parsed = ps;
                  vs = vs;
                  embedded = embedded;
                  zipped = zipped;
                  clauses = ground (arith, parsed, got, zipped, e);
                  snapshots = ground (arith, parsed, got, zipped, e);
                }
              ]
            ]
      ]

  -- An ingest that returns, with an id that is new among snapshots of different ids, makes its snapshot
  -- the one active snapshot when it was asked to, and otherwise leaves the active one as it was.
  pub ingest_activation :
      (instruments : List InstrumentSource) (activate : Bool) (snapshot_id : ℕ)
      (db db' : CorpusDb V)
      → Unique db.snapshots
      → All (λ (q : SnapshotRow). q.id ≢ snapshot_id) db.snapshots
      → ingest chars search_title patterns fetch embedder instruments activate snapshot_id db
        ≡ returned db'
      → get_active_snapshot_id db'.snapshots
        ≡ (if activate then returned (some snapshot_id) else get_active_snapshot_id db.snapshots)
  unfolding get_active_snapshot_id
  ingest_activation instruments activate snapshot_id db db' unique fresh e =
      let w = ingest-Written instruments activate snapshot_id db db' e in
      let n = length (clause_rows chars snapshot_id w.parsed) in rw w.snapshots (go n activate)
    where
      go :
          (n : ℕ) (b : Bool)
          → get_active_snapshot_id (
              if b
              then activate_snapshot snapshot_id (db.snapshots ++ (new_row snapshot_id n ∷ []))
              else db.snapshots ++ (new_row snapshot_id n ∷ []))
            ≡ (if b then returned (some snapshot_id) else get_active_snapshot_id db.snapshots)
      go n true =
          rw
            (activate_snapshot_exact snapshot_id (db.snapshots ++ (new_row snapshot_id n ∷ []))
              (Unique-append_new snapshot_id n db.snapshots fresh unique))
            (rw (has_id-append_new snapshot_id n db.snapshots) refl)
      go n false = rw (active_ids-append_new snapshot_id n db.snapshots) refl
