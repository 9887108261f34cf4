-- ===== src/Corpus/Ingest.antt =====
-- `ingest` of app/corpus/service.py in one transaction: what it writes is the new database, which an
-- error leaves as it was. The fetch of a source, the embedding and the new snapshot's id are
-- parameters; the rows of the instruments and of the supersessions are left out.
use nbfc_compliance_agent.Prelude.{
  ℕ, String, Bool, false, Option, none, some, List, [], ◌∷◌, ◌++◌, length, map, keep, any, not,
  if◌then◌else◌,
}
use nbfc_compliance_agent.Prelude.Raises.{
  Raises, returned, raised, value_error, embedding_error, client_error, ◌>>=◌,
}
use nbfc_compliance_agent.Prelude.Regex.{Chars, Characters}
use nbfc_compliance_agent.Prelude.Chars.{codes, contains, same}
use nbfc_compliance_agent.Corpus.Nodes.{ClauseNode, clause_path}
use nbfc_compliance_agent.Corpus.Chunk.{ClauseChunk, chunk}
use nbfc_compliance_agent.Corpus.Instruments.{
  Validity, InstrumentSource, parse_instrument, apply_para_overrides, effective_window,
}
use nbfc_compliance_agent.Corpus.References.{ReferenceEdge, extract_references}
use nbfc_compliance_agent.Corpus.Embed.{Embedded, vectors, other_error}
use nbfc_compliance_agent.Corpus.Snapshot.{SnapshotRow, activate_snapshot}

-- A row of `clause`, without its vector.
pub record ClauseRow : Type 0 where
  pub snapshot_id : ℕ
  pub instrument_code : Chars
  pub path : Chars
  pub chunk : ClauseChunk
  pub validity : Validity
  pub citable : Bool

pub record ReferenceRow : Type 0 where
  pub snapshot_id : ℕ
  pub from_path : Chars
  pub edge : ReferenceEdge

pub record CorpusDb (V : Type 0) : Type 0 where
  pub snapshots : List SnapshotRow
  pub clauses : List (ClauseRow × Option V)
  pub references : List ReferenceRow

-- An instrument with its nodes and the overrides that were resolved.
pub record Parsed : Type 0 where
  pub inst : InstrumentSource
  pub nodes : List ClauseNode
  pub overrides : List (Chars × Validity)

-- f"{inst.code}/{clause_path}"
unfoldable pub full_path : Characters → InstrumentSource → ClauseNode → Chars
full_path chars inst n = inst.code ++ b'/' ∷ clause_path chars n

module _ (chars : Characters) (fetch : String → Raises Chars) where
  unfoldable pub parse_one : InstrumentSource → Raises Parsed
  parse_one inst = fetch inst.source_url >>= λ raw_text.
      parse_instrument chars inst raw_text >>= λ nodes.
      apply_para_overrides nodes inst.para_overrides >>= λ overrides.
      returned (record { inst = inst; nodes = nodes; overrides = overrides })

  -- The first loop over the instruments.
  unfoldable pub parse_all : List InstrumentSource → Raises (List Parsed)
  parse_all [] = returned []
  parse_all (inst ∷ instruments) =
      parse_one inst >>= λ p. parse_all instruments >>= λ rest. returned (p ∷ rest)

unfoldable pub clause_row : Characters → ℕ → Parsed → ClauseChunk → ClauseRow
clause_row chars snapshot_id p c = record {
  snapshot_id = snapshot_id;
  instrument_code = p.inst.code;
  path = full_path chars p.inst c.node;
  chunk = c;
  validity = effective_window c.node p.inst p.overrides;
  citable = p.inst.citable;
}

-- The second loop: `chunk_meta`.
unfoldable pub clause_rows : Characters → ℕ → List Parsed → List ClauseRow
clause_rows chars snapshot_id [] = []
clause_rows chars snapshot_id (p ∷ ps) =
    map (clause_row chars snapshot_id p) (chunk p.nodes) ++ clause_rows chars snapshot_id ps

-- `zip(…, strict=True)`
unfoldable pub zip_strict {ℓ κ} :
    {A : Type ℓ} {B : Type κ} → List A → List B → Raises (List (A × B))
zip_strict [] [] = returned []
zip_strict (a ∷ xs) (b ∷ bs) = zip_strict xs bs >>= λ rest. returned ((a, b) ∷ rest)
zip_strict _ _ = raised value_error

module _ {V : Type 0} (embedder : Option (List Chars → Embedded V)) where
  -- The vector of each row, none when there is no key for the embedding.
  unfoldable pub embeddings : List ClauseRow → Raises (List (Option V))
  embeddings rows = elim embedder [
    | none ↦ returned (map (λ (r : ClauseRow). none) rows)
    | some embed ↦ elim (embed (map (λ (r : ClauseRow). r.chunk.text_with_stem) rows)) [
      | vectors vs ↦ returned (map (λ v. some v) vs)
      | Embedded.embedding_error ↦ raised embedding_error
      | other_error e ↦ raised client_error
    ]
  ]

module _ (chars : Characters) (search_title : Chars → Chars → Bool)
    (patterns : List (Chars × List Chars)) where
  -- The edges of an instrument whose clause is among the rows (`clause_id_by_path.get`).
  unfoldable pub reference_rows : List ClauseRow → ℕ → Parsed → List ReferenceRow
  reference_rows rows snapshot_id p =
      keep (λ (f : ReferenceRow). any (λ (r : ClauseRow). same r.path f.from_path) rows)
        (map
          (λ (e : ReferenceEdge). record {
            snapshot_id = snapshot_id;
            from_path = p.inst.code ++ b'/' ∷ e.from_clause_path;
            edge = e;
          })
          (extract_references chars search_title (contains (codes "AMD") p.inst.code) p.nodes
            (keep (λ (k : Chars × List Chars). not (same k.0 p.inst.code)) patterns)))

  unfoldable pub all_reference_rows : List ClauseRow → ℕ → List Parsed → List ReferenceRow
  all_reference_rows rows snapshot_id [] = []
  all_reference_rows rows snapshot_id (p ∷ ps) =
      reference_rows rows snapshot_id p ++ all_reference_rows rows snapshot_id ps

  module _ {V : Type 0} (fetch : String → Raises Chars)
      (embedder : Option (List Chars → Embedded V)) where
    -- The snapshot is written inactive, and made active at the end when this is asked for.
    unfoldable pub ingest : List InstrumentSource → Bool → ℕ → CorpusDb V → Raises (CorpusDb V)
    ingest instruments activate snapshot_id db = parse_all chars fetch instruments >>= λ parsed.
        let rows = clause_rows chars snapshot_id parsed in
        embeddings embedder rows >>= λ vs. zip_strict rows vs >>= λ embedded.
        let written =
          db.snapshots
          ++ (record { id = snapshot_id; is_active = false; chunk_count = length rows } ∷ []) in
        returned (record {
          snapshots = if activate then activate_snapshot snapshot_id written else written;
          clauses = db.clauses ++ embedded;
          references = db.references ++ all_reference_rows rows snapshot_id parsed;
        })
