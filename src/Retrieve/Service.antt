-- ===== src/Retrieve/Service.antt =====
-- app/retrieve/service.py with vector.py and lexical.py: the searches and the candidate set.
-- The two searches order the rows that pass the filter by pgvector and by full-text rank; that
-- order is a parameter, which takes rows only from those it is given.
use nbfc_compliance_agent.Prelude.{
  ℕ, zero, suc, ◌==◌, leb, String, Bool, true, false, ◌&&◌, not, Option, none, some, List, [], ◌∷◌,
  ◌++◌, map, keep, any, In, member, str_eq, if◌then◌else◌,
}
use nbfc_compliance_agent.Prelude.Dict.{Dict, get_or}
use nbfc_compliance_agent.Prelude.Raises.{Raises, returned, ◌>>=◌}
use nbfc_compliance_agent.Domain.Enums.{
  BorrowerClass, general, microfinance, InstrumentStatus, pinned, vector, lexical, reference_hop,
  ExclusionReason, not_yet_in_force, superseded, borrower_scope,
}
use nbfc_compliance_agent.Domain.Facts.{Date, Text, words, iso_date}
use nbfc_compliance_agent.Domain.Clauses.{ClauseCandidate, ClauseCandidateSet, paths_of}
use nbfc_compliance_agent.Retrieve.Corpus.{Clause, Reference, Corpus, Row, joined, candidate}
use nbfc_compliance_agent.Retrieve.Applicability.{
  Query, base_filter, clause_window, applicable, out_of_scope, started, require_as_of,
}
use nbfc_compliance_agent.Retrieve.Rows.{limit, enumerate, dedupe, expand_all, ranked_pins}
use nbfc_compliance_agent.Retrieve.Fusion.{Scores, rrf}

pub record SearchEngine : Type 0 where
  pub ann_order : List Row → List Row
  pub fts_order : List Row → List Row
  pub ann_selects : (rows : List Row) (r : Row) → In r (ann_order rows) → In r rows
  pub fts_selects : (rows : List Row) (r : Row) → In r (fts_order rows) → In r rows

-- The settings that retrieval reads.
pub record Settings : Type 0 where
  pub retrieve_vector_k : ℕ
  pub retrieve_lexical_k : ℕ
  pub retrieve_final_k : ℕ
  pub follow_reference_hops : ℕ

ended_note : Date → Option Date → Text
ended_note as_of none = words "Not in force on " ∷ iso_date as_of ∷ []
ended_note as_of (some e) =
    if leb e as_of
    then words "Superseded as of "
      ∷ iso_date e
      ∷ words ", before "
      ∷ iso_date as_of
      ∷ words "."
      ∷ []
    else words "Not in force on " ∷ iso_date as_of ∷ []

class_name : BorrowerClass → String
class_name general = "general"
class_name microfinance = "microfinance"

module _ (corpus : Corpus) (q : Query) where
  unfoldable pub rows : List Row
  rows = joined corpus.clauses corpus.instruments

  all_paths : List String
  all_paths =
      map (λ (c : Clause). c.clause_path)
        (keep (λ (c : Clause). c.snapshot_id == q.snapshot_id) corpus.clauses)

  unfoldable pub expanded_pins : Dict (List String) → String → List String
  unfolding all_paths expand_all dedupe
  expanded_pins pins field_key = dedupe [] (expand_all (get_or pins field_key []) all_paths)

  unfoldable pub pinned_candidates : List String → List ClauseCandidate
  unfolding ranked_pins rows
  pinned_candidates expanded =
      ranked_pins
        (keep (applicable q) (keep (λ (r : Row). member r.clause.clause_path expanded) rows)) 1
        expanded

  unfoldable pub ann_search : SearchEngine → ℕ → List ClauseCandidate
  unfolding rows
  ann_search engine k = enumerate vector 1 (limit k (engine.ann_order (keep (applicable q) rows)))

  unfoldable pub fts_search : SearchEngine → ℕ → List ClauseCandidate
  unfolding rows
  fts_search engine k = enumerate lexical 1 (limit k (engine.fts_order (keep (applicable q) rows)))

  is_draft_row : Row → Bool
  is_draft_row r = elim r.instrument.status [ InstrumentStatus.draft ↦ true | _ ↦ false ]

  -- _HOP_CANDIDATES_SQL
  unfoldable pub hop_filter : String → Row → Bool
  unfolding is_draft_row
  hop_filter instrument_code r =
      (r.clause.snapshot_id == q.snapshot_id && str_eq r.clause.instrument_code instrument_code)
      && (r.clause.citable && (r.instrument.citable && not (is_draft_row r)))

  -- _REFERENCE_HOP_SQL
  unfoldable pub edges : List ℕ → List Reference
  edges seeds =
      keep
        (λ (e : Reference).
          (e.snapshot_id == q.snapshot_id && e.incorporates)
          && any (λ i. i == e.from_clause_id) seeds)
        corpus.references

  unfoldable pub hop_rows : List Reference → List Row
  unfolding rows hop_filter
  hop_rows [] = []
  hop_rows (e ∷ es) = keep (hop_filter e.to_instrument_code) rows ++ hop_rows es

  unfoldable pub reference_hop_candidates : ℕ → List ℕ → List ClauseCandidate
  unfolding edges hop_rows
  reference_hop_candidates zero seeds = []
  reference_hop_candidates (suc hops) seeds = enumerate reference_hop 1 (hop_rows (edges seeds))

  unfoldable pub exclusion : Row → ExclusionReason
  unfolding started
  exclusion r = if started r.clause.effective_from q.as_of then superseded else not_yet_in_force

  context_note : Row → Text
  unfolding ended_note
  context_note r = elim r.clause.effective_from [
    | some d ↦
        if leb d q.as_of
        then ended_note q.as_of r.clause.effective_to
        else words "Not yet in force on "
          ∷ iso_date q.as_of
          ∷ words "; commences "
          ∷ iso_date d
          ∷ words "."
          ∷ []
    | none ↦ ended_note q.as_of r.clause.effective_to
  ]

  unfoldable pub temporal_context : List Row → List ClauseCandidate
  unfolding exclusion context_note
  temporal_context [] = []
  temporal_context (r ∷ rs) =
      let rest = temporal_context rs in
      if clause_window q r
      then rest
      else record (candidate pinned 0 r) {
        exclusion_reason = some (exclusion r);
        context_note = some (context_note r);
      }
        ∷ rest

  unfoldable pub scope_context : List Row → List ClauseCandidate
  unfolding class_name
  scope_context [] = []
  scope_context (r ∷ rs) =
      record (candidate pinned 0 r) {
        exclusion_reason = some borrower_scope;
        context_note = some (
            words "Scoped to a different borrower class than '"
            ∷ words (class_name q.borrower_class)
            ∷ words "'."
            ∷ []);
      }
      ∷ scope_context rs

  unfoldable pub context_only_candidates : List String → List ClauseCandidate
  unfolding rows
  context_only_candidates seed_paths =
      let seeded = keep (λ (r : Row). member r.clause.clause_path seed_paths) rows in
      temporal_context (keep (base_filter q) seeded) ++ scope_context (keep (out_of_scope q) seeded)

  clause_ids : List ClauseCandidate → List ℕ
  clause_ids = map (λ (c : ClauseCandidate). c.clause_id)

  module _ (scores : Scores) (engine : SearchEngine) (settings : Settings)
      (pins : Dict (List String)) (field_key : String) (has_vector : Bool) where
    unfoldable pub vector_results : List ClauseCandidate
    vector_results = if has_vector then ann_search engine settings.retrieve_vector_k else []

    unfoldable pub fused : List ClauseCandidate
    unfolding vector_results clause_ids
    fused =
        let pinned_list = pinned_candidates (expanded_pins pins field_key) in
        limit settings.retrieve_final_k (
          rrf scores (
            (pinned, pinned_list)
            ∷ (vector, vector_results)
            ∷ (lexical, fts_search engine settings.retrieve_lexical_k)
            ∷ (
              reference_hop,
              reference_hop_candidates settings.follow_reference_hops
                  (clause_ids (pinned_list ++ vector_results)),
            )
            ∷ []))

    -- The candidate set for the date of the query.
    unfoldable pub candidate_set : ClauseCandidateSet
    unfolding fused
    candidate_set = record {
      as_of = q.as_of;
      entity_type = q.entity_type;
      borrower_class = q.borrower_class;
      candidates = fused;
      context_only =
          context_only_candidates (expanded_pins pins field_key ++ paths_of vector_results);
      snapshot_id = q.snapshot_id;
    }

unfoldable pub retrieve_candidates :
    Scores
    → SearchEngine
    → Settings
    → Corpus
    → Dict (List String)
    → (snapshot_id : ℕ) (entity_type : String) (borrower_class : BorrowerClass) → Option Date
    → (field_key : String) (has_vector : Bool) → Raises ClauseCandidateSet
retrieve_candidates scores engine settings corpus pins snapshot_id entity_type borrower_class as_of
      field_key has_vector =
    do
      resolved_as_of ← require_as_of as_of
      let q : Query = record {
        snapshot_id = snapshot_id;
        entity_type = entity_type;
        borrower_class = borrower_class;
        as_of = resolved_as_of;
      }
      returned (candidate_set corpus q scores engine settings pins field_key has_vector)
