-- ===== src/Retrieve/Tests.antt =====
-- Test data for app/retrieve: one instrument with two clauses, of which one has ended.
use nbfc_compliance_agent.Prelude.{
  ℕ, ◌+◌, ◌==◌, ltb, refl, true, false, if◌then◌else◌, none, some, String, List, [], ◌∷◌, All,
}
use nbfc_compliance_agent.Prelude.Dict.{Dict}
use nbfc_compliance_agent.Domain.Enums.{general, rbi_verified, InstrumentStatus}
use nbfc_compliance_agent.Retrieve.Corpus.{Clause, Instrument, Corpus}
use nbfc_compliance_agent.Retrieve.Applicability.{Query}
use nbfc_compliance_agent.Retrieve.Fusion.{Scores}
use nbfc_compliance_agent.Retrieve.Service.{SearchEngine, Settings, candidate_set}
use nbfc_compliance_agent.Retrieve.Candidates.{FromRow}
use nbfc_compliance_agent.Retrieve.Scope.{IsOfferable, Applies}
use nbfc_compliance_agent.Retrieve.Excluded.{Excluded, candidate_set-Excluded}
use nbfc_compliance_agent.Retrieve.Offered.{candidate_set-IsOfferable, candidate_set-Applies}

abbrev pub clause : ℕ → String → Clause
clause id path = record {
  ref = record {
    clause_id = id;
    clause_path = path;
    instrument_code = "RBC2025";
    effective_from = some 739583;
    effective_to = if id == 1 then none else some 739600;
    citable = true;
  };
  snapshot_id = 1;
  instrument_id = 3;
  heading = none;
  text = "Documents shall be released within 30 days.";
  applies_to_borrower_classes = [];
}

abbrev pub instrument : Instrument
instrument = record {
  id = 3;
  snapshot_id = 1;
  code = "RBC2025";
  status = InstrumentStatus.in_force;
  citable = true;
  applies_to_entity_types = "nbfc_icc" ∷ [];
  effective_from = some 739583;
  effective_to = none;
  verification_status = rbi_verified;
}

abbrev corpus : Corpus
corpus = record {
  clauses = clause 1 "RBC2025/p35" ∷ clause 2 "RBC2025/p35/a" ∷ [];
  instruments = instrument ∷ [];
  references = [];
}

abbrev query : Query
query = record {
  snapshot_id = 1;
  entity_type = "nbfc_icc";
  borrower_class = general;
  as_of = 739677;
}

-- Scores that are counts of the lists a clause is in.
abbrev pub scores : Scores
scores = record {
  Score = ℕ;
  zero_score = 0;
  plus = ◌+◌;
  contribution = λ source rank. 1;
  below = ltb;
  path_below = λ a b. false;
}

-- An engine that leaves the rows as they are.
abbrev pub engine : SearchEngine
engine = record {
  ann_order = λ rows. rows;
  fts_order = λ rows. rows;
  ann_selects = λ rows r m. m;
  fts_selects = λ rows r m. m;
}

abbrev pub settings : Settings
settings = record {
  retrieve_vector_k = 5;
  retrieve_lexical_k = 5;
  retrieve_final_k = 8;
  follow_reference_hops = 0;
}

abbrev pub pins : Dict (List String)
pins = ("full_repayment_date", "RBC2025/p35" ∷ []) ∷ []

candidate_set-IsOfferable_example :
    (let set = candidate_set corpus query scores engine settings pins "full_repayment_date" true in
      All (FromRow (IsOfferable corpus query)) set.candidates
      × All (FromRow (IsOfferable corpus query)) set.context_only)
candidate_set-IsOfferable_example =
    candidate_set-IsOfferable corpus query scores engine settings pins "full_repayment_date" true

candidate_set-Applies_example :
    All
      (FromRow (Applies corpus query))
      (candidate_set corpus query scores engine settings pins "full_repayment_date" true).candidates
candidate_set-Applies_example =
    candidate_set-Applies corpus query scores engine settings pins "full_repayment_date" true refl

candidate_set-Excluded_example :
    All
      (Excluded corpus query)
      (candidate_set corpus query scores engine settings pins "full_repayment_date"
        true).context_only
candidate_set-Excluded_example =
    candidate_set-Excluded corpus query scores engine settings pins "full_repayment_date" true
