-- ===== src/Retrieve/Offered.antt =====
-- What retrieve_candidates of app/retrieve/service.py hands to the model: the candidates, and the
-- clauses that are context only.
use nbfc_compliance_agent.Prelude.{
  ℕ, String, ◌≡◌, Bool, true, false, List, [], ◌∷◌, All, All-append, All-keep_sub, refl, inl, inr,
  Bool-cases, arith,
}
use nbfc_compliance_agent.Prelude.Dict.{Dict}
use nbfc_compliance_agent.Retrieve.Corpus.{Corpus, Row, candidate}
use nbfc_compliance_agent.Retrieve.Applicability.{
  Query, base_filter, clause_window, applicable, out_of_scope, class_applies, instrument_window,
}
use nbfc_compliance_agent.Retrieve.Fusion.{Scores, rrf-All}
use nbfc_compliance_agent.Retrieve.Service.{
  SearchEngine, Settings, rows, expanded_pins, reference_hop_candidates, temporal_context,
  scope_context, context_only_candidates, fused, vector_results, candidate_set,
}
use nbfc_compliance_agent.Retrieve.Candidates.{FromRow, FromRow-map, FromRow-stable, All-limit}
use nbfc_compliance_agent.Retrieve.Scope.{
  InCorpus, rows-InCorpus, kept-InCorpus, IsOfferable, Applies, Applies-IsOfferable,
  base_filter-IsOfferable, out_of_scope-IsOfferable, pinned-Applies, ann-Applies, fts-Applies,
  hop-IsOfferable,
}

-- The row passes the filter without the dates, and not the applicability filter.
pub record IsSetAside (corpus : Corpus) (q : Query) (r : Row) : Type 0 where
  pub offerable : IsOfferable corpus q r
  pub inapplicable : applicable q r ≡ false

module _ (corpus : Corpus) (q : Query) where
  unstarted : (r : Row) → clause_window q r ≡ false → applicable q r ≡ false
  unfolding applicable
  unstarted r h = ground arith

  other_class : (r : Row) → out_of_scope q r ≡ true → applicable q r ≡ false
  unfolding applicable out_of_scope
  other_class r h = ground arith

  temporal_context-IsSetAside :
      (rs : List Row)
      → All (λ r. InCorpus corpus r × (base_filter q r ≡ true)) rs
      → All (FromRow (IsSetAside corpus q)) (temporal_context corpus q rs)
  unfolding temporal_context candidate
  temporal_context-IsSetAside [] h = tt
  temporal_context-IsSetAside (r ∷ rs) h = elim (Bool-cases (clause_window q r)) [
    | inl inside ↦ rw inside (temporal_context-IsSetAside rs h.1)
    | inr outside ↦ rw outside (
      record {
        row = r;
        ref = refl;
        text = refl;
        holds = record {
          offerable = base_filter-IsOfferable corpus q r h.0.0 h.0.1;
          inapplicable = unstarted r outside;
        };
      },
      temporal_context-IsSetAside rs h.1,
    )
  ]

  scope_context-IsSetAside :
      (rs : List Row)
      → All (λ r. InCorpus corpus r × (out_of_scope q r ≡ true)) rs
      → All (FromRow (IsSetAside corpus q)) (scope_context corpus q rs)
  unfolding scope_context candidate
  scope_context-IsSetAside [] h = tt
  scope_context-IsSetAside (r ∷ rs) h = (
    record {
      row = r;
      ref = refl;
      text = refl;
      holds = record {
        offerable = out_of_scope-IsOfferable corpus q r h.0.0 h.0.1;
        inapplicable = other_class r h.0.1;
      };
    },
    scope_context-IsSetAside rs h.1,
  )

  context_only_candidates-IsSetAside :
      (seed_paths : List String)
      → All (FromRow (IsSetAside corpus q)) (context_only_candidates corpus q seed_paths)
  unfolding context_only_candidates
  context_only_candidates-IsSetAside seed_paths =
      All-append (FromRow (IsSetAside corpus q)) _ _
        (temporal_context-IsSetAside _ (
          kept-InCorpus corpus q (base_filter q) _
            (All-keep_sub (InCorpus corpus) _ (rows corpus q) (rows-InCorpus corpus q))))
        (scope_context-IsSetAside _ (
          kept-InCorpus corpus q (out_of_scope q) _
            (All-keep_sub (InCorpus corpus) _ (rows corpus q) (rows-InCorpus corpus q))))

module _ (corpus : Corpus) (q : Query) (scores : Scores) (engine : SearchEngine)
    (settings : Settings) (pins : Dict (List String)) (field_key : String) (has_vector : Bool) where
  vector_results-Applies :
      All
        (FromRow (Applies corpus q))
        (vector_results corpus q scores engine settings pins field_key has_vector)
  unfolding vector_results
  vector_results-Applies = elim (Bool-cases has_vector) [
    | inl on ↦ rw on (ann-Applies corpus q engine settings.retrieve_vector_k)
    | inr off ↦ rw off tt
  ]

  fused-All :
      (P : Row → Type 0)
      → ((r : Row) → Applies corpus q r → P r)
      → ((seeds : List ℕ)
          → All
              (FromRow P)
              (reference_hop_candidates corpus q settings.follow_reference_hops seeds))
      → All (FromRow P) (fused corpus q scores engine settings pins field_key has_vector)
  unfolding fused
  fused-All P applies hop = All-limit (FromRow P) settings.retrieve_final_k _ (
      rrf-All scores (FromRow P) (FromRow-stable P) _ (
        FromRow-map (Applies corpus q) P applies _
            (pinned-Applies corpus q (expanded_pins corpus q pins field_key)),
        (
          FromRow-map (Applies corpus q) P applies _ vector_results-Applies,
          (
            FromRow-map (Applies corpus q) P applies _
                (fts-Applies corpus q engine settings.retrieve_lexical_k),
            (hop _, tt),
          ),
        ),
      ))

  -- Every candidate has the reference and the text of a clause of the corpus, which is citable and of
  -- the snapshot asked for, and the instrument that the clause names is in the corpus, citable and not
  -- a draft; and so is every clause that is context only.
  pub candidate_set-IsOfferable :
      (let set = candidate_set corpus q scores engine settings pins field_key has_vector in
        All (FromRow (IsOfferable corpus q)) set.candidates
        × All (FromRow (IsOfferable corpus q)) set.context_only)
  unfolding candidate_set
  candidate_set-IsOfferable = (
    fused-All (IsOfferable corpus q) (Applies-IsOfferable corpus q)
        (hop-IsOfferable corpus q settings.follow_reference_hops),
    FromRow-map (IsSetAside corpus q) (IsOfferable corpus q) (λ r h. h.offerable) _
        (context_only_candidates-IsSetAside corpus q _),
  )

  -- When no reference hop is followed, every candidate has the reference and the text of a clause of
  -- the corpus that passes the applicability filter together with the instrument it names: on both date
  -- windows, the entity type and the borrower class.
  pub candidate_set-Applies :
      settings.follow_reference_hops ≡ 0
      → All
          (FromRow (Applies corpus q))
          (candidate_set corpus q scores engine settings pins field_key has_vector).candidates
  unfolding candidate_set reference_hop_candidates
  candidate_set-Applies no_hops = fused-All (Applies corpus q) (λ r h. h) λ seeds. rw no_hops tt

  -- No clause that is context only passes the applicability filter.
  context_only-inapplicable :
      All
        (FromRow (λ r. applicable q r ≡ false))
        (candidate_set corpus q scores engine settings pins field_key has_vector).context_only
  unfolding candidate_set
  context_only-inapplicable =
      FromRow-map (IsSetAside corpus q) (λ r. applicable q r ≡ false) (λ r h. h.inapplicable) _
        (context_only_candidates-IsSetAside corpus q _)

-- A clause inside its own window and scoped to the query's borrower class, whose instrument is out
-- of force, does not pass the applicability filter, and is no context either: the temporal context
-- leaves it out, and the scope filter rejects it.
window_gap :
    (corpus : Corpus) (q : Query) (r : Row) (rs : List Row)
    → class_applies r.clause.applies_to_borrower_classes q.borrower_class ≡ true
    → clause_window q r ≡ true
    → instrument_window q r ≡ false
    → (applicable q r ≡ false)
      × (temporal_context corpus q (r ∷ rs) ≡ temporal_context corpus q rs)
      × (out_of_scope q r ≡ false)
unfolding applicable temporal_context out_of_scope
window_gap corpus q r rs class inside ended = (ground arith, ground arith, ground arith)
