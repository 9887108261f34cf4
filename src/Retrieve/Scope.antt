-- ===== src/Retrieve/Scope.antt =====
-- Which clauses app/retrieve/service.py offers: what every candidate and every context clause has
-- in common, and when the applicability filter holds of all candidates.
use nbfc_compliance_agent.Prelude.{
  ℕ, zero, suc, String, ◌≡◌, ◌≢◌, inl, inr, refl, true, List, [], ◌∷◌, keep, All, All-In, All-map,
  All-append, All-keep, All-keep_sub, All-tabulate, In, here, there, Bool, Bool-cases, ◌==◌, arith,
  subst, sym,
}
use nbfc_compliance_agent.Domain.Enums.{InstrumentStatus, vector, lexical, reference_hop}
use nbfc_compliance_agent.Retrieve.Corpus.{
  Reference, Clause, Instrument, Corpus, Row, join_one, joined,
}
use nbfc_compliance_agent.Retrieve.Applicability.{Query, base_filter, applicable, out_of_scope}
use nbfc_compliance_agent.Retrieve.Service.{
  SearchEngine, hop_rows, rows, pinned_candidates, ann_search, fts_search, hop_filter,
  reference_hop_candidates,
}
use nbfc_compliance_agent.Retrieve.Candidates.{
  FromRow, enumerate-FromRow, All-limit, ranked_pins-FromRow,
}

-- The row joins a clause of the corpus with the instrument that the clause names, of the same corpus.
pub record InCorpus (corpus : Corpus) (r : Row) : Type 0 where
  pub clause : In r.clause corpus.clauses
  pub instrument : In r.instrument corpus.instruments
  pub linked : r.instrument.id ≡ r.clause.instrument_id

join_one-linked :
    (c : Clause) (is : List Instrument)
    → All
        (λ (r : Row). (r.clause ≡ c) × In r.instrument is × (r.instrument.id ≡ c.instrument_id))
        (join_one c is)
unfolding join_one
join_one-linked c [] = tt
join_one-linked c (i ∷ is) =
    let rest =
      All-map
        (λ (r : Row). (r.clause ≡ c) × In r.instrument is × (r.instrument.id ≡ c.instrument_id))
        (λ (r : Row).
          (r.clause ≡ c) × In r.instrument (i ∷ is) × (r.instrument.id ≡ c.instrument_id))
        (λ r h. (h.0, there h.1, h.2)) (join_one c is) (join_one-linked c is) in
    elim (Bool-cases (i.id == c.instrument_id)) [
      | inl linked ↦ rw linked ((refl, here, ground (arith, linked)), rest)
      | inr other ↦ rw other rest
    ]

module _ (corpus : Corpus) where
  joined-InCorpus :
      (cs : List Clause)
      → ((c : Clause) → In c cs → In c corpus.clauses)
      → All (InCorpus corpus) (joined cs corpus.instruments)
  unfolding joined
  joined-InCorpus [] h = tt
  joined-InCorpus (c ∷ cs) h =
      All-append (InCorpus corpus) (join_one c corpus.instruments) (joined cs corpus.instruments)
        (All-map _ (InCorpus corpus)
          (λ r l. record {
            clause = subst (λ (x : Clause). In x corpus.clauses) (sym l.0) (h c here);
            instrument = l.1;
            linked = ground (arith, l.0, l.2);
          })
          (join_one c corpus.instruments) (join_one-linked c corpus.instruments))
        (joined-InCorpus cs (λ x m. h x (there m)))

-- The row is one of the corpus and passes the applicability filter.
pub record Applies (corpus : Corpus) (q : Query) (r : Row) : Type 0 where
  pub in_corpus : InCorpus corpus r
  pub applicable_ : applicable q r ≡ true

-- A row of the corpus with a citable clause of the snapshot, of a citable instrument that is no draft.
pub record IsOfferable (corpus : Corpus) (q : Query) (r : Row) : Type 0 where
  pub in_corpus : InCorpus corpus r
  pub in_snapshot : r.clause.snapshot_id ≡ q.snapshot_id
  pub citable : r.clause.citable ≡ true
  pub instrument_citable : r.instrument.citable ≡ true
  pub not_draft : r.instrument.status ≢ InstrumentStatus.draft

module _ (corpus : Corpus) (q : Query) where
  pub rows-InCorpus : All (InCorpus corpus) (rows corpus q)
  unfolding rows
  rows-InCorpus = joined-InCorpus corpus corpus.clauses (λ c m. m)

  -- What a filter keeps of rows of the corpus.
  pub kept-InCorpus :
      (p : Row → Bool) (rs : List Row)
      → All (InCorpus corpus) rs
      → All (λ r. InCorpus corpus r × (p r ≡ true)) (keep p rs)
  kept-InCorpus p rs h =
      All-tabulate (λ r. InCorpus corpus r × (p r ≡ true)) (keep p rs)
        λ r m. (
          All-In (InCorpus corpus) m (All-keep_sub (InCorpus corpus) p rs h),
          All-In _ m (All-keep p rs),
        )

  pub base_filter-IsOfferable :
      (r : Row) → InCorpus corpus r → base_filter q r ≡ true → IsOfferable corpus q r
  unfolding base_filter
  base_filter-IsOfferable r m h = record {
    in_corpus = m;
    in_snapshot = ground (arith, h);
    citable = ground (arith, h);
    instrument_citable = ground (arith, h);
    not_draft = ground (arith, h);
  }

  pub Applies-IsOfferable : (r : Row) → Applies corpus q r → IsOfferable corpus q r
  unfolding applicable
  Applies-IsOfferable r h = base_filter-IsOfferable r h.in_corpus (ground (arith, h.applicable_))

  pub out_of_scope-IsOfferable :
      (r : Row) → InCorpus corpus r → out_of_scope q r ≡ true → IsOfferable corpus q r
  unfolding out_of_scope
  out_of_scope-IsOfferable r m h = base_filter-IsOfferable r m (ground (arith, h))

  passing-Applies :
      (rs : List Row) → All (InCorpus corpus) rs → All (Applies corpus q) (keep (applicable q) rs)
  passing-Applies rs h =
      All-map _ (Applies corpus q) (λ r k. record { in_corpus = k.0; applicable_ = k.1 }) _
        (kept-InCorpus (applicable q) rs h)

  hop_filter-IsOfferable :
      (code : String) (r : Row)
      → InCorpus corpus r
      → hop_filter corpus q code r ≡ true
      → IsOfferable corpus q r
  unfolding hop_filter
  hop_filter-IsOfferable code r m h = record {
    in_corpus = m;
    in_snapshot = ground (arith, h);
    citable = ground (arith, h);
    instrument_citable = ground (arith, h);
    not_draft = ground (arith, h);
  }

  pub pinned-Applies :
      (expanded : List String)
      → All (FromRow (Applies corpus q)) (pinned_candidates corpus q expanded)
  unfolding pinned_candidates
  pinned-Applies expanded =
      ranked_pins-FromRow (Applies corpus q) _ 1 expanded
        (passing-Applies _ (All-keep_sub (InCorpus corpus) _ (rows corpus q) rows-InCorpus))

  pub ann-Applies :
      (engine : SearchEngine) (k : ℕ)
      → All (FromRow (Applies corpus q)) (ann_search corpus q engine k)
  unfolding ann_search
  ann-Applies engine k =
      let passing = keep (applicable q) (rows corpus q) in
      enumerate-FromRow (Applies corpus q) vector 1 _ (
        All-limit (Applies corpus q) k _ (
          All-tabulate (Applies corpus q) (engine.ann_order passing) (λ r m.
            All-In (Applies corpus q) (engine.ann_selects passing r m)
              (passing-Applies (rows corpus q) rows-InCorpus))))

  pub fts-Applies :
      (engine : SearchEngine) (k : ℕ)
      → All (FromRow (Applies corpus q)) (fts_search corpus q engine k)
  unfolding fts_search
  fts-Applies engine k =
      let passing = keep (applicable q) (rows corpus q) in
      enumerate-FromRow (Applies corpus q) lexical 1 _ (
        All-limit (Applies corpus q) k _ (
          All-tabulate (Applies corpus q) (engine.fts_order passing) (λ r m.
            All-In (Applies corpus q) (engine.fts_selects passing r m)
              (passing-Applies (rows corpus q) rows-InCorpus))))

  hop_rows-IsOfferable : (es : List Reference) → All (IsOfferable corpus q) (hop_rows corpus q es)
  unfolding hop_rows
  hop_rows-IsOfferable [] = tt
  hop_rows-IsOfferable (e ∷ es) =
      All-append (IsOfferable corpus q)
        (keep (hop_filter corpus q e.to_instrument_code) (rows corpus q)) (hop_rows corpus q es)
        (All-map _ (IsOfferable corpus q)
          (λ r k. hop_filter-IsOfferable e.to_instrument_code r k.0 k.1) _
          (kept-InCorpus (hop_filter corpus q e.to_instrument_code) (rows corpus q) rows-InCorpus))
        (hop_rows-IsOfferable es)

  pub hop-IsOfferable :
      (hops : ℕ) (seeds : List ℕ)
      → All (FromRow (IsOfferable corpus q)) (reference_hop_candidates corpus q hops seeds)
  unfolding reference_hop_candidates
  hop-IsOfferable zero seeds = tt
  hop-IsOfferable (suc hops) seeds =
      enumerate-FromRow (IsOfferable corpus q) reference_hop 1 _ (hop_rows-IsOfferable _)
