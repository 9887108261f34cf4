-- ===== src/Verdict/History.antt =====
-- `_persist` of app/verdict/assess.py as a whole: it keeps the assessment history well formed, and
-- it raises only for a citation with no known clause.
use nbfc_compliance_agent.Prelude.{
  is_none, ℕ, ◌+◌, ◌≤◌, String, ◌≡◌, ◌↔◌, inl, inr, refl, Bool, true, false, Option, some,
  Option-cases, Bool-cases, List, [], ◌∷◌, keep, All, subst, sym, eq_iff, arith,
}
use nbfc_compliance_agent.Prelude.Dict.{Dict, get}
use nbfc_compliance_agent.Prelude.Raises.{Raises-cases, returned}
use nbfc_compliance_agent.Domain.Verdicts.{Citation, AssessmentResult}
use nbfc_compliance_agent.Verdict.Validator.{RejectedCitation}
use nbfc_compliance_agent.Verdict.Store.{Assessment, AssessmentCitation, Store}
use nbfc_compliance_agent.Verdict.State.{open_tally, is_counted}
use nbfc_compliance_agent.Verdict.Persist.{
  is_open, prior_open, citation_rows, record_assessment, new_row, persist,
}
use nbfc_compliance_agent.Verdict.Latest.{
  open_count, OneOpen, WellFormed, record_assessment-le, record_assessment-own,
  record_assessment-IsFresh, record_assessment-latest,
}

-- The citation's path has a clause id.
pub record Resolves (clause_id_by_path : Dict ℕ) (cit : Citation) : Type 0 where
  pub clause_id : ℕ
  pub known : get clause_id_by_path cit.clause_path ≡ some clause_id

citation_rows_total :
    (id : ℕ) (ids : Dict ℕ) (cits : List Citation)
    → All (Resolves ids) cits
    → (rows : List AssessmentCitation) × (citation_rows id ids cits ≡ returned rows)
unfolding citation_rows
citation_rows_total id ids [] h = ([], refl)
citation_rows_total id ids (c ∷ cs) h =
    let (rest, e) = citation_rows_total id ids cs h.1 in
    elim (Raises-cases (citation_rows id ids (c ∷ cs))) [
      | inl ok ↦ ok
      | inr (x, bad) ↦ absurd (ground (arith, e, h.0.known))
    ]

citation_rows-Resolves :
    (id : ℕ) (ids : Dict ℕ) (cits : List Citation) (rows : List AssessmentCitation)
    → citation_rows id ids cits ≡ returned rows
    → All (Resolves ids) cits
unfolding citation_rows
citation_rows-Resolves id ids [] rows e = tt
citation_rows-Resolves id ids (c ∷ cs) rows e = elim (Option-cases (get ids c.clause_path)) [
  | inl absent ↦ absurd (ground arith)
  | inr (n, known) ↦ elim (Raises-cases (citation_rows id ids cs)) [
    | inr (x, bad) ↦ absurd (ground arith)
    | inl (rest, ok) ↦
        (record { clause_id = n; known = known }, citation_rows-Resolves id ids cs rest ok)
  ]
]

module _ (tenant loan : ℕ) (document_id : Option ℕ) (result : AssessmentResult) (ids : Dict ℕ)
    (is_whatif : Bool) (rejected : List RejectedCitation) (s : Store) where
  -- Persisting succeeds exactly when every citation of the result has a clause id; an unresolvable
  -- citation is never written.
  pub persist_total :
      ((p : ℕ × Store) × (persist tenant loan document_id result ids is_whatif rejected s
          ≡ returned p))
      ↔ All (Resolves ids) result.citations
  unfolding persist
  persist_total = (
    λ (p, e). elim (Raises-cases (citation_rows s.next_id ids result.citations)) [
      | inr (x, bad) ↦ absurd (ground arith)
      | inl (rows, ok) ↦ citation_rows-Resolves s.next_id ids result.citations rows ok
    ],
    λ h.
        let (rows, e) = citation_rows_total s.next_id ids result.citations h in
        elim (Raises-cases (persist tenant loan document_id result ids is_whatif rejected s)) [
          | inl ok ↦ ok
          | inr (x, bad) ↦ absurd (ground (arith, e))
        ],
  )

  module _ (id : ℕ) (after : Store)
      (done : persist tenant loan document_id result ids is_whatif rejected s
        ≡ returned (id, after)) where
    persist_rows :
        (id ≡ s.next_id)
        × (after.next_id ≡ s.next_id + 1)
        × (after.states ≡ s.states)
        × (after.assessments
            ≡ record_assessment is_whatif
                (prior_open loan result.check_key s.assessments)
                (new_row tenant loan document_id result ids is_whatif rejected s.next_id)
                s.assessments)
    unfolding persist
    persist_rows = ground arith

    abbrev row : Assessment
    row = new_row tenant loan document_id result ids is_whatif rejected s.next_id

    other_check :
        (loan' : ℕ) (check : String)
        → is_open loan' check row ≡ false
        → OneOpen s.assessments
        → open_count loan' check after.assessments ≤ 1
    other_check loan' check other one =
        let e = persist_rows.3 in
        rw e (
          omega (
            arith,
            one.at_most_one loan' check,
            record_assessment-le is_whatif loan' check
                (prior_open loan result.check_key s.assessments) row s.assessments other,
          ))

    -- What it says of a check that the new row is an open row of it.
    own_row :
        (loan' : ℕ) (check : String)
        → is_open loan' check row ≡ true
        → (is_whatif ≡ false) × (loan ≡ loan') × (result.check_key ≡ check)
    unfolding is_open is_none
    own_row loan' check own = ground (arith, eq_iff result.check_key check)

    same_check :
        (loan' : ℕ) (check : String)
        → is_open loan' check row ≡ true
        → OneOpen s.assessments
        → open_count loan' check after.assessments ≤ 1
    same_check loan' check own one =
        let (real, l, k) = own_row loan' check own in
        let e = persist_rows.3 in
        let prior = prior_open loan result.check_key s.assessments in
        rw e (
          subst (λ b. open_count loan' check (record_assessment b prior row s.assessments) ≤ 1)
            (sym real)
            (record_assessment-own loan' check row s.assessments own (one.at_most_one loan' check)
              prior (cc (l, k))))

    -- Every successful persist, real or what-if, keeps the history well formed: at most one open
    -- assessment for each check of each account, and every id in it below the next one to be given.
    pub persist-WellFormed : WellFormed s → WellFormed after
    persist-WellFormed w = record {
      one_open = record {
        at_most_one = λ loan' check. elim (Bool-cases (is_open loan' check row)) [
          | inl own ↦ same_check loan' check own w.one_open
          | inr other ↦ other_check loan' check other w.one_open
        ];
      };
      fresh =
          let e = persist_rows.3 in
          let n = persist_rows.1 in
          rw (e, n) (record_assessment-IsFresh is_whatif _ row s.assessments w.fresh);
    }

    -- Over a well-formed history a real result becomes the one open assessment of its check.
    pub persist_latest :
        WellFormed s
        → is_whatif ≡ false
        → (prior_open loan result.check_key after.assessments ≡ some id)
          × (open_count loan result.check_key after.assessments ≤ 1)
    persist_latest w real =
        let e = persist_rows.3 in
        let prior = prior_open loan result.check_key s.assessments in
        let own : is_open loan result.check_key row ≡ true =
          unfold is_open is_none in
          ground (arith, real, eq_iff result.check_key result.check_key) in
        (
          rw (e, persist_rows.0)
              (subst
                (λ b.
                  prior_open loan result.check_key (record_assessment b prior row s.assessments)
                  ≡ some s.next_id)
                (sym real)
                (record_assessment-latest loan result.check_key row s.assessments own w.fresh prior
                  refl)),
          (persist-WellFormed w).one_open.at_most_one loan result.check_key,
        )

    whatif_rows : is_whatif ≡ true → after.assessments ≡ row ∷ s.assessments
    unfolding record_assessment
    whatif_rows hypothetical = ground (arith, persist_rows.3)

    -- A what-if run leaves the account's standing as it was: no compliance state changes, every
    -- check has the open assessment that it had, and the counts that a recomputation would take
    -- from the history are the same.
    pub persist_whatif :
        is_whatif ≡ true
        → (after.states ≡ s.states)
          × ((loan' : ℕ) (check : String)
              → prior_open loan' check after.assessments ≡ prior_open loan' check s.assessments)
          × ((tenant' loan' snapshot : ℕ)
              → open_tally tenant' loan' snapshot after ≡ open_tally tenant' loan' snapshot s)
    persist_whatif hypothetical = (
      persist_rows.2,
      λ loan' check.
          rw (whatif_rows hypothetical)
            (unfold prior_open is_open is_none in ground (arith, hypothetical)),
      λ tenant' loan' snapshot.
          unfold open_tally keep is_counted is_none in
          ground (arith, hypothetical, whatif_rows hypothetical),
    )
