-- ===== src/Retrieve/Excluded.antt =====
-- Why app/retrieve/service.py sets a clause aside as context only.
use nbfc_compliance_agent.Prelude.{
  ℕ, ◌≤◌, ◌<◌, String, ◌≡◌, ◌≢◌, refl, inl, inr, Bool, true, false, Bool-cases, Option, some,
  Option-cases, List, [], ◌∷◌, any, In, here, there, All, All-append, All-keep_sub, arith, member,
}
use nbfc_compliance_agent.Prelude.Dict.{Dict}
use nbfc_compliance_agent.Domain.Enums.{
  BorrowerClass, general, microfinance, ExclusionReason, superseded, not_yet_in_force,
  borrower_scope,
}
use nbfc_compliance_agent.Domain.Clauses.{ClauseCandidate}
use nbfc_compliance_agent.Retrieve.Corpus.{Corpus, Row, candidate}
use nbfc_compliance_agent.Retrieve.Applicability.{
  Query, same_class, started, not_ended, class_applies, base_filter, clause_window, out_of_scope,
}
use nbfc_compliance_agent.Retrieve.Fusion.{Scores}
use nbfc_compliance_agent.Retrieve.Service.{
  SearchEngine, Settings, rows, exclusion, temporal_context, scope_context, context_only_candidates,
  candidate_set,
}
use nbfc_compliance_agent.Retrieve.Scope.{
  InCorpus, rows-InCorpus, kept-InCorpus, IsOfferable, base_filter-IsOfferable,
  out_of_scope-IsOfferable,
}

-- The reason given for a row: it commences later, it has ended, or it is scoped to borrower classes that
-- the query's is not one of.
pub data Reason (q : Query) (r : Row) : Option ExclusionReason → Type 0 where
  early :
      (d : ℕ) → r.clause.effective_from ≡ some d → q.as_of < d → Reason q r (some not_yet_in_force)
  ended : (d : ℕ) → r.clause.effective_to ≡ some d → d ≤ q.as_of → Reason q r (some superseded)
  other_class :
      r.clause.applies_to_borrower_classes ≢ []
      → ((b : BorrowerClass) → In b r.clause.applies_to_borrower_classes → b ≢ q.borrower_class)
      → Reason q r (some borrower_scope)

pub record Excluded (corpus : Corpus) (q : Query) (c : ClauseCandidate) : Type 0 where
  pub row : Row
  pub ref : c.ref ≡ row.clause.ref
  pub text : c.text ≡ row.clause.text
  pub offerable : IsOfferable corpus q row
  pub reason : Reason q row c.exclusion_reason

any-false {ℓ} :
    {A : Type ℓ} (p : A → Bool) (x : A) (xs : List A) → any p xs ≡ false → In x xs → p x ≡ false
unfolding any
any-false p x _ e here = ground (arith, e)
any-false p x _ e (there {y = y} {xs = xs} m) = any-false p x xs (ground (arith, e)) m

same_class_refl : (b : BorrowerClass) → same_class b b ≡ true
unfolding same_class
same_class_refl general = refl
same_class_refl microfinance = refl

class_applies-other :
    (cs : List BorrowerClass) (b : BorrowerClass)
    → class_applies cs b ≡ false
    → (cs ≢ []) × ((d : BorrowerClass) → In d cs → d ≢ b)
unfolding class_applies
class_applies-other [] b e = absurd (ground (arith, e))
class_applies-other (c ∷ cs) b e = (
  λ f. absurd (ground (arith, f)),
  λ d m same. ground (arith, any-false (same_class b) d (c ∷ cs) e m, same_class_refl b, same),
)

module _ (corpus : Corpus) (q : Query) where
  outside-Reason : (r : Row) → clause_window q r ≡ false → Reason q r (some (exclusion corpus q r))
  unfolding exclusion clause_window started not_ended
  outside-Reason r h = elim (Bool-cases (started r.clause.effective_from q.as_of)) [
    | inr later ↦ elim (Option-cases r.clause.effective_from) [
      | inl none_ ↦ absurd (ground (arith, none_, later))
      | inr (d, from) ↦ rw later (early d from (ground (arith, from, later)))
    ]
    | inl begun ↦ elim (Option-cases r.clause.effective_to) [
      | inl none_ ↦ absurd (ground (arith, none_, begun, h))
      | inr (d, to) ↦ rw begun (ended d to (ground (arith, to, begun, h)))
    ]
  ]

  temporal_context-Excluded :
      (rs : List Row)
      → All (λ r. InCorpus corpus r × (base_filter q r ≡ true)) rs
      → All (Excluded corpus q) (temporal_context corpus q rs)
  unfolding temporal_context candidate
  temporal_context-Excluded [] h = tt
  temporal_context-Excluded (r ∷ rs) h = elim (Bool-cases (clause_window q r)) [
    | inl inside ↦ rw inside (temporal_context-Excluded rs h.1)
    | inr outside ↦ rw outside (
      record {
        row = r;
        ref = refl;
        text = refl;
        offerable = base_filter-IsOfferable corpus q r h.0.0 h.0.1;
        reason = outside-Reason r outside;
      },
      temporal_context-Excluded rs h.1,
    )
  ]

  scoped-Reason : (r : Row) → out_of_scope q r ≡ true → Reason q r (some borrower_scope)
  unfolding out_of_scope
  scoped-Reason r h =
      let (scoped, others) =
        class_applies-other r.clause.applies_to_borrower_classes q.borrower_class
          (ground (arith, h)) in
      other_class scoped others

  scope_context-Excluded :
      (rs : List Row)
      → All (λ r. InCorpus corpus r × (out_of_scope q r ≡ true)) rs
      → All (Excluded corpus q) (scope_context corpus q rs)
  unfolding scope_context candidate
  scope_context-Excluded [] h = tt
  scope_context-Excluded (r ∷ rs) h = (
    record {
      row = r;
      ref = refl;
      text = refl;
      offerable = out_of_scope-IsOfferable corpus q r h.0.0 h.0.1;
      reason = scoped-Reason r h.0.1;
    },
    scope_context-Excluded rs h.1,
  )

  -- Every clause that is set aside as context only is the clause of a row of the corpus that can be
  -- offered, and the reason it carries is true of it: it commences after the date, it has ended by the
  -- date, or it is scoped to borrower classes that the account's is not one of.
  pub candidate_set-Excluded :
      (scores : Scores) (engine : SearchEngine) (settings : Settings) (pins : Dict (List String))
      (field_key : String) (has_vector : Bool)
      → All
          (Excluded corpus q)
          (candidate_set corpus q scores engine settings pins field_key has_vector).context_only
  unfolding candidate_set context_only_candidates
  candidate_set-Excluded scores engine settings pins field_key has_vector =
      let seeded =
        All-keep_sub (InCorpus corpus) (λ (r : Row). member r.clause.clause_path _) (rows corpus q)
          (rows-InCorpus corpus q) in
      All-append (Excluded corpus q) _ _
        (temporal_context-Excluded _ (kept-InCorpus corpus q (base_filter q) _ seeded))
        (scope_context-Excluded _ (kept-InCorpus corpus q (out_of_scope q) _ seeded))
