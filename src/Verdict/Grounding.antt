-- ===== src/Verdict/Grounding.antt =====
-- What app/verdict/validator.py guarantees of the citations that it lets through.
use nbfc_compliance_agent.Prelude.{
  ℕ, ◌≤◌, ◌<◌, String, ◌≡◌, ◌⊎◌, inl, inr, refl, true, false, none, some, Option-cases, Bool-cases,
  List, [], ◌∷◌, All, member, arith, subst, sym,
}
use nbfc_compliance_agent.Domain.Enums.{context_only, Verdict}
use nbfc_compliance_agent.Domain.Facts.{Date}
use nbfc_compliance_agent.Domain.Clauses.{ClauseCandidate, ClauseCandidateSet, paths, by_path}
use nbfc_compliance_agent.Domain.Verdicts.{Citation, VerdictDraft}
use nbfc_compliance_agent.Verdict.Quotes.{is_literal_substring}
use nbfc_compliance_agent.Verdict.Validator.{
  RejectedCitation, is_context_only, as_context, not_yet_effective, no_longer_effective, judge,
  sift, conclude, validate,
}

-- The clause's own window holds the date.
pub record InForce (as_of : Date) (clause : ClauseCandidate) : Type 0 where
  pub commenced : (d : Date) → clause.effective_from ≡ some d → d ≤ as_of
  pub not_ended : (d : Date) → clause.effective_to ≡ some d → as_of < d

-- An offered, citable clause that is in force.
pub record IsCitable (candidates : ClauseCandidateSet) (as_of : Date) (path : String)
    (clause : ClauseCandidate) : Type 0 where
  pub offered : member path (paths candidates) ≡ true
  pub citable : clause.citable ≡ true
  pub in_force : InForce as_of clause

-- The citation names a clause of the set and quotes it literally; unless it is context only, the
-- clause may be cited on the date.
pub record Grounded (candidates : ClauseCandidateSet) (as_of : Date) (cit : Citation) : Type 0 where
  pub clause : ClauseCandidate
  pub resolved : by_path candidates cit.clause_path ≡ some clause
  pub literal : is_literal_substring cit.quoted_clause_excerpt clause.text ≡ true
  pub basis : (cit.role ≡ context_only) ⊎ IsCitable candidates as_of cit.clause_path clause

not_yet_effective-le :
    (as_of : Date) (clause : ClauseCandidate) (d : Date)
    → not_yet_effective as_of clause ≡ false
    → clause.effective_from ≡ some d
    → d ≤ as_of
unfolding not_yet_effective
not_yet_effective-le as_of clause d h e = ground arith

no_longer_effective-lt :
    (as_of : Date) (clause : ClauseCandidate) (d : Date)
    → no_longer_effective as_of clause ≡ false
    → clause.effective_to ≡ some d
    → as_of < d
unfolding no_longer_effective
no_longer_effective-lt as_of clause d h e = ground arith

module _ (candidates : ClauseCandidateSet) (as_of : Date) (cit : Citation) where
  is_context_only-eq : is_context_only cit.role ≡ true → cit.role ≡ context_only
  unfolding is_context_only
  is_context_only-eq h = ground arith

  judge-Grounded : judge candidates as_of cit ≡ none → Grounded candidates as_of cit
  unfolding judge
  judge-Grounded h = elim (Option-cases (by_path candidates cit.clause_path)) [
    | inl absent ↦ absurd (ground arith)
    | inr (c, found) ↦ record {
      clause = c;
      resolved = found;
      literal = ground arith;
      basis = elim (Bool-cases (is_context_only cit.role)) [
        | inl context ↦ inl (is_context_only-eq context)
        | inr other ↦ inr (record {
          offered = ground arith;
          citable = ground arith;
          in_force = record {
            commenced = λ d. not_yet_effective-le as_of c d (ground arith);
            not_ended = λ d. no_longer_effective-lt as_of c d (ground arith);
          };
        })
      ];
    }
  ]

  Grounded-as_context :
      Grounded candidates as_of cit → Grounded candidates as_of (record cit { role = context_only })
  Grounded-as_context g = record {
    clause = g.clause;
    resolved = g.resolved;
    literal = g.literal;
    basis = inl refl;
  }

module _ (candidates : ClauseCandidateSet) (as_of : Date) where
  sift-Grounded :
      (cits : List Citation)
      → All (Grounded candidates as_of) (sift (judge candidates as_of) cits).0
  unfolding sift
  sift-Grounded [] = tt
  sift-Grounded (cit ∷ cits) = elim (Option-cases (judge candidates as_of cit)) [
    | inl ok ↦ rw (ok, sift) (judge-Grounded candidates as_of cit ok, sift-Grounded cits)
    | inr (r, bad) ↦ rw (bad, sift) (sift-Grounded cits)
  ]

  as_context-Grounded :
      (cits : List Citation)
      → All (Grounded candidates as_of) cits
      → All (Grounded candidates as_of) (as_context cits)
  unfolding as_context
  as_context-Grounded [] h = tt
  as_context-Grounded (c ∷ cs) h =
      (Grounded-as_context candidates as_of c h.0, as_context-Grounded cs h.1)

conclude_citations :
    (v : Verdict) (kept : List Citation) (n : ℕ) (rejected : List RejectedCitation)
    → ((conclude v kept n rejected).citations ≡ kept)
      ⊎ ((conclude v kept n rejected).citations ≡ as_context kept)
unfolding conclude
conclude_citations v kept n rejected = ground arith

-- Whatever the model returns, every citation of the outcome names a clause of the candidate set and
-- quotes it literally; and unless it is context only, that clause was offered as a candidate, is
-- citable, and has a window that holds the date.
pub validate-Grounded :
    (draft : VerdictDraft) (candidates : ClauseCandidateSet) (as_of : Date)
    → All (Grounded candidates as_of) (validate draft candidates as_of).citations
unfolding validate
validate-Grounded draft candidates as_of =
    let (kept, rejected) = sift (judge candidates as_of) draft.citations in
    elim (conclude_citations draft.verdict kept _ rejected) [
      | inl same ↦
          subst (All (Grounded candidates as_of)) (sym same)
            (sift-Grounded candidates as_of draft.citations)
      | inr context ↦ subst (All (Grounded candidates as_of)) (sym context) (
          as_context-Grounded candidates as_of kept
            (sift-Grounded candidates as_of draft.citations))
    ]
