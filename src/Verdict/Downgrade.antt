-- ===== src/Verdict/Downgrade.antt =====
-- What app/verdict/validator.py guarantees of the verdict that is left.
use nbfc_compliance_agent.Prelude.{
  ℕ, ◌+◌, ltb, ◌≡◌, ◌⊎◌, refl, true, List, [], ◌∷◌, length, keep, Option, ◌∙◌, arith,
}
use nbfc_compliance_agent.Domain.Enums.{
  Verdict, compliant, violation, ambiguous, no_clause_found, CitationRejectReason,
}
use nbfc_compliance_agent.Domain.Facts.{Date}
use nbfc_compliance_agent.Domain.Clauses.{ClauseCandidateSet}
use nbfc_compliance_agent.Domain.Verdicts.{Citation, VerdictDraft}
use nbfc_compliance_agent.Verdict.Validator.{
  RejectedCitation, is_conclusive, is_decisive, as_context, judge, sift, conclude, validate,
}

pub decisives : List Citation → ℕ
decisives cits = length (keep is_decisive cits)

decisives-as_context : (cits : List Citation) → decisives (as_context cits) ≡ 0
unfolding decisives as_context keep is_decisive
decisives-as_context [] = refl
decisives-as_context (c ∷ cs) = decisives-as_context cs

length-as_context : (cits : List Citation) → length (as_context cits) ≡ length cits
unfolding as_context
length-as_context [] = refl
length-as_context (c ∷ cs) = omega (arith, length-as_context cs)

conclude_exact :
    (v : Verdict) (kept : List Citation) (rejected : List RejectedCitation)
    → is_conclusive (conclude v kept (decisives kept) rejected).verdict
      ≡ ltb 0 (decisives (conclude v kept (decisives kept) rejected).citations)
unfolding conclude
conclude_exact compliant kept rejected = ground (arith, decisives-as_context kept)
conclude_exact violation kept rejected = ground (arith, decisives-as_context kept)
conclude_exact ambiguous kept rejected = ground (arith, decisives-as_context kept)
conclude_exact no_clause_found kept rejected = ground (arith, decisives-as_context kept)

length-sift :
    (j : Citation → Option CitationRejectReason) (cits : List Citation)
    → length (sift j cits).0 + length (sift j cits).1 ≡ length cits
unfolding sift
length-sift j [] = refl
length-sift j (c ∷ cs) = ground (arith, length-sift j cs)

length-conclude :
    (v : Verdict) (kept : List Citation) (n : ℕ) (rejected : List RejectedCitation)
    → length (conclude v kept n rejected).citations + length (conclude v kept n rejected).rejected
      ≡ length kept + length rejected
unfolding conclude
length-conclude v kept n rejected = ground (arith, length-as_context kept)

module _ (draft : VerdictDraft) (candidates : ClauseCandidateSet) (as_of : Date) where
  -- The outcome's verdict is compliant, violation or ambiguous exactly when the outcome keeps at
  -- least one decisive citation.
  pub validate_conclusive_exact :
      is_conclusive (validate draft candidates as_of).verdict
      ≡ ltb 0 (decisives (validate draft candidates as_of).citations)
  unfolding validate decisives
  validate_conclusive_exact = unfold decisives in conclude_exact draft.verdict _ _

  -- The outcome's verdict is the draft's, or it is no_clause_found and marked as downgraded; and
  -- every citation of the draft is either in the outcome or among the rejected ones, counted.
  validate_keeps_verdict :
      (((validate draft candidates as_of).verdict ≡ draft.verdict)
        ⊎ (((validate draft candidates as_of).verdict ≡ no_clause_found)
            × ((validate draft candidates as_of).downgraded ≡ true)))
      × (length (validate draft candidates as_of).citations
            + length (validate draft candidates as_of).rejected
          ≡ length draft.citations)
  unfolding validate conclude
  validate_keeps_verdict = (
    ground arith,
    length-conclude draft.verdict _ _ _ ∙ length-sift (judge candidates as_of) draft.citations,
  )
