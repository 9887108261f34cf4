-- ===== src/Verdict/Validator.antt =====
-- app/verdict/validator.py: which citations of a model's draft are kept, and the verdict that is
-- left. `judge` is the body of the loop over the draft's citations: the reason for which it is
-- rejected, or none where it is kept.
use nbfc_compliance_agent.Prelude.{
  ℕ, ltb, leb, Bool, true, false, not, ◌&&◌, Option, none, some, List, [], ◌∷◌, map, length, keep,
  member, if◌then◌else◌,
}
use nbfc_compliance_agent.Domain.Enums.{
  Verdict, ambiguous, no_clause_found, CitationRole, decisive, context_only, CitationRejectReason,
  not_offered, not_in_force, not_citable, excerpt_not_substring,
}
use nbfc_compliance_agent.Domain.Facts.{Date}
use nbfc_compliance_agent.Domain.Clauses.{
  ClauseCandidate, ClauseCandidateSet, paths, paths_of, by_path,
}
use nbfc_compliance_agent.Domain.Verdicts.{Citation, VerdictDraft}
use nbfc_compliance_agent.Verdict.Quotes.{is_literal_substring}

pub record RejectedCitation : Type 0 where
  pub citation : Citation
  pub reason : CitationRejectReason

pub data Reason : Type 0 where
  no_valid_decisive_citation single_decisive_citation_recorded : Reason
  abstention_with_citations : Reason

pub record ValidationOutcome : Type 0 where
  pub verdict : Verdict
  pub citations : List Citation
  pub downgraded : Bool
  pub reason : Option Reason
  pub rejected : List RejectedCitation

-- `draft.verdict in CONCLUSIVE`
unfoldable pub is_conclusive : Verdict → Bool
is_conclusive no_clause_found = false
is_conclusive v = true

unfoldable pub is_context_only : CitationRole → Bool
is_context_only context_only = true
is_context_only r = false

unfoldable pub is_decisive : Citation → Bool
is_decisive c = elim c.role [ decisive ↦ true | _ ↦ false ]

unfoldable pub as_context : List Citation → List Citation
as_context = map (λ (c : Citation). record c { role = context_only })

-- The clause's window, with either end open where it is not set.
unfoldable pub not_yet_effective : Date → ClauseCandidate → Bool
not_yet_effective as_of clause = elim clause.effective_from [ none ↦ false | some d ↦ ltb as_of d ]

unfoldable pub no_longer_effective : Date → ClauseCandidate → Bool
no_longer_effective as_of clause = elim clause.effective_to [ none ↦ false | some d ↦ leb d as_of ]

judge_context : Option ClauseCandidate → Citation → Option CitationRejectReason
judge_context none cit = some excerpt_not_substring
judge_context (some clause) cit =
    if is_literal_substring cit.quoted_clause_excerpt clause.text
    then none
    else some excerpt_not_substring

judge_clause : Date → Option ClauseCandidate → Citation → Option CitationRejectReason
judge_clause as_of none cit = some not_citable
judge_clause as_of (some clause) cit =
    if not clause.citable
    then some not_citable
    else if not_yet_effective as_of clause
    then some not_in_force
    else if no_longer_effective as_of clause
    then some not_in_force
    else if is_literal_substring cit.quoted_clause_excerpt clause.text
    then none
    else some excerpt_not_substring

unfoldable pub judge : ClauseCandidateSet → Date → Citation → Option CitationRejectReason
unfolding judge_context judge_clause
judge candidates as_of cit =
    if is_context_only cit.role
    then if member cit.clause_path (paths_of candidates.context_only)
      then judge_context (by_path candidates cit.clause_path) cit
      else some not_offered
    else if member cit.clause_path (paths candidates)
    then judge_clause as_of (by_path candidates cit.clause_path) cit
    else some not_offered

-- `kept` and `rejected`, in the order of the draft.
unfoldable pub sift :
    (Citation → Option CitationRejectReason) → List Citation → List Citation × List RejectedCitation
sift judgement [] = ([], [])
sift judgement (cit ∷ cits) =
    let (kept, rejected) = sift judgement cits in
    elim (judgement cit) [
      | none ↦ (cit ∷ kept, rejected)
      | some reason ↦ (kept, record { citation = cit; reason = reason } ∷ rejected)
    ]

-- The verdict, from the draft's verdict, the kept citations and how many of them are decisive.
unfoldable pub conclude : Verdict → List Citation → ℕ → List RejectedCitation → ValidationOutcome
unfolding is_conclusive
conclude verdict kept decisives rejected =
    if is_conclusive verdict && leb decisives 0
    then record {
      verdict = no_clause_found;
      citations = as_context kept;
      downgraded = true;
      reason = some no_valid_decisive_citation;
      rejected = rejected;
    }
    else elim verdict [
      | ambiguous ↦ record {
        verdict = ambiguous;
        citations = kept;
        downgraded = false;
        reason = if ltb decisives 2 then some single_decisive_citation_recorded else none;
        rejected = rejected;
      }
      | no_clause_found ↦
          if ltb 0 decisives
          then record {
            verdict = no_clause_found;
            citations = as_context kept;
            downgraded = true;
            reason = some abstention_with_citations;
            rejected = rejected;
          }
          else record {
            verdict = no_clause_found;
            citations = kept;
            downgraded = false;
            reason = none;
            rejected = rejected;
          }
      | other ↦ record {
        verdict = other;
        citations = kept;
        downgraded = false;
        reason = none;
        rejected = rejected;
      }
    ]

unfoldable pub validate : VerdictDraft → ClauseCandidateSet → Date → ValidationOutcome
validate draft candidates as_of =
    let (kept, rejected) = sift (judge candidates as_of) draft.citations in
    conclude draft.verdict kept (length (keep is_decisive kept)) rejected
