-- ===== src/Domain/Clauses.antt =====
-- app/domain/clauses.py: clauses offered to the model. Clause ids are numbers.
use nbfc_compliance_agent.Prelude.{
  ℕ, String, Bool, Option, none, some, List, [], ◌∷◌, map, if◌then◌else◌, str_eq,
}
use nbfc_compliance_agent.Domain.Enums.{BorrowerClass, RetrievalSource, ExclusionReason}
use nbfc_compliance_agent.Domain.Facts.{Date, Text}

pub record ClauseRef : Type 0 where
  pub clause_id : ℕ
  pub clause_path : String
  pub instrument_code : String
  pub effective_from : Option Date
  pub effective_to : Option Date
  pub citable : Bool

pub record ClauseCandidate : Type 0 where
  pub ref : ClauseRef
  pub open ref use *
  pub heading : Option String
  pub text : String
  pub source : RetrievalSource
  pub rank : ℕ
  pub exclusion_reason : Option ExclusionReason
  pub context_note : Option Text

pub record ClauseCandidateSet : Type 0 where
  pub as_of : Date
  pub entity_type : String
  pub borrower_class : BorrowerClass
  pub candidates : List ClauseCandidate
  pub context_only : List ClauseCandidate
  pub snapshot_id : ℕ

-- `{c.clause_path for c in cs}`
abbrev pub paths_of : List ClauseCandidate → List String
paths_of = map (λ c. c.clause_path)

unfoldable pub find_path : List ClauseCandidate → String → Option ClauseCandidate
find_path [] path = none
find_path (c ∷ cs) path = if str_eq c.clause_path path then some c else find_path cs path

abbrev pub or_else : Option ClauseCandidate → Option ClauseCandidate → Option ClauseCandidate
or_else none o = o
or_else (some c) o = some c

unfoldable pub paths : ClauseCandidateSet → List String
paths s = paths_of s.candidates

-- The first match among the candidates, and then among the context.
unfoldable pub by_path : ClauseCandidateSet → String → Option ClauseCandidate
unfolding find_path
by_path s path = or_else (find_path s.candidates path) (find_path s.context_only path)
