-- ===== src/Retrieve/Corpus.antt =====
-- The corpus tables that retrieval and the assessment read: clause, regulation_instrument and
-- clause_reference of app/db/models.py.
use nbfc_compliance_agent.Prelude.{
  ℕ, ◌==◌, String, Bool, Option, none, List, [], ◌∷◌, ◌++◌, if◌then◌else◌,
}
use nbfc_compliance_agent.Domain.Enums.{
  BorrowerClass, InstrumentStatus, VerificationStatus, RetrievalSource,
}
use nbfc_compliance_agent.Domain.Facts.{Date}
use nbfc_compliance_agent.Domain.Clauses.{ClauseRef, ClauseCandidate}

pub record Clause : Type 0 where
  pub ref : ClauseRef
  pub open ref use *
  pub snapshot_id : ℕ
  pub instrument_id : ℕ
  pub heading : Option String
  pub text : String
  pub applies_to_borrower_classes : List BorrowerClass

pub record Instrument : Type 0 where
  pub id : ℕ
  pub snapshot_id : ℕ
  pub code : String
  pub status : InstrumentStatus
  pub citable : Bool
  pub applies_to_entity_types : List String
  pub effective_from : Option Date
  pub effective_to : Option Date
  pub verification_status : VerificationStatus

pub record Reference : Type 0 where
  pub snapshot_id : ℕ
  pub from_clause_id : ℕ
  pub to_instrument_code : String
  pub incorporates : Bool

pub record Corpus : Type 0 where
  pub clauses : List Clause
  pub instruments : List Instrument
  pub references : List Reference

pub record Row : Type 0 where
  pub clause : Clause
  pub instrument : Instrument

unfoldable pub join_one : Clause → List Instrument → List Row
join_one c [] = []
join_one c (i ∷ is) =
    let rest = join_one c is in
    if i.id == c.instrument_id then record { clause = c; instrument = i } ∷ rest else rest

-- `FROM clause c JOIN regulation_instrument i ON i.id = c.instrument_id`
unfoldable pub joined : List Clause → List Instrument → List Row
unfolding join_one
joined [] is = []
joined (c ∷ cs) is = join_one c is ++ joined cs is

-- The candidate that the services build of a row.
unfoldable pub candidate : RetrievalSource → ℕ → Row → ClauseCandidate
candidate source rank row = record {
  ref = row.clause.ref;
  heading = row.clause.heading;
  text = row.clause.text;
  source = source;
  rank = rank;
  exclusion_reason = none;
  context_note = none;
}
