-- ===== src/Retrieve/Applicability.antt =====
-- app/retrieve/applicability.py: the three WHERE fragments as tests of a joined row.
use nbfc_compliance_agent.Prelude.{
  ℕ, ◌==◌, leb, ltb, String, Bool, true, false, not, ◌&&◌, Option, none, some, List, [], ◌∷◌, any,
  member,
}
use nbfc_compliance_agent.Prelude.Raises.{Raises, returned, raised, applicability_error}
use nbfc_compliance_agent.Domain.Enums.{
  BorrowerClass, general, microfinance, InstrumentStatus, draft,
}
use nbfc_compliance_agent.Domain.Facts.{Date}
use nbfc_compliance_agent.Retrieve.Corpus.{Row}

-- The bound parameters of the queries.
pub record Query : Type 0 where
  pub snapshot_id : ℕ
  pub entity_type : String
  pub borrower_class : BorrowerClass
  pub as_of : Date

unfoldable pub same_class : BorrowerClass → BorrowerClass → Bool
same_class general general = true
same_class microfinance microfinance = true
same_class _ _ = false

-- `e IS NULL OR e <= :as_of`, and `e IS NULL OR e > :as_of`
unfoldable pub started : Option Date → Date → Bool
started none as_of = true
started (some d) as_of = leb d as_of

unfoldable pub not_ended : Option Date → Date → Bool
not_ended none as_of = true
not_ended (some d) as_of = ltb as_of d

-- `applies_to_borrower_classes = '{}' OR :borrower_class = ANY (…)`
unfoldable pub class_applies : List BorrowerClass → BorrowerClass → Bool
class_applies [] b = true
class_applies (c ∷ cs) b = any (same_class b) (c ∷ cs)

is_draft : InstrumentStatus → Bool
is_draft draft = true
is_draft s = false

-- CONTEXT_ONLY_SQL_NO_DATES
unfoldable pub base_filter : Query → Row → Bool
unfolding is_draft
base_filter q row =
    (row.clause.snapshot_id == q.snapshot_id && (row.clause.citable && row.instrument.citable))
    && (member q.entity_type row.instrument.applies_to_entity_types
        && not (is_draft row.instrument.status))

-- The two pairs of date predicates.
unfoldable pub clause_window : Query → Row → Bool
unfolding started not_ended
clause_window q row =
    started row.clause.effective_from q.as_of && not_ended row.clause.effective_to q.as_of

unfoldable pub instrument_window : Query → Row → Bool
unfolding started not_ended
instrument_window q row =
    started row.instrument.effective_from q.as_of && not_ended row.instrument.effective_to q.as_of

-- APPLICABILITY_SQL
unfoldable pub applicable : Query → Row → Bool
applicable q row =
    (base_filter q row && class_applies row.clause.applies_to_borrower_classes q.borrower_class)
    && (clause_window q row && instrument_window q row)

-- CONTEXT_ONLY_BORROWER_SCOPE_SQL
unfoldable pub out_of_scope : Query → Row → Bool
out_of_scope q row =
    (base_filter q row
      && not (class_applies row.clause.applies_to_borrower_classes q.borrower_class))
    && (clause_window q row && instrument_window q row)

unfoldable pub require_as_of : Option Date → Raises Date
require_as_of none = raised applicability_error
require_as_of (some d) = returned d
