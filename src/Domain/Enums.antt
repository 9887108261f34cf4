-- ===== src/Domain/Enums.antt =====
-- app/domain/enums.py: the enumerations that the modelled code branches on.

pub data BorrowerClass : Type 0 where
  general microfinance : BorrowerClass

pub data LifecycleStage : Type 0 where
  origination sanction disbursement servicing collections closure : LifecycleStage

pub data InstrumentStatus : Type 0 where
  in_force notified_not_yet_effective draft superseded : InstrumentStatus

pub data VerificationStatus : Type 0 where
  rbi_verified secondary_sourced unverified : VerificationStatus

pub data Verdict : Type 0 where
  compliant violation ambiguous no_clause_found : Verdict

pub data Severity : Type 0 where
  critical major minor informational : Severity

pub data ConfidenceBand : Type 0 where
  high medium low : ConfidenceBand

pub data DecidedBy : Type 0 where
  rule model validator_downgrade shadow : DecidedBy

pub data CitationRole : Type 0 where
  decisive supporting context_only : CitationRole

pub data RetrievalSource : Type 0 where
  pinned vector lexical reference_hop : RetrievalSource

pub data ConflictType : Type 0 where
  value_mismatch date_order tolerance_breach missing_counterpart : ConflictType

pub data ExclusionReason : Type 0 where
  not_yet_in_force superseded borrower_scope draft : ExclusionReason

pub data CitationRejectReason : Type 0 where
  not_offered not_in_force not_citable excerpt_not_substring : CitationRejectReason
