-- ===== src/Rules/Recovery.antt =====
-- app/rules/r18 to r21 and r25: calls, agents and third parties in recovery.
use nbfc_compliance_agent.Prelude.{ltb, false, not, none, some, [], ◌∷◌, if◌then◌else◌}
use nbfc_compliance_agent.Prelude.Int.{ℤ, pos, leb_ℤ}
use nbfc_compliance_agent.Prelude.Raises.{Raises, returned, try_missing, ◌>>=◌}
use nbfc_compliance_agent.Domain.Enums.{compliant, violation}
use nbfc_compliance_agent.Domain.Facts.{Fragment, words, decimal, is_word}
use nbfc_compliance_agent.Rules.Base.{
  FactIndex, Rule, Evaluate, not_applicable, decide, cite, flag_of, int_of, string_of, has,
  amendment_effective,
}

abbrev pub min_retention_days : ℤ
min_retention_days = pos 180

recording_retention : Evaluate
recording_retention facts account as_of clause_excerpts =
    if ltb as_of amendment_effective
    then returned not_applicable
    else (flag_of facts "call_recorded_flag" (some false) >>= λ recorded.
        if not recorded
        then returned not_applicable
        else let citations = cite clause_excerpts "RBC-AMD2026/p100N" ∷ [] in
          try_missing (int_of facts "recording_retention_days")
            (decide violation citations
              (words "Call is recorded but no retention period is disclosed." ∷ [])
              (("call_recorded_flag", words "true") ∷ []))
            λ retention_days.
              if leb_ℤ min_retention_days retention_days
              then decide compliant citations
                  (words "Recording retention of "
                    ∷ decimal retention_days
                    ∷ words " day(s) meets the six-month minimum."
                    ∷ [])
                  (("recording_retention_days", decimal retention_days) ∷ [])
              else decide violation citations
                  (words "Recording retention of "
                    ∷ decimal retention_days
                    ∷ words " day(s) is below the six-month minimum."
                    ∷ [])
                  (("recording_retention_days", decimal retention_days) ∷ []))

unfoldable pub r18 : Rule
unfolding recording_retention
r18 = record {
  id = "R18_recording_retention";
  check_key = "R18_recording_retention";
  clause_paths = "RBC-AMD2026/p100N" ∷ [];
  consumes = "call_recorded_flag" ∷ "recording_retention_days" ∷ [];
  valid_from = some amendment_effective;
  evaluate = recording_retention;
}

agent_certified : Evaluate
agent_certified facts account as_of clause_excerpts =
    if ltb as_of amendment_effective
    then returned not_applicable
    else let citations = cite clause_excerpts "RBC-AMD2026/p100F" ∷ [] in
      try_missing (flag_of facts "agent_iibf_certified_flag" none) (returned not_applicable) λ flag.
        (if flag
          then decide compliant citations
              (words "Recovery agent holds the required certification." ∷ [])
              (("agent_iibf_certified_flag", words "true") ∷ [])
          else decide violation citations
              (words "Recovery agent does not hold the required certification." ∷ [])
              (("agent_iibf_certified_flag", words "false") ∷ []))

unfoldable pub r19 : Rule
unfolding agent_certified
r19 = record {
  id = "R19_agent_certified";
  check_key = "R19_agent_certified";
  clause_paths = "RBC-AMD2026/p100F" ∷ [];
  consumes = "agent_iibf_certified_flag" ∷ [];
  valid_from = some amendment_effective;
  evaluate = agent_certified;
}

-- The relationship on record, or "unknown".
relationship_of : FactIndex → Raises Fragment
relationship_of facts =
    if has facts "third_party_relationship"
    then string_of facts "third_party_relationship"
    else returned (words "unknown")

no_third_party_contact : Evaluate
no_third_party_contact facts account as_of clause_excerpts =
    if ltb as_of amendment_effective
    then returned not_applicable
    else let citations = cite clause_excerpts "RBC-AMD2026/p100X" ∷ [] in
      try_missing (flag_of facts "third_party_contacted_flag" none) (returned not_applicable)
        λ contacted.
          if not contacted
          then decide compliant citations
              (words "No third party was contacted for recovery purposes." ∷ [])
              (("third_party_contacted_flag", words "false") ∷ [])
          else (relationship_of facts >>= λ relationship.
              (if is_word relationship "guarantor"
                then decide compliant citations
                    (words
                        "Only the borrower's guarantor was contacted, which is not prohibited third-party contact."
                      ∷ [])
                    (("third_party_relationship", relationship) ∷ [])
                else decide violation citations
                    (words "A third party ("
                      ∷ relationship
                      ∷ words ") was contacted for recovery purposes."
                      ∷ [])
                    (("third_party_contacted_flag", words "true")
                      ∷ ("third_party_relationship", relationship)
                      ∷ [])))

unfoldable pub r20 : Rule
unfolding no_third_party_contact relationship_of
r20 = record {
  id = "R20_no_third_party_contact";
  check_key = "R20_no_third_party_contact";
  clause_paths = "RBC-AMD2026/p100X" ∷ [];
  consumes = "third_party_contacted_flag" ∷ "third_party_relationship" ∷ [];
  valid_from = some amendment_effective;
  evaluate = no_third_party_contact;
}

no_social_media_disclosure : Evaluate
no_social_media_disclosure facts account as_of clause_excerpts =
    if ltb as_of amendment_effective
    then returned not_applicable
    else let citations = cite clause_excerpts "RBC-AMD2026/p100X" ∷ [] in
      (flag_of facts "social_media_disclosure_flag" (some false) >>= λ flag.
      (if flag
        then decide violation citations
            (words "Borrower's account status was disclosed on a social media platform." ∷ [])
            (("social_media_disclosure_flag", words "true") ∷ [])
        else decide compliant citations
            (words "No social media disclosure about the borrower is on record." ∷ [])
            (("social_media_disclosure_flag", words "false") ∷ [])))

unfoldable pub r21 : Rule
unfolding no_social_media_disclosure
r21 = record {
  id = "R21_no_social_media_disclosure";
  check_key = "R21_no_social_media_disclosure";
  clause_paths = "RBC-AMD2026/p100X" ∷ [];
  consumes = "social_media_disclosure_flag" ∷ [];
  valid_from = some amendment_effective;
  evaluate = no_social_media_disclosure;
}

grievance_officer_on_recovery_comms : Evaluate
grievance_officer_on_recovery_comms facts account as_of clause_excerpts =
    if ltb as_of amendment_effective
    then returned not_applicable
    else if not (has facts "grievance_officer_details_disclosed_flag")
    then returned not_applicable
    else let citations = cite clause_excerpts "RBC-AMD2026/p100Y" ∷ [] in
      (flag_of facts "grievance_officer_details_disclosed_flag" none >>= λ flag.
      (if flag
        then decide compliant citations
            (words "Grievance officer's details are disclosed on the recovery communication." ∷ [])
            (("grievance_officer_details_disclosed_flag", words "true") ∷ [])
        else decide violation citations
            (words "Grievance officer's details are not disclosed on the recovery communication."
              ∷ [])
            (("grievance_officer_details_disclosed_flag", words "false") ∷ [])))

unfoldable pub r25 : Rule
unfolding grievance_officer_on_recovery_comms
r25 = record {
  id = "R25_grievance_officer_on_recovery_comms";
  check_key = "R25_grievance_officer_on_recovery_comms";
  clause_paths = "RBC-AMD2026/p100Y" ∷ [];
  consumes = "grievance_officer_details_disclosed_flag" ∷ [];
  valid_from = some amendment_effective;
  evaluate = grievance_officer_on_recovery_comms;
}
