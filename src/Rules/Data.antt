-- ===== src/Rules/Data.antt =====
-- app/rules/r13 to r15: borrower data, and the recovery agent's identity.
use nbfc_compliance_agent.Prelude.{false, not, none, some, [], ◌∷◌, if◌then◌else◌}
use nbfc_compliance_agent.Prelude.Int.{ℤ, pos, leb_ℤ}
use nbfc_compliance_agent.Prelude.Raises.{returned, try_missing, ◌>>=◌}
use nbfc_compliance_agent.Domain.Enums.{compliant, violation}
use nbfc_compliance_agent.Domain.Facts.{words, decimal}
use nbfc_compliance_agent.Rules.Base.{Rule, Evaluate, not_applicable, decide, cite, flag_of, int_of}

abbrev pub max_hours : ℤ
max_hours = pos 24

offshore_deletion : Evaluate
offshore_deletion facts account as_of clause_excerpts = do
  offshore ← flag_of facts "data_stored_offshore_flag" (some false)
  if not offshore
      then returned not_applicable
      else let citations = cite clause_excerpts "DL2025/p13" ∷ [] in
        try_missing (int_of facts "offshore_deletion_within_hours")
          (decide violation citations
            (words "Data is processed offshore but no deletion window is disclosed." ∷ [])
            (("data_stored_offshore_flag", words "true") ∷ []))
          λ hours.
            if leb_ℤ hours max_hours
            then decide compliant citations
                (words "Offshore-processed data is deleted within "
                  ∷ decimal hours
                  ∷ words " hour(s), within the "
                  ∷ decimal max_hours
                  ∷ words "-hour requirement."
                  ∷ [])
                (("offshore_deletion_within_hours", decimal hours) ∷ [])
            else decide violation citations
                (words "Offshore-processed data is deleted within "
                  ∷ decimal hours
                  ∷ words " hour(s), exceeding the "
                  ∷ decimal max_hours
                  ∷ words "-hour requirement."
                  ∷ [])
                (("offshore_deletion_within_hours", decimal hours) ∷ [])

unfoldable pub r13 : Rule
unfolding offshore_deletion
r13 = record {
  id = "R13_offshore_deletion";
  check_key = "R13_offshore_deletion";
  clause_paths = "DL2025/p13" ∷ [];
  consumes = "data_stored_offshore_flag" ∷ "offshore_deletion_within_hours" ∷ [];
  valid_from = none;
  evaluate = offshore_deletion;
}

no_biometric : Evaluate
no_biometric facts account as_of clause_excerpts =
    let citations = cite clause_excerpts "DL2025/p13" ∷ [] in
    (flag_of facts "biometric_data_collected_flag" (some false) >>= λ flag.
    (if flag
      then decide violation citations
          (words "Biometric data is collected without a disclosed statutory mandate." ∷ [])
          (("biometric_data_collected_flag", words "true") ∷ [])
      else decide compliant citations (words "No biometric data collection is on record." ∷ [])
          (("biometric_data_collected_flag", words "false") ∷ [])))

unfoldable pub r14 : Rule
unfolding no_biometric
r14 = record {
  id = "R14_no_biometric";
  check_key = "R14_no_biometric";
  clause_paths = "DL2025/p13" ∷ [];
  consumes = "biometric_data_collected_flag" ∷ [];
  valid_from = none;
  evaluate = no_biometric;
}

agent_identity_notified : Evaluate
agent_identity_notified facts account as_of clause_excerpts =
    let citations = cite clause_excerpts "DL2025/p8" ∷ [] in
    try_missing (flag_of facts "recovery_agent_identity_notified_before_contact_flag" none)
      (returned not_applicable)
      λ flag.
        (if flag
          then decide compliant citations
              (words "Recovery agent's identity was notified to the borrower before first contact."
                ∷ [])
              (("recovery_agent_identity_notified_before_contact_flag", words "true") ∷ [])
          else decide violation citations
              (words
                  "Recovery agent's identity was not notified to the borrower before first contact."
                ∷ [])
              (("recovery_agent_identity_notified_before_contact_flag", words "false") ∷ []))

unfoldable pub r15 : Rule
unfolding agent_identity_notified
r15 = record {
  id = "R15_agent_identity_notified";
  check_key = "R15_agent_identity_notified";
  clause_paths = "DL2025/p8" ∷ [];
  consumes = "recovery_agent_identity_notified_before_contact_flag" ∷ [];
  valid_from = none;
  evaluate = agent_identity_notified;
}
