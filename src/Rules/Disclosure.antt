-- ===== src/Rules/Disclosure.antt =====
-- app/rules/r11, r12, r26 and r27: what the key facts statement and the agreement disclose.
use nbfc_compliance_agent.Prelude.{not, ◌&&◌, none, [], ◌∷◌, if◌then◌else◌}
use nbfc_compliance_agent.Prelude.Int.{ℤ, pos, leb_ℤ}
use nbfc_compliance_agent.Prelude.Raises.{returned, try_missing, ◌>>=◌}
use nbfc_compliance_agent.Domain.Enums.{compliant, violation}
use nbfc_compliance_agent.Domain.Facts.{words, decimal}
use nbfc_compliance_agent.Rules.Base.{
  Rule, Evaluate, not_applicable, decide, cite, flag_of, int_of, has,
}

grievance_officer_in_kfs : Evaluate
grievance_officer_in_kfs facts account as_of clause_excerpts =
    let has_phone = has facts "grievance_officer_phone" in
    let has_email = has facts "grievance_officer_email" in
    let citations = cite clause_excerpts "DL2025/p11" ∷ [] in
    if has_phone && has_email
    then decide compliant citations
        (words "Grievance officer's phone and email are both present in the KFS." ∷ [])
        (("grievance_officer_phone", words "present")
          ∷ ("grievance_officer_email", words "present")
          ∷ [])
    else decide violation citations
        (words "Grievance officer's "
          ∷ words (
              if not has_phone && not has_email
              then "phone and email"
              else if not has_phone
              then "phone"
              else "email")
          ∷ words " missing from the KFS."
          ∷ [])
        ((
          "missing",
          words (
              if not has_phone && not has_email
              then "phone,email"
              else if not has_phone
              then "phone"
              else "email"),
        )
          ∷ [])

unfoldable pub r11 : Rule
unfolding grievance_officer_in_kfs
r11 = record {
  id = "R11_grievance_officer_in_kfs";
  check_key = "R11_grievance_officer_in_kfs";
  clause_paths = "DL2025/p11" ∷ [];
  consumes = "grievance_officer_phone" ∷ "grievance_officer_email" ∷ [];
  valid_from = none;
  evaluate = grievance_officer_in_kfs;
}

grievance_escalation_disclosed : Evaluate
grievance_escalation_disclosed facts account as_of clause_excerpts =
    let citations = cite clause_excerpts "DL2025/p11" ∷ [] in
    if has facts "grievance_mechanism_clause_ref"
    then decide compliant citations
        (words "A grievance escalation mechanism is disclosed in the document set." ∷ [])
        (("grievance_mechanism_clause_ref", words "present") ∷ [])
    else decide violation citations
        (words "No grievance escalation mechanism or 30-day reply window is disclosed." ∷ [])
        (("grievance_mechanism_clause_ref", words "absent") ∷ [])

unfoldable pub r12 : Rule
unfolding grievance_escalation_disclosed
r12 = record {
  id = "R12_grievance_escalation_disclosed";
  check_key = "R12_grievance_escalation_disclosed";
  clause_paths = "DL2025/p11" ∷ [];
  consumes = "grievance_mechanism_clause_ref" ∷ [];
  valid_from = none;
  evaluate = grievance_escalation_disclosed;
}

abbrev pub min_validity_days : ℤ
min_validity_days = pos 3

kfs_validity : Evaluate
kfs_validity facts account as_of clause_excerpts =
    if not (has facts "loan_proposal_number") && not (has facts "kfs_validity_days")
    then returned not_applicable
    else let citations = cite clause_excerpts "KFS2024/p1" ∷ [] in
      if not (has facts "loan_proposal_number")
      then decide violation citations
          (words "No unique proposal number is disclosed on the KFS." ∷ []) []
      else try_missing (int_of facts "kfs_validity_days")
          (decide violation citations (words "KFS validity period is not disclosed." ∷ [])
            (("loan_proposal_number", words "present") ∷ []))
          λ validity_days.
            if leb_ℤ min_validity_days validity_days
            then decide compliant citations
                (words "KFS carries a unique proposal number and a validity of "
                  ∷ decimal validity_days
                  ∷ words " day(s), meeting the "
                  ∷ decimal min_validity_days
                  ∷ words "-day minimum."
                  ∷ [])
                (("kfs_validity_days", decimal validity_days) ∷ [])
            else decide violation citations
                (words "KFS validity of "
                  ∷ decimal validity_days
                  ∷ words " day(s) is below the "
                  ∷ decimal min_validity_days
                  ∷ words "-day minimum."
                  ∷ [])
                (("kfs_validity_days", decimal validity_days) ∷ [])

unfoldable pub r26 : Rule
unfolding kfs_validity
r26 = record {
  id = "R26_kfs_validity";
  check_key = "R26_kfs_validity";
  clause_paths = "KFS2024/p1" ∷ [];
  consumes = "loan_proposal_number" ∷ "kfs_validity_days" ∷ [];
  valid_from = none;
  evaluate = kfs_validity;
}

kfs_summary_reproduced : Evaluate
kfs_summary_reproduced facts account as_of clause_excerpts =
    if not (has facts "kfs_summary_in_agreement_flag")
    then returned not_applicable
    else let citations = cite clause_excerpts "KFS2024/p2" ∷ [] in
      (flag_of facts "kfs_summary_in_agreement_flag" none >>= λ flag.
      (if flag
        then decide compliant citations
            (words "KFS particulars are reproduced as a summary box in the loan agreement." ∷ [])
            (("kfs_summary_in_agreement_flag", words "true") ∷ [])
        else decide violation citations
            (words "KFS particulars are not reproduced as a summary box in the loan agreement."
              ∷ [])
            (("kfs_summary_in_agreement_flag", words "false") ∷ [])))

unfoldable pub r27 : Rule
unfolding kfs_summary_reproduced
r27 = record {
  id = "R27_kfs_summary_reproduced";
  check_key = "R27_kfs_summary_reproduced";
  clause_paths = "KFS2024/p2" ∷ [];
  consumes = "kfs_summary_in_agreement_flag" ∷ [];
  valid_from = none;
  evaluate = kfs_summary_reproduced;
}
