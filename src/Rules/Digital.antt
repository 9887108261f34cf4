-- ===== src/Rules/Digital.antt =====
-- app/rules/r07 to r10: digital lending, the flow of money and the cooling-off period.
use nbfc_compliance_agent.Prelude.{false, not, none, some, [], ◌∷◌, if◌then◌else◌}
use nbfc_compliance_agent.Prelude.Int.{ℤ, pos, ltb_ℤ}
use nbfc_compliance_agent.Prelude.Raises.{returned, try_missing, ◌>>=◌}
use nbfc_compliance_agent.Domain.Enums.{compliant, violation}
use nbfc_compliance_agent.Domain.Facts.{words, decimal, spaced, is_word}
use nbfc_compliance_agent.Rules.Base.{
  Rule, Evaluate, not_applicable, decide, cite, flag_of, int_of, string_of,
}

abbrev pub min_cooling_off_days : ℤ
min_cooling_off_days = pos 1

cooling_off_disclosed : Evaluate
cooling_off_disclosed facts account as_of clause_excerpts =
    if not account.is_digital_lending
    then returned not_applicable
    else let citations = cite clause_excerpts "DL2025/p10" ∷ [] in
      try_missing (int_of facts "cooling_off_period_days")
        (decide violation citations
          (words "No cooling-off period is disclosed for this digital lending arrangement." ∷ [])
          [])
        λ days.
          (flag_of facts "cooling_off_prepayment_penalty_flag" (some false) >>= λ penalty.
          (if ltb_ℤ days min_cooling_off_days
            then decide violation citations
                (words "Disclosed cooling-off period of "
                  ∷ decimal days
                  ∷ words " day(s) is below the minimum of "
                  ∷ decimal min_cooling_off_days
                  ∷ words " day."
                  ∷ [])
                (("cooling_off_period_days", decimal days) ∷ [])
            else if penalty
            then decide violation citations
                (words "A prepayment penalty is levied within the disclosed cooling-off period."
                  ∷ [])
                (("cooling_off_period_days", decimal days)
                  ∷ ("cooling_off_prepayment_penalty_flag", words "true")
                  ∷ [])
            else decide compliant citations
                (words "Cooling-off period of "
                  ∷ decimal days
                  ∷ words " day(s) disclosed with no prepayment penalty within it."
                  ∷ [])
                (("cooling_off_period_days", decimal days) ∷ [])))

unfoldable pub r07 : Rule
unfolding cooling_off_disclosed
r07 = record {
  id = "R07_cooling_off_disclosed";
  check_key = "R07_cooling_off_disclosed";
  clause_paths = "DL2025/p10" ∷ [];
  consumes = "cooling_off_period_days" ∷ "cooling_off_prepayment_penalty_flag" ∷ [];
  valid_from = none;
  evaluate = cooling_off_disclosed;
}

disbursal_to_borrower : Evaluate
disbursal_to_borrower facts account as_of clause_excerpts =
    if not account.is_digital_lending
    then returned not_applicable
    else let citations = cite clause_excerpts "DL2025/p9/i" ∷ [] in
      try_missing (string_of facts "disbursal_credited_account_type") (returned not_applicable)
        λ account_type.
          if is_word account_type "borrower_own"
          then decide compliant citations
              (words "Disbursal was credited to the borrower's own account." ∷ [])
              (("disbursal_credited_account_type", account_type) ∷ [])
          else decide violation citations
              (words "Disbursal was credited to a "
                ∷ spaced account_type
                ∷ words " account rather than the borrower's own account."
                ∷ [])
              (("disbursal_credited_account_type", account_type) ∷ [])

unfoldable pub r08 : Rule
unfolding disbursal_to_borrower
r08 = record {
  id = "R08_disbursal_to_borrower";
  check_key = "R08_disbursal_to_borrower";
  clause_paths = "DL2025/p9/i" ∷ [];
  consumes = "disbursal_credited_account_type" ∷ [];
  valid_from = none;
  evaluate = disbursal_to_borrower;
}

no_pool_account : Evaluate
no_pool_account facts account as_of clause_excerpts =
    if not account.is_digital_lending
    then returned not_applicable
    else let citations = cite clause_excerpts "DL2025/p9/ii" ∷ [] in
      try_missing (flag_of facts "pass_through_account_used_flag" none) (returned not_applicable)
        λ flag.
          (if flag
            then decide violation citations
                (words "Repayments flow through a lending-service-provider pass-through account."
                  ∷ [])
                (("pass_through_account_used_flag", words "true") ∷ [])
            else decide compliant citations
                (words "No pass-through account is used for repayment collection." ∷ [])
                (("pass_through_account_used_flag", words "false") ∷ []))

unfoldable pub r09 : Rule
unfolding no_pool_account
r09 = record {
  id = "R09_no_pool_account";
  check_key = "R09_no_pool_account";
  clause_paths = "DL2025/p9/ii" ∷ [];
  consumes = "repayment_debited_account_type" ∷ "pass_through_account_used_flag" ∷ [];
  valid_from = none;
  evaluate = no_pool_account;
}

lsp_fee_borne_by_lender : Evaluate
lsp_fee_borne_by_lender facts account as_of clause_excerpts =
    if not account.is_digital_lending
    then returned not_applicable
    else let citations = cite clause_excerpts "DL2025/p9/iii" ∷ [] in
      try_missing (string_of facts "lsp_fee_borne_by") (returned not_applicable) λ borne_by.
        if is_word borne_by "lender"
        then decide compliant citations
            (words "The lending service provider's fee is borne by the regulated entity." ∷ [])
            (("lsp_fee_borne_by", borne_by) ∷ [])
        else decide violation citations
            (words "The lending service provider's fee is borne by "
              ∷ borne_by
              ∷ words ", not the regulated entity."
              ∷ [])
            (("lsp_fee_borne_by", borne_by) ∷ [])

unfoldable pub r10 : Rule
unfolding lsp_fee_borne_by_lender
r10 = record {
  id = "R10_lsp_fee_borne_by_lender";
  check_key = "R10_lsp_fee_borne_by_lender";
  clause_paths = "DL2025/p9/iii" ∷ [];
  consumes = "lsp_fee_borne_by" ∷ [];
  valid_from = none;
  evaluate = lsp_fee_borne_by_lender;
}
