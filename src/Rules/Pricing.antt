-- ===== src/Rules/Pricing.antt =====
-- app/rules/r03 to r06: the annual percentage rate and penal charges.
use nbfc_compliance_agent.Prelude.{ltb, ◌||◌, none, some, [], ◌∷◌, if◌then◌else◌}
use nbfc_compliance_agent.Prelude.Int.{ℤ, pos, ◌+ℤ◌, ◌-ℤ◌, abs, leb_ℤ}
use nbfc_compliance_agent.Prelude.Raises.{returned, try_missing}
use nbfc_compliance_agent.Domain.Enums.{compliant, violation, ambiguous}
use nbfc_compliance_agent.Domain.Facts.{words, decimal}
use nbfc_compliance_agent.Rules.Base.{
  Rule, Evaluate, not_applicable, decide, cite, flag_of, money_of, bps_of, int_of,
  rbc2025_effective,
}

-- The comparison itself is made by app/conflicts/detector.py.
apr_consistency : Evaluate
apr_consistency facts account as_of clause_excerpts = returned not_applicable

unfoldable pub r03 : Rule
unfolding apr_consistency
r03 = record {
  id = "R03_apr_consistency";
  check_key = "R03_apr_consistency";
  clause_paths = "KFS2024/annexA/part1/9" ∷ [];
  consumes = "apr_bps" ∷ [];
  valid_from = none;
  evaluate = apr_consistency;
}

-- TOLERANCE_BPS: 2 percentage points
abbrev pub tolerance_bps : ℤ
tolerance_bps = pos 200

apr_computation : Evaluate
apr_computation facts account as_of clause_excerpts =
    try_missing (bps_of facts "apr_bps") (returned not_applicable) λ apr.
      try_missing (bps_of facts "interest_rate_bps") (returned not_applicable) λ rate.
        try_missing (money_of facts "fees_total") (returned not_applicable) λ fees.
          try_missing (money_of facts "sanctioned_amount") (returned not_applicable) λ principal.
            try_missing (int_of facts "loan_term_days") (returned not_applicable) λ term_days.
              if leb_ℤ principal (pos 0) || leb_ℤ term_days (pos 0)
              then returned not_applicable
              else let implied_apr = rate +ℤ facts.python.fee_load_bps fees principal term_days in
                let diff = abs (apr -ℤ implied_apr) in
                let citations = cite clause_excerpts "KFS2024/annexA/part1/9" ∷ [] in
                if leb_ℤ diff tolerance_bps
                then decide compliant citations
                    (words "Disclosed APR ("
                      ∷ decimal apr
                      ∷ words " bps) is within "
                      ∷ decimal tolerance_bps
                      ∷ words " bps of the rate-plus-fees estimate ("
                      ∷ decimal implied_apr
                      ∷ words " bps)."
                      ∷ [])
                    (("apr_bps", decimal apr) ∷ ("implied_apr_bps", decimal implied_apr) ∷ [])
                else decide ambiguous citations
                    (words "Disclosed APR ("
                      ∷ decimal apr
                      ∷ words " bps) differs from the rate-plus-fees estimate ("
                      ∷ decimal implied_apr
                      ∷ words " bps) by "
                      ∷ decimal diff
                      ∷ words " bps, beyond the "
                      ∷ decimal tolerance_bps
                      ∷ words " bps tolerance of this approximate check."
                      ∷ [])
                    (("apr_bps", decimal apr)
                      ∷ ("implied_apr_bps", decimal implied_apr)
                      ∷ ("diff_bps", decimal diff)
                      ∷ [])

unfoldable pub r04 : Rule
unfolding apr_computation
r04 = record {
  id = "R04_apr_computation";
  check_key = "R04_apr_computation";
  clause_paths = "KFS2024/annexA/part1/9" ∷ [];
  consumes =
      "apr_bps" ∷ "interest_rate_bps" ∷ "fees_total" ∷ "sanctioned_amount" ∷ "loan_term_days" ∷ [];
  valid_from = none;
  evaluate = apr_computation;
}

penal_not_interest : Evaluate
penal_not_interest facts account as_of clause_excerpts =
    if ltb as_of rbc2025_effective
    then returned not_applicable
    else let citations = cite clause_excerpts "RBC2025/p30/1" ∷ [] in
      try_missing (flag_of facts "penal_charge_described_as_interest_flag" none)
        (returned not_applicable)
        λ flag.
          (if flag
            then decide violation citations
                (words
                    "Penal charge is described as penal interest added to the rate of interest, which the instrument prohibits."
                  ∷ [])
                (("penal_charge_described_as_interest_flag", words "true") ∷ [])
            else decide compliant citations
                (words "Penal charge is not described as interest added to the rate." ∷ [])
                (("penal_charge_described_as_interest_flag", words "false") ∷ []))

unfoldable pub r05 : Rule
unfolding penal_not_interest
r05 = record {
  id = "R05_penal_not_interest";
  check_key = "R05_penal_not_interest";
  clause_paths = "RBC2025/p30/1" ∷ [];
  consumes = "penal_charge_described_as_interest_flag" ∷ [];
  valid_from = some rbc2025_effective;
  evaluate = penal_not_interest;
}

no_capitalisation : Evaluate
no_capitalisation facts account as_of clause_excerpts =
    if ltb as_of rbc2025_effective
    then returned not_applicable
    else let citations = cite clause_excerpts "RBC2025/p30/2" ∷ [] in
      try_missing (flag_of facts "penal_charge_capitalised_flag" none) (returned not_applicable)
        λ flag.
          (if flag
            then decide violation citations
                (words "Penal charge has been capitalised, which the instrument prohibits." ∷ [])
                (("penal_charge_capitalised_flag", words "true") ∷ [])
            else decide compliant citations (words "Penal charge has not been capitalised." ∷ [])
                (("penal_charge_capitalised_flag", words "false") ∷ []))

unfoldable pub r06 : Rule
unfolding no_capitalisation
r06 = record {
  id = "R06_no_capitalisation";
  check_key = "R06_no_capitalisation";
  clause_paths = "RBC2025/p30/2" ∷ [];
  consumes = "penal_charge_capitalised_flag" ∷ [];
  valid_from = some rbc2025_effective;
  evaluate = no_capitalisation;
}
