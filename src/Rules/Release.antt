-- ===== src/Rules/Release.antt =====
-- app/rules/r01, r02 and r02b: the return of original documents after full repayment.
use nbfc_compliance_agent.Prelude.{ltb, false, not, some, [], ◌∷◌, if◌then◌else◌}
use nbfc_compliance_agent.Prelude.Int.{ℤ, pos, ◌-ℤ◌, ◌*ℤ◌, floor_div, leb_ℤ}
use nbfc_compliance_agent.Prelude.Raises.{returned, try_missing, ◌>>=◌}
use nbfc_compliance_agent.Domain.Enums.{compliant, violation}
use nbfc_compliance_agent.Domain.Facts.{days_between, words, decimal, iso_date}
use nbfc_compliance_agent.Rules.Base.{
  Rule, Evaluate, not_applicable, decide, cite, flag_of, date_of, money_of, rbc2025_effective,
}

abbrev pub release_window_days : ℤ
release_window_days = pos 30

-- Rs 5,000
abbrev pub compensation_per_day_paise : ℤ
compensation_per_day_paise = pos 500000

docs_release_30d : Evaluate
docs_release_30d facts account as_of clause_excerpts =
    if ltb as_of rbc2025_effective then returned not_applicable else do
      lost ← flag_of facts "docs_lost_flag" (some false)
      if lost then returned not_applicable else do
        repaid ← date_of facts "full_repayment_date"
        released ← date_of facts "original_docs_released_date"
        let delay = days_between released repaid
        let citations = cite clause_excerpts "RBC2025/p35" ∷ []
        if leb_ℤ delay release_window_days
            then decide compliant citations
                (words "Documents released "
                  ∷ decimal delay
                  ∷ words " day(s) after full repayment on "
                  ∷ iso_date repaid
                  ∷ words ", within the 30-day window."
                  ∷ [])
                (("full_repayment_date", iso_date repaid)
                  ∷ ("original_docs_released_date", iso_date released)
                  ∷ [])
            else decide violation citations
                (words "Documents released "
                  ∷ decimal delay
                  ∷ words " day(s) after full repayment on "
                  ∷ iso_date repaid
                  ∷ words ", exceeding the 30-day window by "
                  ∷ decimal (delay -ℤ release_window_days)
                  ∷ words " day(s)."
                  ∷ [])
                (("full_repayment_date", iso_date repaid)
                  ∷ ("original_docs_released_date", iso_date released)
                  ∷ ("delay_days", decimal delay)
                  ∷ [])

unfoldable pub r01 : Rule
unfolding docs_release_30d
r01 = record {
  id = "R01_docs_release_30d";
  check_key = "R01_docs_release_30d";
  clause_paths = "RBC2025/p35" ∷ [];
  consumes = "full_repayment_date" ∷ "original_docs_released_date" ∷ "docs_lost_flag" ∷ [];
  valid_from = some rbc2025_effective;
  evaluate = docs_release_30d;
}

docs_release_compensation : Evaluate
docs_release_compensation facts account as_of clause_excerpts =
    if ltb as_of rbc2025_effective then returned not_applicable else do
      lost ← flag_of facts "docs_lost_flag" (some false)
      if lost then returned not_applicable else do
        repaid ← date_of facts "full_repayment_date"
        released ← date_of facts "original_docs_released_date"
        let delay = days_between released repaid
        if leb_ℤ delay release_window_days then returned not_applicable else do
          let owed_days = delay -ℤ release_window_days
          let owed_paise = owed_days *ℤ compensation_per_day_paise
          let citations = cite clause_excerpts "RBC2025/p39" ∷ []
          try_missing (money_of facts "release_delay_compensation_paid")
              (decide violation citations
                (words "Release delayed "
                  ∷ decimal owed_days
                  ∷ words " day(s) beyond the window; Rs "
                  ∷ decimal (floor_div owed_paise 100)
                  ∷ words " owed but no compensation payment is on record."
                  ∷ [])
                (("delay_days", decimal delay) ∷ ("owed_paise", decimal owed_paise) ∷ []))
              λ paid_paise.
                if leb_ℤ owed_paise paid_paise
                then decide compliant citations
                    (words "Compensation of Rs "
                      ∷ decimal (floor_div paid_paise 100)
                      ∷ words " paid meets or exceeds the Rs "
                      ∷ decimal (floor_div owed_paise 100)
                      ∷ words " owed for "
                      ∷ decimal owed_days
                      ∷ words " day(s) of delay."
                      ∷ [])
                    (("delay_days", decimal delay) ∷ ("paid_paise", decimal paid_paise) ∷ [])
                else decide violation citations
                    (words "Compensation of Rs "
                      ∷ decimal (floor_div paid_paise 100)
                      ∷ words " paid is less than the Rs "
                      ∷ decimal (floor_div owed_paise 100)
                      ∷ words " owed for "
                      ∷ decimal owed_days
                      ∷ words " day(s) of delay."
                      ∷ [])
                    (("delay_days", decimal delay)
                      ∷ ("paid_paise", decimal paid_paise)
                      ∷ ("owed_paise", decimal owed_paise)
                      ∷ [])

unfoldable pub r02 : Rule
unfolding docs_release_compensation
r02 = record {
  id = "R02_docs_release_compensation";
  check_key = "R02_docs_release_compensation";
  clause_paths = "RBC2025/p39" ∷ [];
  consumes =
      "full_repayment_date" ∷ "original_docs_released_date" ∷ "release_delay_compensation_paid"
      ∷ "docs_lost_flag" ∷ [];
  valid_from = some rbc2025_effective;
  evaluate = docs_release_compensation;
}

-- 30 + EXTRA_WINDOW_DAYS
abbrev pub extended_window : ℤ
extended_window = pos 60

lost_documents : Evaluate
lost_documents facts account as_of clause_excerpts =
    if ltb as_of rbc2025_effective then returned not_applicable else do
      lost ← flag_of facts "docs_lost_flag" (some false)
      if not lost then returned not_applicable else do
        assisted ← flag_of facts "duplicate_docs_assistance_offered_flag" (some false)
        repaid ← date_of facts "full_repayment_date"
        released ← date_of facts "original_docs_released_date"
        let delay = days_between released repaid
        let citations = cite clause_excerpts "RBC2025/p40" ∷ []
        if not assisted
            then decide violation citations
                (words
                    "Original documents reported lost, but no assistance with duplicates is on record."
                  ∷ [])
                (("docs_lost_flag", words "true")
                  ∷ ("duplicate_docs_assistance_offered_flag", words "false")
                  ∷ [])
            else if leb_ℤ delay extended_window
            then decide compliant citations
                (words "Documents lost; duplicates assisted and released within the extended "
                  ∷ decimal extended_window
                  ∷ words "-day window ("
                  ∷ decimal delay
                  ∷ words " days)."
                  ∷ [])
                (("delay_days", decimal delay) ∷ [])
            else decide violation citations
                (words "Documents lost; released "
                  ∷ decimal delay
                  ∷ words " days after repayment, exceeding the extended "
                  ∷ decimal extended_window
                  ∷ words "-day window."
                  ∷ [])
                (("delay_days", decimal delay) ∷ [])

unfoldable pub r02b : Rule
unfolding lost_documents
r02b = record {
  id = "R02b_lost_documents";
  check_key = "R02b_lost_documents";
  clause_paths = "RBC2025/p40" ∷ [];
  consumes =
      "docs_lost_flag" ∷ "duplicate_docs_assistance_offered_flag" ∷ "full_repayment_date"
      ∷ "original_docs_released_date" ∷ [];
  valid_from = some rbc2025_effective;
  evaluate = lost_documents;
}
