-- ===== src/Rules/Device.antt =====
-- app/rules/r23 and r24: restriction of a financed device, and its restoration.
use nbfc_compliance_agent.Prelude.{
  ltb, leb, String, false, not, Option, none, some, List, [], ◌∷◌, ◌++◌, map, if◌then◌else◌,
}
use nbfc_compliance_agent.Prelude.Int.{ℤ, pos, ◌*ℤ◌, floor_div, leb_ℤ, ltb_ℤ}
use nbfc_compliance_agent.Prelude.Raises.{Raises, returned, try_missing, ◌>>=◌}
use nbfc_compliance_agent.Domain.Enums.{compliant, violation}
use nbfc_compliance_agent.Domain.Facts.{Date, Text, words, decimal}
use nbfc_compliance_agent.Rules.Base.{
  FactIndex, ClauseExcerpts, Rule, Evaluate, Evaluated, not_applicable, decide, cite, flag_of,
  date_of, int_of, amendment_effective,
}

abbrev pub device_clause_paths : List String
device_clause_paths = "RBC-AMD2026/p100Q" ∷ "RBC-AMD2026/p100R" ∷ "RBC-AMD2026/p100S" ∷ []

abbrev pub min_days_past_due : ℤ
min_days_past_due = pos 60

-- `"; ".join(failures)`
join : List Text → Text
join [] = []
join (f ∷ []) = f
join (f ∷ fs) = f ++ (words "; " ∷ join fs)

-- A check that appends to `failures`: the failures it adds, and what it read.
read_days_past_due : FactIndex → Raises (List Text × Option ℤ)
read_days_past_due facts =
    try_missing (int_of facts "days_past_due_at_contact")
      (returned (((words "days past due at restriction is not on record" ∷ []) ∷ []), none))
      λ days_past_due. returned (
        (if ltb_ℤ days_past_due min_days_past_due
            then (words "only "
                ∷ decimal days_past_due
                ∷ words " day(s) past due, below the "
                ∷ decimal min_days_past_due
                ∷ words "-day minimum"
                ∷ [])
              ∷ []
            else []),
        some days_past_due,
      )

read_notice : FactIndex → String → Text → Raises (List Text × Option Date)
read_notice facts field_key missing =
    try_missing (date_of facts field_key) (returned ((missing ∷ []), none))
      λ sent. returned ([], some sent)

-- `if notice21 and notice7 and notice7 <= notice21`
notice_order : Option Date → Option Date → List Text
notice_order (some notice21) (some notice7) =
    if leb notice7 notice21
    then (words "the 7-day cure notice was not sent strictly after the 21-day cure notice" ∷ [])
      ∷ []
    else []
notice_order _ _ = []

device_verdict : ClauseExcerpts → List Text → Option ℤ → Raises Evaluated
unfolding join
device_verdict clause_excerpts [] days_past_due =
    decide compliant (map (cite clause_excerpts) device_clause_paths)
      (words
          "Device restriction preconditions (financed device, 60+ days past due, sequenced cure notices) are all met."
        ∷ [])
      (elim days_past_due [ none ↦ [] | some d ↦ ("days_past_due_at_contact", decimal d) ∷ [] ])
device_verdict clause_excerpts (f ∷ fs) days_past_due =
    decide violation (map (cite clause_excerpts) device_clause_paths)
      (words "Device restriction preconditions not met: " ∷ join (f ∷ fs) ++ words "." ∷ [])
      (("device_restriction_applied_flag", words "true") ∷ [])

device_restriction_preconditions : Evaluate
device_restriction_preconditions facts account as_of clause_excerpts =
    if ltb as_of amendment_effective then returned not_applicable else do
      applied ← flag_of facts "device_restriction_applied_flag" (some false)
      if not applied then returned not_applicable else do
        financed ← flag_of facts "device_financed_by_loan_flag" (some false)
        let unfinanced =
            if financed
            then []
            else (words "the restricted device was not financed by this loan" ∷ []) ∷ []
        (overdue, days_past_due) ← read_days_past_due facts
        (late21, notice21) ←
            read_notice facts "cure_notice_21day_sent_date"
              (words "no 21-day cure notice is on record" ∷ [])
        (late7, notice7) ←
            read_notice facts "cure_notice_7day_sent_date"
              (words "no 7-day cure notice is on record" ∷ [])
        device_verdict clause_excerpts
            (unfinanced ++ (overdue ++ (late21 ++ (late7 ++ notice_order notice21 notice7))))
            days_past_due

unfoldable pub r23 : Rule
unfolding device_restriction_preconditions device_verdict notice_order read_notice
    read_days_past_due
r23 = record {
  id = "R23_device_restriction_preconditions";
  check_key = "R23_device_restriction_preconditions";
  clause_paths = device_clause_paths;
  consumes =
      "device_restriction_applied_flag" ∷ "device_financed_by_loan_flag"
      ∷ "days_past_due_at_contact" ∷ "cure_notice_21day_sent_date" ∷ "cure_notice_7day_sent_date"
      ∷ "device_restriction_applied_date" ∷ [];
  valid_from = some amendment_effective;
  evaluate = device_restriction_preconditions;
}

-- MAX_REASONABLE_HOURS
abbrev pub max_reasonable_hours : ℤ
max_reasonable_hours = pos 0

restoration_compensation : Evaluate
restoration_compensation facts account as_of clause_excerpts =
    if ltb as_of amendment_effective
    then returned not_applicable
    else let citations = cite clause_excerpts "RBC-AMD2026/p100S" ∷ [] in
      try_missing (int_of facts "device_restoration_delay_hours") (returned not_applicable)
        λ delay_hours.
          if leb_ℤ delay_hours max_reasonable_hours
          then decide compliant citations
              (words "No wrongful delay in device restoration is on record." ∷ [])
              (("device_restoration_delay_hours", decimal delay_hours) ∷ [])
          else let owed_paise = delay_hours *ℤ pos 25000 in
            decide violation citations
              (words "Device restoration was wrongfully delayed by "
                ∷ decimal delay_hours
                ∷ words " hour(s); Rs "
                ∷ decimal (floor_div owed_paise 100)
                ∷ words " owed in compensation."
                ∷ [])
              (("device_restoration_delay_hours", decimal delay_hours)
                ∷ ("owed_paise", decimal owed_paise)
                ∷ [])

unfoldable pub r24 : Rule
unfolding restoration_compensation
r24 = record {
  id = "R24_restoration_compensation";
  check_key = "R24_restoration_compensation";
  clause_paths = "RBC-AMD2026/p100S" ∷ [];
  consumes = "device_restoration_delay_hours" ∷ [];
  valid_from = some amendment_effective;
  evaluate = restoration_compensation;
}
