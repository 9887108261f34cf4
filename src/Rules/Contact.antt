-- ===== src/Rules/Contact.antt =====
-- app/rules/r16, r17 and r22: when a borrower may be contacted and visited.
use nbfc_compliance_agent.Prelude.{
  ℕ, ◌+◌, ◌*◌, ◌/◌, ◌%◌, ltb, leb, Bool, not, ◌&&◌, ◌||◌, some, [], ◌∷◌, if◌then◌else◌,
}
use nbfc_compliance_agent.Prelude.Int.{ℤ, pos, leb_ℤ}
use nbfc_compliance_agent.Prelude.Raises.{returned, try_missing, ◌>>=◌}
use nbfc_compliance_agent.Domain.Enums.{compliant, violation}
use nbfc_compliance_agent.Domain.Facts.{
  DateTime, days_between, words, decimal, iso_date, iso_datetime, iso_date_of, clock, hour,
}
use nbfc_compliance_agent.Rules.Base.{
  Rule, Evaluate, not_applicable, decide, cite, date_of, datetime_of, rbc2025_effective,
  amendment_effective,
}

abbrev pub window_open : ℕ
window_open = 8 * hour

abbrev pub window_close : ℕ
window_close = 19 * hour

-- `ts.astimezone(ZoneInfo("Asia/Kolkata")).time()`, at the offset of +05:30 that the zone has had
-- since 1945.
unfoldable pub ist_time : DateTime → ℕ
ist_time ts = (ts.instant + 5 * hour + hour / 2) % (24 * hour)

unfoldable pub inside_window : ℕ → Bool
inside_window t = leb window_open t && leb t window_close

contact_window : Evaluate
contact_window facts account as_of clause_excerpts =
    if ltb as_of amendment_effective
    then returned not_applicable
    else (datetime_of facts "contact_datetime" >>= λ ts.
        let t = ist_time ts in
        let inside = inside_window t in
        decide (if inside then compliant else violation)
          (cite clause_excerpts "RBC-AMD2026/p100W" ∷ [])
          (words "Borrower contacted at "
            ∷ clock t
            ∷ words " IST on "
            ∷ iso_date_of ts
            ∷ words ", "
            ∷ words (if inside then "within" else "outside")
            ∷ words " the permitted "
            ∷ clock window_open
            ∷ words "–"
            ∷ clock window_close
            ∷ words " window."
            ∷ [])
          (("contact_datetime", iso_datetime ts) ∷ []))

unfoldable pub r16 : Rule
unfolding contact_window
r16 = record {
  id = "R16_contact_window";
  check_key = "R16_contact_window";
  clause_paths = "RBC-AMD2026/p100W" ∷ [];
  consumes = "contact_datetime" ∷ [];
  valid_from = some amendment_effective;
  evaluate = contact_window;
}

microfinance_contact_hours : Evaluate
microfinance_contact_hours facts account as_of clause_excerpts =
    if ltb as_of rbc2025_effective || not account.is_microfinance
    then returned not_applicable
    else (datetime_of facts "contact_datetime" >>= λ ts.
        let t = ist_time ts in
        let inside = inside_window t in
        decide (if inside then compliant else violation) (cite clause_excerpts "RBC2025/p45" ∷ [])
          (words "Microfinance borrower contacted at "
            ∷ clock t
            ∷ words " IST on "
            ∷ iso_date_of ts
            ∷ words ", "
            ∷ words (if inside then "within" else "outside")
            ∷ words " the permitted "
            ∷ clock window_open
            ∷ words "–"
            ∷ clock window_close
            ∷ words " window."
            ∷ [])
          (("contact_datetime", iso_datetime ts) ∷ []))

unfoldable pub r17 : Rule
unfolding microfinance_contact_hours
r17 = record {
  id = "R17_microfinance_contact_hours";
  check_key = "R17_microfinance_contact_hours";
  clause_paths = "RBC2025/p45" ∷ [];
  consumes = "contact_datetime" ∷ [];
  valid_from = some rbc2025_effective;
  evaluate = microfinance_contact_hours;
}

abbrev pub min_intimation_days : ℤ
min_intimation_days = pos 1

visit_prior_intimation : Evaluate
visit_prior_intimation facts account as_of clause_excerpts =
    if ltb as_of amendment_effective
    then returned not_applicable
    else let citations = cite clause_excerpts "RBC-AMD2026/p100I" ∷ [] in
      try_missing (date_of facts "first_visit_date") (returned not_applicable) λ visit_date.
        try_missing (date_of facts "visit_prior_intimation_date")
          (decide violation citations
            (words "A recovery visit occurred with no prior intimation on record." ∷ [])
            (("first_visit_date", iso_date visit_date) ∷ []))
          λ intimation_date.
            let lead_days = days_between visit_date intimation_date in
            if leb_ℤ min_intimation_days lead_days
            then decide compliant citations
                (words "Prior intimation given "
                  ∷ decimal lead_days
                  ∷ words " day(s) before the visit, meeting the "
                  ∷ decimal min_intimation_days
                  ∷ words "-day minimum."
                  ∷ [])
                (("lead_days", decimal lead_days) ∷ [])
            else decide violation citations
                (words "Prior intimation given only "
                  ∷ decimal lead_days
                  ∷ words " day(s) before the visit, below the "
                  ∷ decimal min_intimation_days
                  ∷ words "-day minimum."
                  ∷ [])
                (("lead_days", decimal lead_days) ∷ [])

unfoldable pub r22 : Rule
unfolding visit_prior_intimation
r22 = record {
  id = "R22_visit_prior_intimation";
  check_key = "R22_visit_prior_intimation";
  clause_paths = "RBC-AMD2026/p100I" ∷ [];
  consumes = "visit_prior_intimation_date" ∷ "first_visit_date" ∷ [];
  valid_from = some amendment_effective;
  evaluate = visit_prior_intimation;
}
