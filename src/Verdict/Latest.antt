-- ===== src/Verdict/Latest.antt =====
-- What `_persist` of app/verdict/assess.py keeps of the account's history: one open assessment for
-- each check, what-if runs apart.
use nbfc_compliance_agent.Prelude.{
  is_none, ℕ, suc, ◌+◌, ◌≤◌, String, ◌≡◌, refl, Bool, true, false, Option, none, some, List, [],
  ◌∷◌, count, All, arith,
}
use nbfc_compliance_agent.Verdict.Store.{Assessment, Store}
use nbfc_compliance_agent.Verdict.Persist.{is_open, prior_open, supersede, record_assessment}

-- How many open assessments an account has for a check.
unfoldable pub open_count : ℕ → String → List Assessment → ℕ
open_count loan check = count (is_open loan check)

-- At most one for each check of each account.
pub record OneOpen (rows : List Assessment) : Type 0 where
  pub at_most_one : (loan : ℕ) (check : String) → open_count loan check rows ≤ 1

module _ (loan : ℕ) (check : String) where
  supersede-le :
      (old new : ℕ) (rows : List Assessment)
      → open_count loan check (supersede old new rows) ≤ open_count loan check rows
  unfolding open_count count supersede is_open is_none
  supersede-le old new [] = omega arith
  supersede-le old new (a ∷ rows) = ground (arith, supersede-le old new rows)

  prior_open-none :
      (rows : List Assessment) → prior_open loan check rows ≡ none → open_count loan check rows ≡ 0
  unfolding open_count count prior_open
  prior_open-none [] h = refl
  prior_open-none (a ∷ rows) h = ground (arith, prior_open-none rows)

  -- Superseding the prior row closes at least that one.
  supersede-prior :
      (prior new : ℕ) (rows : List Assessment)
      → prior_open loan check rows ≡ some prior
      → open_count loan check (supersede prior new rows) + 1 ≤ open_count loan check rows
  unfolding open_count count prior_open supersede is_open is_none
  supersede-prior prior new [] h = absurd (ground arith)
  supersede-prior prior new (a ∷ rows) h =
      ground (arith, supersede-le prior new rows, supersede-prior prior new rows)

-- A row that is not of the check stays out of its count.
pub record_assessment-le :
    (is_whatif : Bool) (loan : ℕ) (check : String) (prior : Option ℕ) (a : Assessment)
    (rows : List Assessment)
    → is_open loan check a ≡ false
    → open_count loan check (record_assessment is_whatif prior a rows) ≤ open_count loan check rows
unfolding open_count count record_assessment
record_assessment-le is_whatif loan check none a rows h = ground arith
record_assessment-le is_whatif loan check (some p) a rows h =
    let cut = supersede-le loan check p a.id (a ∷ rows) in
    unfold open_count count in ground (arith, cut)

supersede-cons :
    (loan : ℕ) (check : String) (old new : ℕ) (a : Assessment) (rows : List Assessment)
    → open_count loan check (supersede old new (a ∷ rows))
      ≤ 1 + open_count loan check (supersede old new rows)
unfolding open_count count supersede
supersede-cons loan check old new a rows = ground arith

-- The check's own count is one afterwards, where it was at most one before.
pub record_assessment-own :
    (loan : ℕ) (check : String) (a : Assessment) (rows : List Assessment)
    → is_open loan check a ≡ true
    → open_count loan check rows ≤ 1
    → (prior : Option ℕ) → prior_open loan check rows ≡ prior
    → open_count loan check (record_assessment false prior a rows) ≤ 1
unfolding record_assessment
record_assessment-own loan check a rows own one none e =
    unfold open_count count in ground (arith, prior_open-none loan check rows e)
record_assessment-own loan check a rows own one (some p) e =
    omega (arith, supersede-cons loan check p a.id a rows, supersede-prior loan check p a.id rows e)

-- Ids that were not given yet are in no row.
abbrev pub IsFresh : ℕ → List Assessment → Type 0
IsFresh next = All (λ a. suc a.id ≤ next)

pub record WellFormed (s : Store) : Type 0 where
  pub one_open : OneOpen s.assessments
  pub fresh : IsFresh s.next_id s.assessments

IsFresh-supersede :
    (old new next : ℕ) (rows : List Assessment)
    → IsFresh next rows
    → IsFresh (next + 1) (supersede old new rows)
unfolding supersede
IsFresh-supersede old new next [] h = tt
IsFresh-supersede old new next (a ∷ rows) h =
    (ground arith, IsFresh-supersede old new next rows h.1)

IsFresh-suc : (next : ℕ) (rows : List Assessment) → IsFresh next rows → IsFresh (next + 1) rows
IsFresh-suc next [] h = tt
IsFresh-suc next (a ∷ rows) h = (ground arith, IsFresh-suc next rows h.1)

prior_open-lt :
    (loan : ℕ) (check : String) (next p : ℕ) (rows : List Assessment)
    → IsFresh next rows
    → prior_open loan check rows ≡ some p
    → suc p ≤ next
unfolding prior_open
prior_open-lt loan check next p [] h e = absurd (ground arith)
prior_open-lt loan check next p (a ∷ rows) h e =
    ground (arith, prior_open-lt loan check next p rows h.1)

pub record_assessment-IsFresh :
    (is_whatif : Bool) (prior : Option ℕ) (a : Assessment) (rows : List Assessment)
    → IsFresh a.id rows
    → IsFresh (a.id + 1) (record_assessment is_whatif prior a rows)
unfolding record_assessment
record_assessment-IsFresh is_whatif none a rows h = (omega arith, IsFresh-suc a.id rows h)
record_assessment-IsFresh true (some p) a rows h = (omega arith, IsFresh-suc a.id rows h)
record_assessment-IsFresh false (some p) a rows h =
    unfold supersede in (ground arith, IsFresh-supersede p a.id a.id rows h)

-- The new row is then the first open one of its check.
pub record_assessment-latest :
    (loan : ℕ) (check : String) (a : Assessment) (rows : List Assessment)
    → is_open loan check a ≡ true
    → IsFresh a.id rows
    → (prior : Option ℕ) → prior_open loan check rows ≡ prior
    → prior_open loan check (record_assessment false prior a rows) ≡ some a.id
unfolding record_assessment prior_open supersede
record_assessment-latest loan check a rows own h none e = ground arith
record_assessment-latest loan check a rows own h (some p) e =
    ground (arith, prior_open-lt loan check a.id p rows h e)
