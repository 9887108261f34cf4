-- ===== src/Retrieve/Candidates.antt =====
-- Candidates that app/retrieve/service.py builds of rows, and what the rows have in common.
use nbfc_compliance_agent.Prelude.{
  ℕ, zero, suc, ◌+◌, String, ◌≡◌, inl, inr, refl, none, some, Option-cases, List, [], ◌∷◌, All,
  All-map, arith, subst,
}
use nbfc_compliance_agent.Domain.Enums.{RetrievalSource, pinned}
use nbfc_compliance_agent.Domain.Clauses.{ClauseCandidate}
use nbfc_compliance_agent.Retrieve.Corpus.{Row, candidate}
use nbfc_compliance_agent.Retrieve.Rows.{limit, enumerate, row_at, ranked_pins}

-- The candidate is the clause of a row that satisfies `P`.
pub record FromRow (P : Row → Type 0) (c : ClauseCandidate) : Type 0 where
  pub row : Row
  pub ref : c.ref ≡ row.clause.ref
  pub text : c.text ≡ row.clause.text
  pub holds : P row

module _ (P : Row → Type 0) where
  candidate-FromRow :
      (source : RetrievalSource) (n : ℕ) (r : Row) → P r → FromRow P (candidate source n r)
  unfolding candidate
  candidate-FromRow source n r h = record { row = r; ref = refl; text = refl; holds = h }

  pub enumerate-FromRow :
      (source : RetrievalSource) (n : ℕ) (rs : List Row)
      → All P rs
      → All (FromRow P) (enumerate source n rs)
  unfolding enumerate
  enumerate-FromRow source n [] h = tt
  enumerate-FromRow source n (r ∷ rs) h =
      (candidate-FromRow source n r h.0, enumerate-FromRow source (n + 1) rs h.1)

  row_at-holds :
      (rs : List Row) (path : String) (r : Row) → All P rs → row_at rs path ≡ some r → P r
  unfolding row_at
  row_at-holds [] path r h e = absurd (ground arith)
  row_at-holds (x ∷ xs) path r h e = elim (Option-cases (row_at xs path)) [
    | inr (y, later) ↦ row_at-holds xs path r h.1 (ground (arith, later))
    | inl last ↦ subst P (ground (arith, last)) h.0
  ]

pub All-limit {ℓ κ} :
    {A : Type ℓ} (P : A → Type κ) (n : ℕ) (xs : List A) → All P xs → All P (limit n xs)
unfolding limit
All-limit P zero xs h = tt
All-limit P (suc n) [] h = tt
All-limit P (suc n) (x ∷ xs) h = (h.0, All-limit P n xs h.1)

module _ (P : Row → Type 0) where
  pub ranked_pins-FromRow :
      (rs : List Row) (n : ℕ) (ps : List String) → All P rs → All (FromRow P) (ranked_pins rs n ps)
  unfolding ranked_pins
  ranked_pins-FromRow rs n [] h = tt
  ranked_pins-FromRow rs n (p ∷ ps) h = elim (Option-cases (row_at rs p)) [
    | inl absent ↦ rw (absent, ranked_pins) (ranked_pins-FromRow rs (n + 1) ps h)
    | inr (r, found) ↦
        rw (found, ranked_pins)
          (
            candidate-FromRow P pinned n r (row_at-holds P rs p r h found),
            ranked_pins-FromRow rs (n + 1) ps h,
          )
  ]

pub FromRow-map :
    (P Q : Row → Type 0)
    → ((r : Row) → P r → Q r)
    → (cs : List ClauseCandidate) → All (FromRow P) cs
    → All (FromRow Q) cs
FromRow-map P Q f =
    All-map (FromRow P) (FromRow Q)
      λ c h. record { row = h.row; ref = h.ref; text = h.text; holds = f h.row h.holds }

pub FromRow-stable :
    (P : Row → Type 0) (c : ClauseCandidate) (n : ℕ)
    → FromRow P c
    → FromRow P (record c { rank = n; exclusion_reason = none; context_note = none })
FromRow-stable P c n h = record { row = h.row; ref = h.ref; text = h.text; holds = h.holds }
