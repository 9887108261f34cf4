-- ===== src/Extract/Spans.antt =====
-- app/extract/spans.py: the check that a quote stands in the source, the budget of a document for
-- quoted text, and which spans are to be cut.
use nbfc_compliance_agent.Prelude.{
  ℕ, ◌+◌, ◌-◌, ltb, leb, Bool, true, false, List, [], ◌∷◌, if◌then◌else◌,
}
use nbfc_compliance_agent.Prelude.Regex.{Chars}
use nbfc_compliance_agent.Prelude.Chars.{contains}

-- A row of `document`.
pub record DocumentRow : Type 0 where
  pub char_count : ℕ
  pub span_budget_chars : ℕ
  pub span_used_chars : ℕ

-- verify_span
unfoldable pub verify_span : Chars → Chars → Bool
verify_span quoted source_text = contains quoted source_text

-- (admitted, truncated)
pub record Admission : Type 0 where
  pub admitted : Bool
  pub truncated : Bool

unfoldable pub min : ℕ → ℕ → ℕ
min a b = if leb a b then a else b

-- admit_span, with the row after the update. `remaining <= 0` is `budget <= used`.
unfoldable pub admit_span : ℕ → DocumentRow → Admission × DocumentRow
unfolding min
admit_span span_len d =
    if leb d.span_budget_chars d.span_used_chars
    then (record { admitted = false; truncated = true }, d)
    else (
      record {
        admitted = true;
        truncated = ltb (min span_len (d.span_budget_chars - d.span_used_chars)) span_len;
      },
      record d {
        span_used_chars =
            d.span_used_chars + min span_len (d.span_budget_chars - d.span_used_chars);
      },
    )

-- A place in the descending order, before those that are as long: `sorted(…, reverse=True)` is stable.
unfoldable pub insert {ℓ} : {A : Type ℓ} → A × ℕ → List (A × ℕ) → List (A × ℕ)
insert x [] = x ∷ []
insert x (y ∷ ys) = let rest = insert x ys in if ltb x.1 y.1 then y ∷ rest else x ∷ y ∷ ys

unfoldable pub sort_longest_first {ℓ} : {A : Type ℓ} → List (A × ℕ) → List (A × ℕ)
sort_longest_first [] = []
sort_longest_first (x ∷ xs) = insert x (sort_longest_first xs)

-- `sum(length for _, length in spans)`
unfoldable pub total {ℓ} : {A : Type ℓ} → List (A × ℕ) → ℕ
total [] = 0
total (x ∷ xs) = x.1 + total xs

-- The loop over the sorted spans, with the total that is left.
unfoldable pub cut_while_over {ℓ} : {A : Type ℓ} → ℕ → ℕ → List (A × ℕ) → List A
cut_while_over budget_remaining left [] = []
cut_while_over budget_remaining left (x ∷ xs) =
    let rest = cut_while_over budget_remaining (left - x.1) xs in
    if leb left budget_remaining then [] else x.0 ∷ rest

unfoldable pub truncate_longest_first {ℓ} : {A : Type ℓ} → List (A × ℕ) → ℕ → List A
truncate_longest_first spans budget_remaining =
    cut_while_over budget_remaining (total spans) (sort_longest_first spans)
