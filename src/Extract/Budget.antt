-- ===== src/Extract/Budget.antt =====
-- The budget of a document for quoted text (app/extract/spans.py) over any number of admissions.
use mathlib.Core.List.{Perm}
use mathlib.Core.List.Perm
use nbfc_compliance_agent.Prelude.{
  ℕ, ◌+◌, ◌-◌, ◌≤◌, ◌<◌, leb, ltb, ◌≡◌, refl, ap, subst, inl, inr, Bool-cases, List, [], ◌∷◌, ◌++◌,
  map, All, All-map, arith,
}
use nbfc_compliance_agent.Extract.Spans.{
  DocumentRow, min, admit_span, insert, sort_longest_first, total, cut_while_over,
  truncate_longest_first,
}

-- The admissions of the spans, one after the other.
pub admit_all : List ℕ → DocumentRow → DocumentRow
admit_all [] d = d
admit_all (span_len ∷ spans) d = admit_all spans (admit_span span_len d).1

pub sum : List ℕ → ℕ
sum [] = 0
sum (n ∷ ns) = n + sum ns

-- From a row within its budget, any spans admitted one after the other use what they need together,
-- cut at the budget, so that the budget is never exceeded.
pub admit_all-used :
    (spans : List ℕ) (d : DocumentRow)
    → d.span_used_chars ≤ d.span_budget_chars
    → (admit_all spans d).span_used_chars ≡ min (d.span_used_chars + sum spans) d.span_budget_chars
unfolding admit_all admit_span min sum
admit_all-used [] d h = ground (arith, h)
admit_all-used (span_len ∷ spans) d h =
    let rest = admit_all-used spans (admit_span span_len d).1 (ground (arith, h)) in
    ground (arith, rest, h)

subtract_first : (a b : ℕ) → a + b - a ≡ b
subtract_first a b = omega arith

total-sum {ℓ} : {A : Type ℓ} (xs : List (A × ℕ)) → total xs ≡ sum (map (λ x. x.1) xs)
unfolding total sum
total-sum [] = refl
total-sum (x ∷ xs) = ap (λ n. x.1 + n) (total-sum xs)

total-insert {ℓ} :
    {A : Type ℓ} (x : A × ℕ) (xs : List (A × ℕ)) → total (insert x xs) ≡ x.1 + total xs
unfolding total insert
total-insert x [] = refl
total-insert x (y ∷ ys) = ground (arith, total-insert x ys)

total-sort {ℓ} : {A : Type ℓ} (xs : List (A × ℕ)) → total (sort_longest_first xs) ≡ total xs
unfolding total sort_longest_first
total-sort [] = refl
total-sort (x ∷ xs) = ground (arith, total-insert x (sort_longest_first xs), total-sort xs)

-- No span is longer than one before it.
pub Descending {ℓ} : {A : Type ℓ} → List (A × ℕ) → Type 0
Descending [] = Unit {0}
Descending (x ∷ xs) = All (λ y. y.1 ≤ x.1) xs × Descending xs

module _ {ℓ} {A : Type ℓ} where
  insert-All :
      (n : ℕ) (x : A × ℕ) (xs : List (A × ℕ))
      → x.1 ≤ n
      → All (λ y. y.1 ≤ n) xs
      → All (λ y. y.1 ≤ n) (insert x xs)
  unfolding insert
  insert-All n x [] h k = (h, tt)
  insert-All n x (y ∷ ys) h k = elim (Bool-cases (ltb x.1 y.1)) [
    | inl shorter ↦ rw shorter (k.0, insert-All n x ys h k.1)
    | inr longer ↦ rw longer (h, k)
  ]

  insert-Descending : (x : A × ℕ) (xs : List (A × ℕ)) → Descending xs → Descending (insert x xs)
  unfolding insert Descending
  insert-Descending x [] h = (tt, tt)
  insert-Descending x (y ∷ ys) h = elim (Bool-cases (ltb x.1 y.1)) [
    | inl shorter ↦
        rw shorter (insert-All y.1 x ys (ground (arith, shorter)) h.0, insert-Descending x ys h.1)
    | inr longer ↦
        let above : y.1 ≤ x.1 = ground (arith, longer) in
        rw longer (
          (
            above,
            All-map (λ z. z.1 ≤ y.1) (λ z. z.1 ≤ x.1) (λ z le. ground (arith, le, above)) ys h.0,
          ),
          h,
        )
  ]

  sort-Descending : (xs : List (A × ℕ)) → Descending (sort_longest_first xs)
  unfolding sort_longest_first Descending
  sort-Descending [] = tt
  sort-Descending (x ∷ xs) = insert-Descending x (sort_longest_first xs) (sort-Descending xs)

  insert-Perm : (x : A × ℕ) (xs : List (A × ℕ)) → Perm (insert x xs) (x ∷ xs)
  unfolding insert
  insert-Perm x [] = Perm.refl (x ∷ [])
  insert-Perm x (y ∷ ys) = elim (Bool-cases (ltb x.1 y.1)) [
    | inl shorter ↦ rw shorter (Perm.trans (Perm.cons y (insert-Perm x ys)) (Perm.swap x y ys))
    | inr longer ↦ rw longer (Perm.refl (x ∷ y ∷ ys))
  ]

  sort-Perm : (xs : List (A × ℕ)) → Perm (sort_longest_first xs) xs
  unfolding sort_longest_first
  sort-Perm [] = Perm.refl []
  sort-Perm (x ∷ xs) =
      Perm.trans (insert-Perm x (sort_longest_first xs)) (Perm.cons x (sort-Perm xs))

module _ {ℓ} {A : Type ℓ} (budget_remaining : ℕ) where
  -- Each span is cut when it and what comes after it are over the budget.
  pub Needed : List (A × ℕ) → List (A × ℕ) → Type 0
  Needed [] kept = Unit {0}
  Needed (x ∷ cut) kept =
      (budget_remaining < sum (map (λ y. y.1) (x ∷ (cut ++ kept)))) × Needed cut kept

  -- A division of the sorted spans into the first ones, which are cut, and the others.
  pub record Cut (sorted : List (A × ℕ)) (ids : List A) : Type ℓ where
    pub cut : List (A × ℕ)
    pub kept : List (A × ℕ)
    pub divided : sorted ≡ cut ++ kept
    pub cut_ids : ids ≡ map (λ x. x.0) cut
    pub fits : sum (map (λ x. x.1) kept) ≤ budget_remaining
    pub needed : Needed cut kept

  cut_while_over-Cut : (xs : List (A × ℕ)) → Cut xs (cut_while_over budget_remaining (total xs) xs)
  unfolding total cut_while_over sum Needed
  cut_while_over-Cut [] = record {
    cut = [];
    kept = [];
    divided = refl;
    cut_ids = refl;
    fits = ground arith;
    needed = tt;
  }
  cut_while_over-Cut (x ∷ xs) = elim (Bool-cases (leb (x.1 + total xs) budget_remaining)) [
    | inl fits ↦ rw fits (record {
      cut = [];
      kept = x ∷ xs;
      divided = refl;
      cut_ids = refl;
      fits = ground (arith, fits, total-sum xs);
      needed = tt;
    })
    | inr over ↦
        let c = cut_while_over-Cut xs in
        rw (over, subtract_first x.1 (total xs))
          (record {
            cut = x ∷ c.cut;
            kept = c.kept;
            divided = ap (λ l. x ∷ l) c.divided;
            cut_ids = ap (λ l. x.0 ∷ l) c.cut_ids;
            fits = c.fits;
            needed = (
              subst (λ l. budget_remaining < x.1 + sum (map (λ y. y.1) l)) c.divided
                  (ground (arith, over, total-sum xs)),
              c.needed,
            );
          })
  ]

  -- There is an order of the spans in which none is longer than one before it, so that the first of them
  -- are the ones cut and the others together fit the budget; and a span is cut only when it and what
  -- comes after it do not fit.
  pub truncate_longest_first-total :
      (spans : List (A × ℕ))
      → (sorted : List (A × ℕ)) × Perm sorted spans
        × Descending sorted
        × Cut sorted (truncate_longest_first spans budget_remaining)
  unfolding truncate_longest_first
  truncate_longest_first-total spans = (
    sort_longest_first spans,
    sort-Perm spans,
    sort-Descending spans,
    subst
        (λ n.
          Cut (sort_longest_first spans)
            (cut_while_over budget_remaining n (sort_longest_first spans)))
        (total-sort spans) (cut_while_over-Cut (sort_longest_first spans)),
  )
