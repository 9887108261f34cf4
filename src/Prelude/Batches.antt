-- ===== src/Prelude/Batches.antt =====
-- `[xs[i : i + size] for i in range(0, len(xs), size)]`, for a size above zero.
use Prim.Native.Nat.{ℕ, zero, suc, ◌+◌, ◌-◌, ◌≤◌, ◌<◌}
use mathlib.Core.Path.{◌≡◌, refl, ap, ◌∙◌}
use mathlib.Core.List.{List, [], ◌∷◌, ◌++◌}
use native.Mathlib.Omega.{arith}
use nbfc_compliance_agent.Prelude.Lists.{length, length-append, All}

module _ {ℓ} {A : Type ℓ} where
  -- The loop, with the batch that is open and the room left in it.
  unfoldable pub fill : ℕ → ℕ → List A → List A → List (List A)
  fill size room [] [] = []
  fill size room (b ∷ batch) [] = (b ∷ batch) ∷ []
  fill size (suc room) batch (x ∷ xs) = fill size room (batch ++ (x ∷ [])) xs
  fill size zero batch (x ∷ xs) = batch ∷ fill size (size - 1) (x ∷ []) xs

  unfoldable pub batches : ℕ → List A → List (List A)
  unfolding fill
  batches size xs = fill size size [] xs

  unfoldable pub flatten : List (List A) → List A
  flatten [] = []
  flatten (b ∷ bs) = b ++ flatten bs

  pub append-nil : (xs : List A) → xs ++ [] ≡ xs
  append-nil [] = refl
  append-nil (x ∷ xs) = ap (λ l. x ∷ l) (append-nil xs)

  pub append-append : (xs ys zs : List A) → (xs ++ ys) ++ zs ≡ xs ++ (ys ++ zs)
  append-append [] ys zs = refl
  append-append (x ∷ xs) ys zs = ap (λ l. x ∷ l) (append-append xs ys zs)

  flatten-fill :
      (size room : ℕ) (batch xs : List A) → flatten (fill size room batch xs) ≡ batch ++ xs
  unfolding fill flatten
  flatten-fill size room [] [] = refl
  flatten-fill size room (b ∷ batch) [] = refl
  flatten-fill size (suc room) batch (x ∷ xs) =
      flatten-fill size room (batch ++ (x ∷ [])) xs ∙ append-append batch (x ∷ []) xs
  flatten-fill size zero batch (x ∷ xs) =
      ap (λ l. batch ++ l) (flatten-fill size (size - 1) (x ∷ []) xs)

  -- The batches one after the other are the list.
  pub flatten-batches : (size : ℕ) (xs : List A) → flatten (batches size xs) ≡ xs
  unfolding batches
  flatten-batches size xs = flatten-fill size size [] xs

  fill-bounded :
      (size room : ℕ) (batch xs : List A)
      → 0 < size
      → length batch + room ≡ size
      → All (λ b. length b ≤ size) (fill size room batch xs)
  unfolding fill
  fill-bounded size room [] [] positive e = tt
  fill-bounded size room (b ∷ batch) [] positive e = (omega (arith, e), tt)
  fill-bounded size (suc room) batch (x ∷ xs) positive e =
      fill-bounded size room (batch ++ (x ∷ [])) xs positive
        (ground (arith, e, length-append batch (x ∷ [])))
  fill-bounded size zero batch (x ∷ xs) positive e = (
    omega (arith, e),
    fill-bounded size (size - 1) (x ∷ []) xs positive (omega (arith, positive)),
  )

  -- No batch is longer than the size.
  pub batches-bounded :
      (size : ℕ) (xs : List A) → 0 < size → All (λ b. length b ≤ size) (batches size xs)
  unfolding batches
  batches-bounded size xs positive = fill-bounded size size [] xs positive (omega arith)
