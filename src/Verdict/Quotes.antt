-- ===== src/Verdict/Quotes.antt =====
-- app/verdict/validator.py: the literal-substring test on texts given by their code points.
use nbfc_compliance_agent.Prelude.{
  ℕ, String, ◌≡◌, refl, Bool, true, false, List, [], ◌∷◌, ◌++◌, arith, inl, inr, ◌↔◌, Bool-cases,
  if◌then◌else◌,
}
use nbfc_compliance_agent.Prelude.Chars.{
  codes, is_space, is_nil, strip_start, strip_end, starts_with, contains,
}

-- `_WS_RE.sub(" ", s)`: each run of white space becomes one space. The flag says that the character
-- before was white space.
unfoldable pub squeeze : Bool → List ℕ → List ℕ
squeeze before [] = []
squeeze before (c ∷ cs) =
    let space = is_space c in
    let rest = squeeze space cs in if space then (if before then rest else 32 ∷ rest) else c ∷ rest

unfoldable pub normalise_ws : List ℕ → List ℕ
unfolding squeeze strip_start strip_end is_nil is_space
normalise_ws s = strip_end (strip_start (squeeze false s))

unfoldable pub is_literal_substring : String → String → Bool
unfolding is_nil normalise_ws contains codes
is_literal_substring excerpt clause_text =
    if is_nil (codes excerpt)
    then false
    else contains (normalise_ws (codes excerpt)) (normalise_ws (codes clause_text))

-- The needle stands in the text.
pub record Occurs (needle s : List ℕ) : Type 0 where
  pub before : List ℕ
  pub after : List ℕ
  pub split : s ≡ before ++ (needle ++ after)

starts_with-split :
    (needle s : List ℕ) → starts_with needle s ≡ true → (after : List ℕ) × (s ≡ needle ++ after)
unfolding starts_with
starts_with-split [] s h = (s, refl)
starts_with-split (c ∷ cs) [] h = absurd (ground arith)
starts_with-split (c ∷ cs) (d ∷ ds) h =
    let (after, e) = starts_with-split cs ds (ground arith) in (after, ground (arith, e))

starts_with-append : (needle after : List ℕ) → starts_with needle (needle ++ after) ≡ true
unfolding starts_with
starts_with-append [] after = refl
starts_with-append (c ∷ cs) after = ground (arith, starts_with-append cs after)

pub contains-Occurs : (needle s : List ℕ) → contains needle s ≡ true → Occurs needle s
unfolding contains
contains-Occurs needle [] h =
    let (after, e) = starts_with-split needle [] h in
    record { before = []; after = after; split = e }
contains-Occurs needle (c ∷ cs) h = elim (Bool-cases (starts_with needle (c ∷ cs))) [
  | inl found ↦
      let (after, e) = starts_with-split needle (c ∷ cs) found in
      record { before = []; after = after; split = e }
  | inr other ↦
      let o : Occurs needle cs = contains-Occurs needle cs (rw other at h) in
      record { before = c ∷ o.before; after = o.after; split = ground (arith, o.split) }
]

contains-append :
    (before needle after : List ℕ) → contains needle (before ++ (needle ++ after)) ≡ true
unfolding contains
contains-append [] [] [] = refl
contains-append [] [] (c ∷ cs) = refl
contains-append [] (d ∷ ds) after = rw (starts_with-append (d ∷ ds) after)
contains-append (c ∷ cs) needle after = ground (arith, contains-append cs needle after)

pub Occurs-contains : (needle s : List ℕ) → Occurs needle s → contains needle s ≡ true
Occurs-contains needle s o = rw o.split (contains-append o.before needle o.after)

-- The test succeeds exactly when the excerpt is not empty and, after white space is normalised on
-- both sides, stands in the clause's text literally.
pub is_literal_substring_exact :
    (excerpt clause_text : String)
    → (is_literal_substring excerpt clause_text ≡ true) ↔ (
        (is_nil (codes excerpt) ≡ false)
        × Occurs (normalise_ws (codes excerpt)) (normalise_ws (codes clause_text)))
unfolding is_literal_substring
is_literal_substring_exact excerpt clause_text =
    (λ h. (ground arith, contains-Occurs _ _ (ground arith)), λ p. rw p.0 (Occurs-contains _ _ p.1))
