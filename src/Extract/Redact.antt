-- ===== src/Extract/Redact.antt =====
-- app/extract/redact.py: the patterns of personal data, in the order in which they are replaced.
use nbfc_compliance_agent.Prelude.{
  ℕ, ◌==◌, leb, String, Bool, not, ◌&&◌, ◌||◌, List, [], ◌∷◌, ◌++◌, is_none, if◌then◌else◌,
}
use nbfc_compliance_agent.Prelude.Regex.{
  Chars, Characters, Matcher, one, ◌then◌, maybe, times, between, some_of, literal, word_boundary,
  search_re, sub_re,
}
use nbfc_compliance_agent.Prelude.Chars.{codes, is_space}

module _ (chars : Characters) where
  digit : Matcher
  digit = one chars.is_decimal

  digit_between : ℕ → ℕ → Matcher
  digit_between low high = one (λ c. leb low c && leb c high)

  capital : Matcher
  capital = one (λ c. leb 65 c && leb c 90)

  bound : Matcher
  bound = word_boundary chars

  space : Matcher
  space = one is_space

  -- PATTERNS
  unfoldable pub patterns : List (String × Matcher)
  unfolding digit digit_between capital bound space
  patterns =
      (
        "AADHAAR",
        bound
            then digit_between 50 57
            then times 3 digit
            then maybe space
            then times 4 digit
            then maybe space
            then times 4 digit
            then bound,
      )
      ∷ ("PAN", bound then times 5 capital then times 4 digit then capital then bound)
      ∷ (
        "PHONE",
        maybe (literal (codes "+91") then maybe (one (λ c. is_space c || c == b'-')))
            then bound
            then digit_between 54 57
            then times 9 digit
            then bound,
      )
      ∷ ("ACCOUNT", bound then between 9 18 digit then bound)
      ∷ (
        "IFSC",
        bound
            then times 4 capital
            then literal (codes "0")
            then times 6 (one (λ c. (leb 65 c && leb c 90) || (leb 48 c && leb c 57)))
            then bound,
      )
      ∷ (
        "EMAIL",
        bound
            then some_of (one (λ c. chars.is_word c || (c == b'.' || (c == b'+' || c == b'-'))))
            then literal (codes "@")
            then some_of (one (λ c. chars.is_word c || c == b'-'))
            then literal (codes ".")
            then some_of (one (λ c. chars.is_word c || (c == b'.' || c == b'-')))
            then bound,
      )
      ∷ (
        "GST",
        bound
            then times 2 digit
            then times 5 capital
            then times 4 digit
            then capital
            then digit
            then times 2 (one (λ c. (leb 65 c && leb c 90) || chars.is_decimal c))
            then bound,
      )
      ∷ []

  -- The loop over the patterns.
  unfoldable pub apply_patterns : List (String × Matcher) → Chars → Chars × List String
  unfolding is_none
  apply_patterns [] result = (result, [])
  apply_patterns ((tag, pattern) ∷ rest) result =
      let found = not (is_none (search_re pattern result)) in
      let after =
        if found
        then sub_re pattern (codes "[REDACTED:" ++ codes tag ++ codes "]") result
        else result in
      let (redacted, tags_applied) = apply_patterns rest after in
      (redacted, if found then tag ∷ tags_applied else tags_applied)

  unfoldable pub redact : Chars → Bool → Chars × List String
  redact text exempt = if exempt then (text, []) else apply_patterns patterns text
