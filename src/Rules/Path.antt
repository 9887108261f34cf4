-- ===== src/Rules/Path.antt =====
-- Clause paths: CANONICAL_PATH_RE of app/rules/registry.py, and the instrument code of a path.
use Prim.Native.Char.{code}
use nbfc_compliance_agent.Prelude.Chars.{codes}
use nbfc_compliance_agent.Prelude.{
  ℕ, ◌==◌, leb, String, Bool, true, false, not, ◌&&◌, ◌||◌, List, [], ◌∷◌, any, all, if◌then◌else◌,
}

-- `text.split("/")` on code points: the first segment and the others.
unfoldable pub segments : List ℕ → List ℕ × List (List ℕ)
segments [] = ([], [])
segments (c ∷ cs) =
    let (s, rest) = segments cs in if c == b'/' then ([], s ∷ rest) else (c ∷ s, rest)

is_digit : ℕ → Bool
is_digit c = leb b'0' c && leb c b'9'

is_letter : ℕ → Bool
is_letter c = (leb b'A' c && leb c b'Z') || (leb b'a' c && leb c b'z')

is_code_char : ℕ → Bool
is_code_char c = is_letter c || (is_digit c || c == b'-')

-- `$` also matches before a newline at the very end.
at_end : List ℕ → Bool
at_end [] = true
at_end (c ∷ []) = c == 10
at_end _ = false

-- `[0-9]*[A-Za-z]?$`
digits_then_letter : List ℕ → Bool
digits_then_letter [] = true
digits_then_letter (c ∷ cs) =
    let rest = digits_then_letter cs in
    if is_digit c then rest else (is_letter c && at_end cs) || at_end (c ∷ cs)

-- `p[0-9]+[A-Za-z]?$`
is_para : List ℕ → Bool
is_para (p ∷ d ∷ cs) = p == b'p' && (is_digit d && digits_then_letter cs)
is_para _ = false

-- `annex[A-Za-z]$`
is_annex : List ℕ → Bool
is_annex (a ∷ n ∷ m ∷ e ∷ x ∷ l ∷ cs) =
    a == b'a'
    && (n == b'n' && (m == b'n' && (e == b'e' && (x == b'x' && (is_letter l && at_end cs)))))
is_annex _ = false

-- The same without the end: more segments follow.
has_newline : List ℕ → Bool
has_newline = any (λ c. c == 10)

non_empty : List ℕ → Bool
non_empty [] = false
non_empty (c ∷ cs) = true

canonical : List ℕ → List (List ℕ) → Bool
canonical code (second ∷ []) =
    (non_empty code && all is_code_char code) && (is_para second || is_annex second)
canonical code (second ∷ third ∷ []) =
    (non_empty code && all is_code_char code)
    && ((is_para second || is_annex second) && (not (has_newline second) && non_empty third))
canonical code (second ∷ third ∷ fourth ∷ []) =
    (non_empty code && all is_code_char code)
    && ((is_para second || is_annex second)
        && (not (has_newline second) && (non_empty third && non_empty fourth)))
canonical code rest = false

-- `CANONICAL_PATH_RE.match(path)`:
-- `^[A-Za-z0-9-]+/(p[0-9]+[A-Za-z]?|annex[A-Za-z])(/[^/]+){0,2}$`
unfoldable pub canonical_path : String → Bool
unfolding segments canonical codes is_para is_annex digits_then_letter at_end is_code_char is_letter
    is_digit non_empty has_newline any all
canonical_path path = let (code, rest) = segments (codes path) in canonical code rest

-- `path.split("/", 1)[0]`
unfoldable pub instrument_of : String → String
instrument_of String.[] = String.[]
instrument_of (String.◌∷◌ c s) =
    if code c == b'/' then String.[] else String.◌∷◌ c (instrument_of s)
