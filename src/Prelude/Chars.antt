-- ===== src/Prelude/Chars.antt =====
-- Python's text methods on texts given by their code points.
use Prim.Native.Char.{code}
use Prim.Native.Nat.{ℕ, ◌+◌}
use Prim.Native.String.{String}
use mathlib.Core.Bool.{Bool, true, false, not, ◌&&◌, ◌||◌}
use mathlib.Core.List.{List, [], ◌∷◌, ◌++◌}
use nbfc_compliance_agent.Prelude.Tests.{leb, ◌==◌, if◌then◌else◌}
use nbfc_compliance_agent.Prelude.Regex.{Chars}

-- The code points of a text.
unfoldable pub codes : String → Chars
codes String.[] = []
codes (String.◌∷◌ c s) = code c ∷ codes s

-- What Python's `\s` and `str.strip` take for white space.
unfoldable pub is_space : ℕ → Bool
is_space c =
    (leb 9 c && leb c 13)
    || ((leb 28 c && leb c 32)
        || (c == 0x85
            || (c == 0xa0
                || (c == 0x1680
                    || ((leb 0x2000 c && leb c 0x200a)
                        || ((leb 0x2028 c && leb c 0x2029)
                            || (c == 0x202f || (c == 0x205f || c == 0x3000))))))))

unfoldable pub is_nil : List ℕ → Bool
is_nil [] = true
is_nil (c ∷ cs) = false

unfoldable pub strip_start : List ℕ → List ℕ
strip_start [] = []
strip_start (c ∷ cs) = let rest = strip_start cs in if is_space c then rest else c ∷ cs

unfoldable pub strip_end : List ℕ → List ℕ
strip_end [] = []
strip_end (c ∷ cs) = let rest = strip_end cs in if is_space c && is_nil rest then [] else c ∷ rest

-- `s.strip()`
unfoldable pub strip : Chars → Chars
unfolding strip_start strip_end
strip s = strip_end (strip_start s)

unfoldable pub starts_with : List ℕ → List ℕ → Bool
starts_with [] s = true
starts_with (c ∷ cs) [] = false
starts_with (c ∷ cs) (d ∷ ds) = c == d && starts_with cs ds

-- `needle in s`
unfoldable pub contains : List ℕ → List ℕ → Bool
unfolding starts_with
contains needle [] = starts_with needle []
contains needle (c ∷ cs) = starts_with needle (c ∷ cs) || contains needle cs

-- `s.endswith(…)` for a suffix of one character in the class.
unfoldable pub ends_in : (ℕ → Bool) → Chars → Bool
ends_in class [] = false
ends_in class (c ∷ cs) = elim cs [ [] ↦ class c | d ∷ ds ↦ ends_in class cs ]

-- The characters at which `splitlines` splits.
unfoldable pub is_break : ℕ → Bool
is_break c =
    (leb 10 c && leb c 13)
    || ((leb 28 c && leb c 30) || (c == 0x85 || (c == 0x2028 || c == 0x2029)))

-- `s.splitlines()` without its empty lines, so that "\r\n" needs no case of its own; the argument
-- before is the line that is open.
unfoldable pub split_from : Chars → Chars → List Chars
split_from [] [] = []
split_from open_ [] = open_ ∷ []
split_from [] (c ∷ cs) = if is_break c then split_from [] cs else split_from (c ∷ []) cs
split_from open_ (c ∷ cs) =
    if is_break c then open_ ∷ split_from [] cs else split_from (open_ ++ (c ∷ [])) cs

unfoldable pub nonempty_lines : Chars → List Chars
unfolding split_from is_break
nonempty_lines text = split_from [] text

-- `s.splitlines()`; the argument before is the line that is open, and the flag says that the
-- character before was a carriage return.
unfoldable pub lines_from : Bool → Chars → Chars → List Chars
lines_from after_cr open_ [] = if is_nil open_ then [] else open_ ∷ []
lines_from after_cr open_ (c ∷ cs) = elim (after_cr && c == 10) [
  | true ↦ lines_from false open_ cs
  | false ↦ elim (is_break c) [
    | true ↦ open_ ∷ lines_from (c == 13) [] cs
    | false ↦ lines_from false (open_ ++ (c ∷ [])) cs
  ]
]

unfoldable pub splitlines : Chars → List Chars
unfolding lines_from is_break is_nil
splitlines text = lines_from false [] text

-- `sep.join(parts)`
unfoldable pub join : Chars → List Chars → Chars
join sep [] = []
join sep (p ∷ parts) = elim parts [ [] ↦ p | q ∷ rest ↦ p ++ (sep ++ join sep parts) ]

-- Equality of two texts.
unfoldable pub same : Chars → Chars → Bool
same [] [] = true
same (c ∷ cs) (d ∷ ds) = c == d && same cs ds
same _ _ = false

-- `s.split()`: how many words the text has. The flag says that a word is open.
words_from : Bool → Chars → ℕ
words_from open_ [] = 0
words_from true (c ∷ cs) = words_from (not (is_space c)) cs
words_from false (c ∷ cs) = if is_space c then words_from false cs else 1 + words_from true cs

unfoldable pub count_words : Chars → ℕ
unfolding words_from is_space
count_words s = words_from false s
