-- ===== src/Prelude/Regex.antt =====
-- Python's `re` on texts given by their code points, as backtracking matchers: a matcher gets what is
-- left of the text and what follows it in the pattern, and takes the first way on which that succeeds.
use Prim.Native.Nat.{ℕ, zero, suc, ◌+◌, ◌-◌}
use mathlib.Core.Bool.{Bool, true, false, not, ◌&&◌, ◌||◌}
use mathlib.Core.Option.{Option, none, some}
use mathlib.Core.List.{List, [], ◌∷◌, ◌++◌}
use nbfc_compliance_agent.Prelude.Tests.{ltb, leb, ◌==◌, if◌then◌else◌}
use nbfc_compliance_agent.Prelude.Lists.{length}

abbrev pub Chars : Type 0
Chars = List ℕ

-- What `re`, `str.isdigit`, `int` and `str.lower` take from the character database, and the numeral
-- that `str` makes of a number.
pub record Characters : Type 0 where
  pub is_decimal : ℕ → Bool
  pub is_digit : ℕ → Bool
  pub digit_value : ℕ → ℕ
  pub is_word : ℕ → Bool
  pub lower : Chars → Chars
  pub decimal : ℕ → Chars

-- The position in the text, with the character before it, and the groups so far.
pub record Position : Type 0 where
  pub before : Option ℕ
  pub rest : Chars
  pub groups : List (ℕ × Chars)

abbrev pub Matcher : Type 0
Matcher = Position → (Position → Option Position) → Option Position

abbrev pub orelse : Option Position → Option Position → Option Position
orelse (some p) o = some p
orelse none o = o

unfoldable pub take : ℕ → Chars → Chars
take zero cs = []
take (suc n) [] = []
take (suc n) (c ∷ cs) = c ∷ take n cs

-- One character of a class.
unfoldable pub one : (ℕ → Bool) → Matcher
one class p k = elim p.rest [
  | [] ↦ none
  | c ∷ cs ↦ if class c then k (record p { before = some c; rest = cs }) else none
]

infixr 30 ◌then◌
infixr 25 ◌or◌
unfoldable pub ◌then◌ : Matcher → Matcher → Matcher
(a then b) p k = a p (λ q. b q k)

unfoldable pub ◌or◌ : Matcher → Matcher → Matcher
(a or b) p k = orelse (a p k) (b p k)

unfoldable pub empty : Matcher
empty p k = k p

-- `a?`, `a{0,n}`, `a{m,m+n}`
unfoldable pub maybe : Matcher → Matcher
maybe a p k = orelse (a p k) (k p)

unfoldable pub up_to : ℕ → Matcher → Matcher
up_to zero a p k = k p
up_to (suc n) a p k = orelse (a p (λ q. up_to n a q k)) (k p)

unfoldable pub times : ℕ → Matcher → Matcher
times zero a p k = k p
times (suc n) a p k = a p (λ q. times n a q k)

unfoldable pub between : ℕ → ℕ → Matcher → Matcher
between m n a p k = times m a p (λ q. up_to (n - m) a q k)

-- `a*` and `a+`: a round that takes nothing ends the loop, so the length of the rest bounds the rounds.
unfoldable pub loop : ℕ → Matcher → Matcher
loop zero a p k = k p
loop (suc n) a p k =
    orelse (a p (λ q. if ltb (length q.rest) (length p.rest) then loop n a q k else none)) (k p)

unfoldable pub many : Matcher → Matcher
unfolding loop
many a p k = loop (length p.rest) a p k

unfoldable pub some_of : Matcher → Matcher
some_of a = a then many a

unfoldable pub literal : Chars → Matcher
literal [] p k = k p
literal (c ∷ cs) p k = one (λ d. d == c) p (λ q. literal cs q k)

-- `(…)`, the group with the number.
unfoldable pub group : ℕ → Matcher → Matcher
group n a p k =
    a p (λ q. k (record q { groups = (n, take (length p.rest - length q.rest) p.rest) ∷ q.groups }))

-- `$`: the end, or before a newline at the very end.
unfoldable pub end_of_line : Matcher
end_of_line p k = elim p.rest [
  | [] ↦ k p
  | c ∷ cs ↦ elim cs [ [] ↦ if c == 10 then k p else none | d ∷ ds ↦ none ]
]

-- The end of the text, for `fullmatch`.
unfoldable pub end_of_text : Matcher
end_of_text p k = elim p.rest [ [] ↦ k p | c ∷ cs ↦ none ]

optional_test : (ℕ → Bool) → Option ℕ → Bool
optional_test class none = false
optional_test class (some c) = class c

next : Chars → Option ℕ
next [] = none
next (c ∷ cs) = some c

xor : Bool → Bool → Bool
xor true b = not b
xor false b = b

-- `\b`
unfoldable pub word_boundary : Characters → Matcher
unfolding optional_test next xor
word_boundary chars p k =
    if xor (optional_test chars.is_word p.before) (optional_test chars.is_word (next p.rest))
    then k p
    else none

-- `.`: anything but a newline.
unfoldable pub any_char : Matcher
any_char = one (λ c. not (c == 10))

unfoldable pub start_of : Chars → Position
start_of text = record { before = none; rest = text; groups = [] }

-- `re.match`
unfoldable pub match_re : Matcher → Chars → Option Position
match_re a text = a (start_of text) (λ q. some q)

-- `re.fullmatch`
unfoldable pub fullmatch : Matcher → Chars → Option Position
fullmatch a text = (a then end_of_text) (start_of text) (λ q. some q)

unfoldable pub search_from : Option ℕ → Chars → Matcher → Option Position
search_from before [] a = a (record { before = before; rest = []; groups = [] }) (λ q. some q)
search_from before (c ∷ cs) a =
    let later = search_from (some c) cs a in
    elim (a (record { before = before; rest = c ∷ cs; groups = [] }) (λ q. some q)) [
      | some q ↦ some q
      | none ↦ later
    ]

-- `re.search`
unfoldable pub search_re : Matcher → Chars → Option Position
unfolding search_from
search_re a text = search_from none text a

-- `re.split`, for a pattern without groups: the argument before is the part that is open, and the
-- number says how many characters of the separator are still to be passed over.
split_go : Matcher → ℕ → Chars → Chars → List Chars
split_go a skip part [] = part ∷ []
split_go a (suc k) part (c ∷ cs) = split_go a k part cs
split_go a zero part (c ∷ cs) =
    elim (a (record { before = none; rest = c ∷ cs; groups = [] }) (λ q. some q)) [
      | none ↦ split_go a 0 (part ++ (c ∷ [])) cs
      | some q ↦ part ∷ split_go a (length cs - length q.rest) [] cs
    ]

unfoldable pub split_re : Matcher → Chars → List Chars
unfolding split_go
split_re a text = split_go a 0 [] text

-- `re.sub`, for a pattern that never matches the empty text; the number is as in `split_go`.
sub_go : Matcher → Chars → ℕ → Option ℕ → Chars → Chars
sub_go a new skip before [] = []
sub_go a new (suc k) before (c ∷ cs) = sub_go a new k (some c) cs
sub_go a new zero before (c ∷ cs) =
    elim (a (record { before = before; rest = c ∷ cs; groups = [] }) (λ q. some q)) [
      | none ↦ c ∷ sub_go a new 0 (some c) cs
      | some q ↦ new ++ sub_go a new (length cs - length q.rest) (some c) cs
    ]

unfoldable pub sub_re : Matcher → Chars → Chars → Chars
unfolding sub_go
sub_re a new text = sub_go a new 0 none text

-- `m.group(n)`, empty where the group took no part.
unfoldable pub group_of : ℕ → List (ℕ × Chars) → Option Chars
group_of n [] = none
group_of n ((m, text) ∷ groups) = if m == n then some text else group_of n groups

-- The letters that IGNORECASE takes for each other, by their small ASCII letter.
unfoldable pub fold : ℕ → ℕ
fold c =
    if leb 65 c && leb c 90
    then c + 32
    else if c == 0x130 || c == 0x131
    then 105
    else if c == 0x17f
    then 115
    else if c == 0x212a
    then 107
    else c
