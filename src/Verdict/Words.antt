-- ===== src/Verdict/Words.antt =====
-- The literal-substring test of app/verdict/validator.py against the words of the two texts.
use nbfc_compliance_agent.Prelude.{
  ℕ, ◌==◌, String, ◌≡◌, ◌↔◌, refl, sym, inl, inr, Bool, true, false, not, Bool-cases, List, [], ◌∷◌,
  All, any, arith, if◌then◌else◌,
}
use nbfc_compliance_agent.Prelude.Chars.{codes, is_space, is_nil, strip_start, strip_end, join}
use nbfc_compliance_agent.Verdict.Quotes.{
  squeeze, normalise_ws, is_literal_substring, Occurs, is_literal_substring_exact,
}

-- The code points that are white space to Python.
pub white_space : List ℕ
white_space =
    9 ∷ 10 ∷ 11 ∷ 12 ∷ 13 ∷ 28 ∷ 29 ∷ 30 ∷ 31 ∷ 32 ∷ 133 ∷ 160 ∷ 5760 ∷ 8192 ∷ 8193 ∷ 8194 ∷ 8195
    ∷ 8196 ∷ 8197 ∷ 8198 ∷ 8199 ∷ 8200 ∷ 8201 ∷ 8202 ∷ 8232 ∷ 8233 ∷ 8239 ∷ 8287 ∷ 12288 ∷ []

pub is_white : ℕ → Bool
is_white c = any (λ w. w == c) white_space

is_space-is_white : (c : ℕ) → is_space c ≡ is_white c
unfolding is_space is_white white_space any
is_space-is_white c = ground arith

-- The text starts with a word.
pub begins_word : List ℕ → Bool
begins_word [] = false
begins_word (c ∷ cs) = not (is_white c)

-- The word that a character starts, with the words after it.
pub lengthen : ℕ → List (List ℕ) → List (List ℕ)
lengthen c [] = (c ∷ []) ∷ []
lengthen c (w ∷ ws) = (c ∷ w) ∷ ws

-- The words of a text: its longest runs of characters that are no white space.
pub words_of : List ℕ → List (List ℕ)
words_of [] = []
words_of (c ∷ cs) =
    let ws = words_of cs in
    if is_white c then ws else if begins_word cs then lengthen c ws else (c ∷ []) ∷ ws

-- The words of a text with one space between them.
pub spaced : List ℕ → List ℕ
spaced s = join (32 ∷ []) (words_of s)

words_of-nonempty : (s : List ℕ) → All (λ w. is_nil w ≡ false) (words_of s)
unfolding words_of is_nil lengthen
words_of-nonempty [] = tt
words_of-nonempty (c ∷ cs) = elim (Bool-cases (is_white c)) [
  | inl white ↦ rw white (words_of-nonempty cs)
  | inr black ↦ elim (Bool-cases (begins_word cs)) [
    | inl more ↦ rw (black, more) (go (words_of cs) (words_of-nonempty cs))
    | inr last ↦ rw (black, last) (refl, words_of-nonempty cs)
  ]
]
  where
    go :
        (ws : List (List ℕ))
        → All (λ w. is_nil w ≡ false) ws
        → All (λ w. is_nil w ≡ false) (lengthen c ws)
    go [] h = (refl, tt)
    go (w ∷ ws) h = (refl, h.1)

-- What stands in place of white space that the text may start with.
separated : List ℕ → List ℕ
separated s = if begins_word s then spaced s else if is_nil (spaced s) then [] else 32 ∷ spaced s

join-lengthen :
    (c : ℕ) (w : List ℕ) (ws : List (List ℕ))
    → join (32 ∷ []) (lengthen c (w ∷ ws)) ≡ c ∷ join (32 ∷ []) (w ∷ ws)
unfolding join lengthen
join-lengthen c w [] = refl
join-lengthen c w (v ∷ ws) = refl

lengthen-cons :
    (c : ℕ) (ws : List (List ℕ)) → (v : List ℕ) × (vs : List (List ℕ)) × (lengthen c ws ≡ v ∷ vs)
unfolding lengthen
lengthen-cons c [] = (c ∷ [], [], refl)
lengthen-cons c (w ∷ ws) = (c ∷ w, ws, refl)

begins_word-cons :
    (s : List ℕ)
    → begins_word s ≡ true
    → (w : List ℕ) × (ws : List (List ℕ)) × (words_of s ≡ w ∷ ws)
unfolding begins_word words_of
begins_word-cons [] h = absurd (ground (arith, h))
begins_word-cons (c ∷ cs) h =
    let black : is_white c ≡ false = ground (arith, h) in
    elim (Bool-cases (begins_word cs)) [
      | inl more ↦ rw (black, more) (lengthen-cons c (words_of cs))
      | inr last ↦ rw (black, last) (c ∷ [], words_of cs, refl)
    ]

join-nonempty :
    (w : List ℕ) (ws : List (List ℕ)) → is_nil w ≡ false → is_nil (join (32 ∷ []) (w ∷ ws)) ≡ false
unfolding join is_nil
join-nonempty [] ws h = absurd (ground (arith, h))
join-nonempty (c ∷ w) [] h = refl
join-nonempty (c ∷ w) (v ∷ ws) h = refl

spaced-white : (c : ℕ) (cs : List ℕ) → is_white c ≡ true → spaced (c ∷ cs) ≡ spaced cs
unfolding spaced words_of
spaced-white c cs white = rw white refl

spaced-black : (c : ℕ) (cs : List ℕ) → is_white c ≡ false → spaced (c ∷ cs) ≡ c ∷ separated cs
unfolding spaced separated words_of join is_nil
spaced-black c cs black = elim (Bool-cases (begins_word cs)) [
  | inl more ↦
      let (w, ws, e) = begins_word-cons cs more in rw (black, more) (rw e (join-lengthen c w ws))
  | inr last ↦ rw (black, last) (go (words_of cs) (words_of-nonempty cs))
]
  where
    go :
        (ws : List (List ℕ))
        → All (λ w. is_nil w ≡ false) ws
        → join (32 ∷ []) ((c ∷ []) ∷ ws)
          ≡ c ∷ (if is_nil (join (32 ∷ []) ws) then [] else 32 ∷ join (32 ∷ []) ws)
    go [] h = refl
    go (w ∷ ws) h = rw (join-nonempty w ws h.0) refl

strip_start-squeeze :
    (s : List ℕ)
    → (strip_start (squeeze true s) ≡ squeeze true s)
      × (strip_start (squeeze false s) ≡ squeeze true s)
unfolding squeeze strip_start is_white any white_space
strip_start-squeeze [] = (refl, refl)
strip_start-squeeze (c ∷ cs) = elim (Bool-cases (is_space c)) [
  | inl white ↦
      let (kept, dropped) = strip_start-squeeze cs in
      rw white (kept, rw (is_space-is_white 32) kept)
  | inr black ↦ rw black (rw black refl, rw black refl)
]

space_is_white : is_white 32 ≡ true
unfolding is_white white_space any
space_is_white = refl

nil-spaced : [] ≡ spaced []
unfolding spaced words_of join
nil-spaced = refl

nil-separated : [] ≡ separated []
unfolding separated spaced words_of join begins_word is_nil
nil-separated = refl

separated-white :
    (c : ℕ) (cs : List ℕ)
    → is_white c ≡ true
    → separated (c ∷ cs) ≡ (if is_nil (spaced cs) then [] else 32 ∷ spaced cs)
unfolding separated begins_word
separated-white c cs white = rw (white, spaced-white c cs white) refl

separated-black : (c : ℕ) (cs : List ℕ) → is_white c ≡ false → separated (c ∷ cs) ≡ c ∷ separated cs
unfolding separated begins_word
separated-black c cs black = rw (black, spaced-black c cs black) refl

squeeze-spaced :
    (s : List ℕ)
    → (strip_end (squeeze true s) ≡ spaced s) × (strip_end (squeeze false s) ≡ separated s)
unfolding squeeze strip_end
squeeze-spaced [] = (nil-spaced, nil-separated)
squeeze-spaced (c ∷ cs) =
    let (started, open_) = squeeze-spaced cs in
    elim (Bool-cases (is_white c)) [
      | inl white ↦
          rw (is_space-is_white c, white, spaced-white c cs white, separated-white c cs white)
            (started, rw (is_space-is_white 32, started, space_is_white) refl)
      | inr black ↦
          rw (is_space-is_white c, black, spaced-black c cs black, separated-black c cs black)
            (
              rw (is_space-is_white c, black, open_) refl,
              rw (is_space-is_white c, black, open_) refl,
            )
    ]

normalise_ws-spaced : (s : List ℕ) → normalise_ws s ≡ spaced s
unfolding normalise_ws
normalise_ws-spaced s = rw (strip_start-squeeze s).1 (squeeze-spaced s).0

-- The test succeeds exactly when the excerpt is not empty and the words of the excerpt, with one space
-- between each two, stand literally in the words of the clause's text, written in the same way. A word is
-- a longest run of characters that are none of the 29 white-space characters listed.
pub is_literal_substring_words :
    (excerpt clause_text : String)
    → (is_literal_substring excerpt clause_text ≡ true) ↔ (
        (is_nil (codes excerpt) ≡ false)
        × Occurs (spaced (codes excerpt)) (spaced (codes clause_text)))
is_literal_substring_words excerpt clause_text =
    rw (sym (normalise_ws-spaced (codes excerpt)), sym (normalise_ws-spaced (codes clause_text)))
      (is_literal_substring_exact excerpt clause_text)
