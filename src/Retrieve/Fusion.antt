-- ===== src/Retrieve/Fusion.antt =====
-- app/retrieve/fusion.py: reciprocal rank fusion. The float scores are a parameter: their zero,
-- sum, the contribution weight / (k + rank) and the order.
use nbfc_compliance_agent.Prelude.{
  ℕ, ◌+◌, ltb, String, Bool, true, false, ◌&&◌, ◌||◌, not, none, List, [], ◌∷◌, All, str_eq,
  Bool-cases, inl, inr, if◌then◌else◌,
}
use nbfc_compliance_agent.Domain.Enums.{RetrievalSource, pinned, vector, lexical, reference_hop}
use nbfc_compliance_agent.Domain.Clauses.{ClauseCandidate}

pub record Scores : Type 1 where
  pub Score : Type 0
  pub zero_score : Score
  pub plus : Score → Score → Score
  pub contribution : RetrievalSource → ℕ → Score
  pub below : Score → Score → Bool
  pub path_below : String → String → Bool

-- _SOURCE_ORDER
unfoldable pub source_order : RetrievalSource → ℕ
source_order pinned = 0
source_order vector = 1
source_order lexical = 2
source_order reference_hop = 3

module _ (scores : Scores) where
  open scores use {Score, zero_score, plus, contribution, below, path_below}

  -- What the three dictionaries hold of a path, in the order of the first insertion.
  pub record Entry : Type 0 where
    pub path : String
    pub score : Score
    pub best_candidate : ClauseCandidate
    pub best_source : RetrievalSource

  improve : RetrievalSource → ClauseCandidate → Entry → Entry
  improve source c e =
      let score = plus e.score (contribution source c.rank) in
      if ltb (source_order source) (source_order e.best_source)
      then record { path = e.path; score = score; best_candidate = c; best_source = source }
      else record {
        path = e.path;
        score = score;
        best_candidate = e.best_candidate;
        best_source = e.best_source;
      }

  -- The body of the inner loop.
  unfoldable pub add : RetrievalSource → ClauseCandidate → List Entry → List Entry
  unfolding improve
  add source c [] =
      record {
        path = c.clause_path;
        score = plus zero_score (contribution source c.rank);
        best_candidate = c;
        best_source = source;
      }
      ∷ []
  add source c (e ∷ es) =
      if str_eq e.path c.clause_path then improve source c e ∷ es else e ∷ add source c es

  unfoldable pub add_all : RetrievalSource → List ClauseCandidate → List Entry → List Entry
  add_all source [] es = es
  add_all source (c ∷ cs) es = add_all source cs (add source c es)

  unfoldable pub add_lists : List (RetrievalSource × List ClauseCandidate) → List Entry → List Entry
  add_lists [] es = es
  add_lists ((source, cs) ∷ lists) es = add_lists lists (add_all source cs es)

  -- `sort_key(a) < sort_key(b)`: a higher score, then the source's order, then the path.
  unfoldable pub before : Entry → Entry → Bool
  before a b =
      below b.score a.score
      || (not (below a.score b.score)
          && (ltb (source_order a.best_source) (source_order b.best_source)
              || (not (ltb (source_order b.best_source) (source_order a.best_source))
                  && path_below a.path b.path)))

  insert : Entry → List Entry → List Entry
  insert e [] = e ∷ []
  insert e (x ∷ xs) = if before x e then x ∷ insert e xs else e ∷ x ∷ xs

  -- `sorted(…, key=sort_key)`
  unfoldable pub sort : List Entry → List Entry
  unfolding insert
  sort [] = []
  sort (e ∷ es) = insert e (sort es)

  -- `enumerate(ordered_paths, start=rank)`; the new candidate has no exclusion and no note.
  unfoldable pub number : ℕ → List Entry → List ClauseCandidate
  number rank [] = []
  number rank (e ∷ es) =
      record e.best_candidate { rank = rank; exclusion_reason = none; context_note = none }
      ∷ number (rank + 1) es

  unfoldable pub rrf : List (RetrievalSource × List ClauseCandidate) → List ClauseCandidate
  rrf lists = number 1 (sort (add_lists lists []))

  -- A property that only looks at the clause holds of what is fused if it holds of what is given.
  module _ (P : ClauseCandidate → Type 0)
      (stable : (c : ClauseCandidate) (n : ℕ)
        → P c
        → P (record c { rank = n; exclusion_reason = none; context_note = none })) where
    abbrev Best : Entry → Type 0
    Best e = P e.best_candidate

    add-All :
        (source : RetrievalSource) (c : ClauseCandidate) (es : List Entry)
        → P c
        → All Best es
        → All Best (add source c es)
    unfolding add
    add-All source c [] p h = (p, tt)
    add-All source c (e ∷ es) p h = elim (Bool-cases (str_eq e.path c.clause_path)) [
      | inl same ↦ rw same (pick (ltb (source_order source) (source_order e.best_source)), h.1)
      | inr other ↦ rw other (h.0, add-All source c es p h.1)
    ]
      where
        pick :
            (b : Bool)
            → Best (
                if b
                then record {
                  path = e.path;
                  score = plus e.score (contribution source c.rank);
                  best_candidate = c;
                  best_source = source;
                }
                else record {
                  path = e.path;
                  score = plus e.score (contribution source c.rank);
                  best_candidate = e.best_candidate;
                  best_source = e.best_source;
                })
        pick true = p
        pick false = h.0

    add_all-All :
        (source : RetrievalSource) (cs : List ClauseCandidate) (es : List Entry)
        → All P cs
        → All Best es
        → All Best (add_all source cs es)
    unfolding add_all
    add_all-All source [] es p h = h
    add_all-All source (c ∷ cs) es p h =
        add_all-All source cs (add source c es) p.1 (add-All source c es p.0 h)

    add_lists-All :
        (lists : List (RetrievalSource × List ClauseCandidate)) (es : List Entry)
        → All (λ l. All P l.1) lists
        → All Best es
        → All Best (add_lists lists es)
    unfolding add_lists
    add_lists-All [] es p h = h
    add_lists-All ((source, cs) ∷ lists) es p h =
        add_lists-All lists (add_all source cs es) p.1 (add_all-All source cs es p.0 h)

    insert-All : (e : Entry) (es : List Entry) → Best e → All Best es → All Best (insert e es)
    unfolding insert
    insert-All e [] p h = (p, tt)
    insert-All e (x ∷ xs) p h = elim (Bool-cases (before x e)) [
      | inl b ↦ rw b (h.0, insert-All e xs p h.1)
      | inr b ↦ rw b (p, h)
    ]

    sort-All : (es : List Entry) → All Best es → All Best (sort es)
    unfolding sort
    sort-All [] h = tt
    sort-All (e ∷ es) h = insert-All e (sort es) h.0 (sort-All es h.1)

    number-All : (n : ℕ) (es : List Entry) → All Best es → All P (number n es)
    unfolding number
    number-All n [] h = tt
    number-All n (e ∷ es) h = (stable e.best_candidate n h.0, number-All (n + 1) es h.1)

    pub rrf-All :
        (lists : List (RetrievalSource × List ClauseCandidate))
        → All (λ l. All P l.1) lists
        → All P (rrf lists)
    unfolding rrf
    rrf-All lists h = number-All 1 _ (sort-All _ (add_lists-All lists [] h tt))
