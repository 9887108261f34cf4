-- ===== src/Corpus/Stems.antt =====
-- The chunks (app/corpus/chunk.py) of the nodes that app/corpus/parsers/continuous_para.py returns.
use nbfc_compliance_agent.Prelude.{
  ℕ, zero, suc, ◌≡◌, ◌≢◌, refl, false, ◌++◌, inl, inr, true, Option, none, some, Option-cases, List,
  [], ◌∷◌, All, All-map, ap, arith,
}
use nbfc_compliance_agent.Prelude.Raises.{returned}
use nbfc_compliance_agent.Prelude.Regex.{Chars, Characters}
use nbfc_compliance_agent.Prelude.Chars.{same}
use nbfc_compliance_agent.Corpus.Nodes.{ClauseNode, ParsedInstrument}
use nbfc_compliance_agent.Corpus.Parser.{Dialect, get_elem?}
use nbfc_compliance_agent.Corpus.Parse.{parse}
use nbfc_compliance_agent.Corpus.Tree.{IsParagraph, Rooted}
use nbfc_compliance_agent.Corpus.Instrument.{parse_tree}
use nbfc_compliance_agent.Corpus.Chunk.{same_label, has_key, by_key, parent_of}

same_refl : (s : Chars) → same s s ≡ true
unfolding same
same_refl [] = refl
same_refl (c ∷ cs) = ground (arith, same_refl cs)

same-eq : (s t : Chars) → same s t ≡ true → s ≡ t
unfolding same
same-eq [] [] e = refl
same-eq [] (d ∷ t) e = absurd (ground (arith, e))
same-eq (c ∷ s) [] e = absurd (ground (arith, e))
same-eq (c ∷ s) (d ∷ t) e =
    let head : c ≡ d = ground (arith, e) in
    let tail : same s t ≡ true = ground (arith, e) in ground (arith, head, same-eq s t tail)

by_key-key :
    (para_number : Chars) (level2 level3 : Option Chars) (nodes : List ClauseNode) (q : ClauseNode)
    → by_key para_number level2 level3 nodes ≡ some q
    → has_key para_number level2 level3 q ≡ true
unfolding by_key
by_key-key para_number level2 level3 [] q e = absurd (ground (arith, e))
by_key-key para_number level2 level3 (n ∷ nodes) q e =
    let later = by_key-key para_number level2 level3 nodes in
    elim (Option-cases (by_key para_number level2 level3 nodes)) [
      | inl missing ↦ ground (arith, missing, e)
      | inr (m, found) ↦ later q (ground (arith, found, e))
    ]

by_key-has :
    (para_number : Chars) (level2 level3 : Option Chars) (nodes : List ClauseNode) (i : ℕ)
    (r : ClauseNode)
    → get_elem? nodes i ≡ some r
    → has_key para_number level2 level3 r ≡ true
    → (q : ClauseNode) × (by_key para_number level2 level3 nodes ≡ some q)
      × (has_key para_number level2 level3 q ≡ true)
unfolding by_key get_elem?
by_key-has para_number level2 level3 [] i r at e = absurd (ground (arith, at))
by_key-has para_number level2 level3 (n ∷ nodes) zero r at e =
    elim (Option-cases (by_key para_number level2 level3 nodes)) [
      | inl missing ↦ (r, ground (arith, missing, at, e), e)
      | inr (m, found) ↦ (m, rw found refl, by_key-key para_number level2 level3 nodes m found)
    ]
by_key-has para_number level2 level3 (n ∷ nodes) (suc i) r at e =
    let (q, found, k) = by_key-has para_number level2 level3 nodes i r at e in (q, rw found refl, k)

by_key-none :
    (para_number : Chars) (level2 level3 : Option Chars) (nodes : List ClauseNode)
    → by_key para_number level2 level3 nodes ≡ none
    → All (λ m. has_key para_number level2 level3 m ≡ false) nodes
unfolding by_key
by_key-none para_number level2 level3 [] e = tt
by_key-none para_number level2 level3 (n ∷ nodes) e =
    elim (Option-cases (by_key para_number level2 level3 nodes)) [
      | inl missing ↦
          (ground (arith, missing, e), by_key-none para_number level2 level3 nodes missing)
      | inr (m, found) ↦ absurd (ground (arith, found, e))
    ]

-- What the look-up finds is the last node with the key.
by_key-last :
    (para_number : Chars) (level2 level3 : Option Chars) (nodes : List ClauseNode) (q : ClauseNode)
    → by_key para_number level2 level3 nodes ≡ some q
    → (before : List ClauseNode) × (after : List ClauseNode) × (nodes ≡ before ++ (q ∷ after))
      × All (λ m. has_key para_number level2 level3 m ≡ false) after
unfolding by_key
by_key-last para_number level2 level3 [] q e = absurd (ground (arith, e))
by_key-last para_number level2 level3 (n ∷ nodes) q e =
    elim (Option-cases (by_key para_number level2 level3 nodes)) [
      | inl missing ↦ (
        [],
        nodes,
        ap (λ x. x ∷ nodes) (ground (arith, missing, e)),
        by_key-none para_number level2 level3 nodes missing,
      )
      | inr (m, found) ↦
          let (before, after, place, last) =
            by_key-last para_number level2 level3 nodes q (ground (arith, found, e)) in
          (n ∷ before, after, ap (λ l. n ∷ l) place, last)
    ]

-- The parent of a clause that the chunker finds: the last paragraph with the clause's number.
pub record Stem (nodes : List ClauseNode) (n : ClauseNode) : Type 0 where
  pub parent : ClauseNode
  pub before : List ClauseNode
  pub after : List ClauseNode
  pub place : nodes ≡ before ++ (parent ∷ after)
  pub last : All (λ m. IsParagraph m → m.para_number ≢ n.para_number) after
  pub found : parent_of nodes n ≡ some parent
  pub paragraph : IsParagraph parent
  pub same_number : parent.para_number ≡ n.para_number

has_key-IsParagraph :
    (para_number : Chars) (q : ClauseNode)
    → has_key para_number none none q ≡ true
    → IsParagraph q × (q.para_number ≡ para_number)
unfolding has_key same_label
has_key-IsParagraph para_number q e = (
  record {
    no_level2 = unlabelled q.level2_label (ground (arith, e));
    no_level3 = unlabelled q.level3_label (ground (arith, e));
  },
  same-eq q.para_number para_number (ground (arith, e)),
)
  where
    unlabelled : (l : Option Chars) → same_label l none ≡ true → l ≡ none
    unlabelled none f = refl
    unlabelled (some l) f = absurd (ground (arith, f))

IsParagraph-has_key :
    (para_number : Chars) (q : ClauseNode)
    → IsParagraph q
    → q.para_number ≡ para_number
    → has_key para_number none none q ≡ true
unfolding has_key same_label
IsParagraph-has_key para_number q h e =
    ground (arith, h.no_level2, h.no_level3, same_refl para_number, ap (λ s. same s para_number) e)

Rooted-Stem :
    (nodes : List ClauseNode) (n : ClauseNode) (l : Chars)
    → n.level2_label ≡ some l
    → n.level3_label ≡ none
    → Rooted nodes n
    → Stem nodes n
unfolding parent_of
Rooted-Stem nodes n l two three r =
    let (q, found, key) =
      by_key-has n.para_number none none nodes r.index r.root r.found
        (IsParagraph-has_key n.para_number r.root r.paragraph r.same_number) in
    let (before, after, place, last) = by_key-last n.para_number none none nodes q found in
    let (paragraph, number) = has_key-IsParagraph n.para_number q key in
    record {
      parent = q;
      before = before;
      after = after;
      place = place;
      last =
          All-map _ _
            (λ m free p same. ground (arith, free, IsParagraph-has_key n.para_number m p same))
            after last;
      found = ground (arith, two, three, found);
      paragraph = paragraph;
      same_number = number;
    }

-- Of the nodes that the parser returns, every level-2 clause has a parent that the chunker takes the
-- stem from: of the paragraphs with the clause's number, the last one of the instrument.
pub parsed-Stem :
    (chars : Characters) (dialect : Dialect) (text : Chars) (p : ParsedInstrument)
    → parse chars dialect text ≡ returned p
    → All
        (λ (n : ClauseNode).
          (l : Chars) → n.level2_label ≡ some l → n.level3_label ≡ none → Stem p.nodes n)
        p.nodes
parsed-Stem chars dialect text p e =
    All-map (Rooted p.nodes)
      (λ (n : ClauseNode).
        (l : Chars) → n.level2_label ≡ some l → n.level3_label ≡ none → Stem p.nodes n)
      (λ n r l two three. Rooted-Stem p.nodes n l two three r) p.nodes
      (parse_tree chars dialect text p e).1
