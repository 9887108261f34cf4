-- ===== src/Corpus/Tree.antt =====
-- The tree that the parser of app/corpus/parsers/continuous_para.py builds: the state of the loop
-- between two lines, and that no assertion of the loop fails.
use nbfc_compliance_agent.Prelude.{
  ℕ, zero, suc, ◌+◌, ◌≡◌, refl, inl, inr, ◌⊎◌, Option, none, some, List, [], ◌∷◌, ◌++◌, length, All,
  All-map, All-append, subst, arith,
}
use nbfc_compliance_agent.Corpus.Nodes.{ClauseNode}
use nbfc_compliance_agent.Corpus.Parser.{ParserState, start, get_elem?}

pub get_elem?-append :
    (xs ys : List ClauseNode) (i : ℕ) (n : ClauseNode)
    → get_elem? xs i ≡ some n
    → get_elem? (xs ++ ys) i ≡ some n
unfolding get_elem?
get_elem?-append [] ys i n e = absurd (ground (arith, e))
get_elem?-append (x ∷ xs) ys zero n e = e
get_elem?-append (x ∷ xs) ys (suc i) n e = get_elem?-append xs ys i n e

pub get_elem?-last :
    (xs : List ClauseNode) (n : ClauseNode) → get_elem? (xs ++ (n ∷ [])) (length xs) ≡ some n
unfolding get_elem?
get_elem?-last [] n = refl
get_elem?-last (x ∷ xs) n = get_elem?-last xs n

pub length-append_one :
    (xs : List ClauseNode) (n : ClauseNode) → length (xs ++ (n ∷ [])) ≡ length xs + 1
length-append_one [] n = refl
length-append_one (x ∷ xs) n = ground (arith, length-append_one xs n)

-- The orders count on from the number.
unfoldable pub Numbered : ℕ → List ClauseNode → Type 0
Numbered k [] = Unit {0}
Numbered k (n ∷ nodes) = (n.order ≡ k) × Numbered (k + 1) nodes

pub Numbered-append :
    (k : ℕ) (xs : List ClauseNode) (n : ClauseNode)
    → Numbered k xs
    → n.order ≡ k + length xs
    → Numbered k (xs ++ (n ∷ []))
unfolding Numbered
Numbered-append k [] n h e = (ground (arith, e), tt)
Numbered-append k (x ∷ xs) n h e = (h.0, Numbered-append (k + 1) xs n h.1 (ground (arith, e)))

-- A paragraph itself: a node without labels.
pub record IsParagraph (n : ClauseNode) : Type 0 where
  pub no_level2 : n.level2_label ≡ none
  pub no_level3 : n.level3_label ≡ none

-- The node's paragraph is among the nodes.
pub record Rooted (nodes : List ClauseNode) (n : ClauseNode) : Type 0 where
  pub index : ℕ
  pub root : ClauseNode
  pub found : get_elem? nodes index ≡ some root
  pub paragraph : IsParagraph root
  pub same_number : root.para_number ≡ n.para_number

pub Rooted-append : (xs ys : List ClauseNode) (n : ClauseNode) → Rooted xs n → Rooted (xs ++ ys) n
Rooted-append xs ys n r = record {
  index = r.index;
  root = r.root;
  found = get_elem?-append xs ys r.index r.root r.found;
  paragraph = r.paragraph;
  same_number = r.same_number;
}

pub All-get {ℓ} :
    (P : ClauseNode → Type ℓ) (xs : List ClauseNode) (i : ℕ) (n : ClauseNode)
    → All P xs
    → get_elem? xs i ≡ some n
    → P n
unfolding get_elem?
All-get P [] i n h e = absurd (ground (arith, e))
All-get P (x ∷ xs) zero n h e = subst P (ground (arith, e)) h.0
All-get P (x ∷ xs) (suc i) n h e = All-get P xs i n h.1 e

-- The state between two lines.
pub record IsSound (s : ParserState) : Type 0 where
  pub counted : s.order ≡ length s.nodes
  pub numbered : Numbered 0 s.nodes
  pub rooted : All (Rooted s.nodes) s.nodes
  pub para_open :
      (i : ℕ) → s.open_para_idx ≡ some i → (p : ClauseNode) × (get_elem? s.nodes i ≡ some p)
  pub level2_open :
      (i : ℕ) → s.open_level2_idx ≡ some i → (p : ClauseNode) × (get_elem? s.nodes i ≡ some p)

pub start-IsSound : IsSound start
unfolding start Numbered
start-IsSound = record {
  counted = refl;
  numbered = tt;
  rooted = tt;
  para_open = λ i e. absurd (ground (arith, e));
  level2_open = λ i e. absurd (ground (arith, e));
}

-- An open index stays good when a node is put at the end, or is the new node's.
opened :
    (xs : List ClauseNode) (n : ClauseNode) (o o' : Option ℕ)
    → ((i : ℕ) → o ≡ some i → (p : ClauseNode) × (get_elem? xs i ≡ some p))
    → (o' ≡ o) ⊎ ((o' ≡ none) ⊎ (o' ≡ some (length xs)))
    → (i : ℕ) → o' ≡ some i
    → (p : ClauseNode) × (get_elem? (xs ++ (n ∷ [])) i ≡ some p)
opened xs n o o' h (inl same) i e =
    let old = h i (ground (arith, same, e)) in (old.0, get_elem?-append xs (n ∷ []) i old.0 old.1)
opened xs n o o' h (inr (inl closed)) i e = absurd (ground (arith, closed, e))
opened xs n o o' h (inr (inr new)) i e =
    let at : length xs ≡ i = ground (arith, new, e) in
    (n, subst (λ j. get_elem? (xs ++ (n ∷ [])) j ≡ some n) at (get_elem?-last xs n))

-- A node put at the end, with the next order and rooted in what is there then.
pub grown :
    (s t : ParserState) (n : ClauseNode)
    → IsSound s
    → n.order ≡ s.order
    → t.nodes ≡ s.nodes ++ (n ∷ [])
    → t.order ≡ s.order + 1
    → Rooted (s.nodes ++ (n ∷ [])) n
    → (t.open_para_idx ≡ s.open_para_idx)
      ⊎ ((t.open_para_idx ≡ none) ⊎ (t.open_para_idx ≡ some (length s.nodes)))
    → (t.open_level2_idx ≡ s.open_level2_idx)
      ⊎ ((t.open_level2_idx ≡ none) ⊎ (t.open_level2_idx ≡ some (length s.nodes)))
    → IsSound t
grown s t n h o nodes order root para level2 = record {
  counted = ground (arith, order, nodes, h.counted, length-append_one s.nodes n);
  numbered = rw nodes (Numbered-append 0 s.nodes n h.numbered (ground (arith, o, h.counted)));
  rooted = rw nodes (
      All-append (Rooted (s.nodes ++ (n ∷ []))) s.nodes (n ∷ [])
        (All-map (Rooted s.nodes) (Rooted (s.nodes ++ (n ∷ []))) (Rooted-append s.nodes (n ∷ []))
          s.nodes h.rooted)
        (root, tt));
  para_open = rw nodes (opened s.nodes n s.open_para_idx t.open_para_idx h.para_open para);
  level2_open =
      rw nodes (opened s.nodes n s.open_level2_idx t.open_level2_idx h.level2_open level2);
}
