-- ===== src/Corpus/Amended.antt =====
-- A continuation line of app/corpus/parsers/continuous_para.py changes the text of the last node and
-- nothing else of the tree.
use nbfc_compliance_agent.Prelude.{
  ℕ, zero, suc, ◌+◌, ◌≡◌, refl, Option, some, List, [], ◌∷◌, ◌++◌, length, All, All-map, arith,
}
use nbfc_compliance_agent.Prelude.Regex.{Chars}
use nbfc_compliance_agent.Prelude.Chars.{strip}
use nbfc_compliance_agent.Corpus.Nodes.{ClauseNode}
use nbfc_compliance_agent.Corpus.Parser.{ParserState, get_elem?}
use nbfc_compliance_agent.Corpus.Parse.{amend}
use nbfc_compliance_agent.Corpus.Tree.{Numbered, Rooted, IsSound}

-- Two nodes that differ in the text at most.
record SameNode (n n' : ClauseNode) : Type 0 where
  same_order : n'.order ≡ n.order
  same_number : n'.para_number ≡ n.para_number
  same_level2 : n'.level2_label ≡ n.level2_label
  same_level3 : n'.level3_label ≡ n.level3_label

length-amend : (line : Chars) (nodes : List ClauseNode) → length (amend line nodes) ≡ length nodes
unfolding amend
length-amend line [] = refl
length-amend line (n ∷ []) = refl
length-amend line (n ∷ m ∷ rest) = ground (arith, length-amend line (m ∷ rest))

get_elem?-amend :
    (line : Chars) (nodes : List ClauseNode) (i : ℕ) (n : ClauseNode)
    → get_elem? nodes i ≡ some n
    → (n' : ClauseNode) × (get_elem? (amend line nodes) i ≡ some n') × SameNode n n'
unfolding amend get_elem?
get_elem?-amend line [] i n e = absurd (ground (arith, e))
get_elem?-amend line (x ∷ []) zero n e = (
  record x { text = strip (x.text ++ 32 ∷ line) },
  refl,
  record {
    same_order = ground (arith, e);
    same_number = ground (arith, e);
    same_level2 = ground (arith, e);
    same_level3 = ground (arith, e);
  },
)
get_elem?-amend line (x ∷ []) (suc i) n e = absurd (ground (arith, e))
get_elem?-amend line (x ∷ y ∷ rest) zero n e =
    (n, e, record { same_order = refl; same_number = refl; same_level2 = refl; same_level3 = refl })
get_elem?-amend line (x ∷ y ∷ rest) (suc i) n e = get_elem?-amend line (y ∷ rest) i n e

Numbered-amend :
    (line : Chars) (k : ℕ) (nodes : List ClauseNode)
    → Numbered k nodes
    → Numbered k (amend line nodes)
unfolding amend Numbered
Numbered-amend line k [] h = tt
Numbered-amend line k (x ∷ []) h = h
Numbered-amend line k (x ∷ y ∷ rest) h = (h.0, Numbered-amend line (k + 1) (y ∷ rest) h.1)

Rooted-amend :
    (line : Chars) (nodes : List ClauseNode) (n : ClauseNode)
    → Rooted nodes n
    → Rooted (amend line nodes) n
Rooted-amend line nodes n r =
    let (root, at, same) = get_elem?-amend line nodes r.index r.root r.found in
    record {
      index = r.index;
      root = root;
      found = at;
      paragraph = record {
        no_level2 = ground (arith, same.same_level2, r.paragraph.no_level2);
        no_level3 = ground (arith, same.same_level3, r.paragraph.no_level3);
      };
      same_number = ground (arith, same.same_number, r.same_number);
    }

-- What does not look at the text stays true of all nodes.
All-amend {ℓ} :
    (P : ClauseNode → Type ℓ)
    → ((n : ClauseNode) (text : Chars) → P n → P (record n { text = text }))
    → (line : Chars) (nodes : List ClauseNode) → All P nodes
    → All P (amend line nodes)
unfolding amend
All-amend P blind line [] h = h
All-amend P blind line (x ∷ []) h = (blind x (strip (x.text ++ 32 ∷ line)) h.0, tt)
All-amend P blind line (x ∷ y ∷ rest) h = (h.0, All-amend P blind line (y ∷ rest) h.1)

Rooted-text :
    (nodes : List ClauseNode) (n : ClauseNode) (text : Chars)
    → Rooted nodes n
    → Rooted nodes (record n { text = text })
Rooted-text nodes n text r = record {
  index = r.index;
  root = r.root;
  found = r.found;
  paragraph = r.paragraph;
  same_number = r.same_number;
}

amended_open :
    (line : Chars) (nodes : List ClauseNode) (o : Option ℕ)
    → ((i : ℕ) → o ≡ some i → (p : ClauseNode) × (get_elem? nodes i ≡ some p))
    → (i : ℕ) → o ≡ some i
    → (p : ClauseNode) × (get_elem? (amend line nodes) i ≡ some p)
amended_open line nodes o h i e =
    let (p, at) = h i e in let (p', at', same) = get_elem?-amend line nodes i p at in (p', at')

pub amend-IsSound :
    (line : Chars) (s : ParserState) → IsSound s → IsSound (record s { nodes = amend line s.nodes })
amend-IsSound line s h = record {
  counted = ground (arith, h.counted, length-amend line s.nodes);
  numbered = Numbered-amend line 0 s.nodes h.numbered;
  rooted = All-amend (Rooted (amend line s.nodes)) (Rooted-text (amend line s.nodes)) line s.nodes (
      All-map (Rooted s.nodes) (Rooted (amend line s.nodes)) (Rooted-amend line s.nodes) s.nodes
        h.rooted);
  para_open = amended_open line s.nodes s.open_para_idx h.para_open;
  level2_open = amended_open line s.nodes s.open_level2_idx h.level2_open;
}
