-- ===== src/Corpus/Steps.antt =====
-- The handlers of app/corpus/parsers/continuous_para.py on a sound state: each returns, and its state
-- is sound.
use nbfc_compliance_agent.Prelude.{
  ℕ, ◌+◌, ◌≡◌, refl, inl, inr, true, Option, none, some, List, [], ◌∷◌, ◌++◌, length, is_none,
  arith, not, count,
}
use nbfc_compliance_agent.Prelude.Raises.{Raises, returned}
use nbfc_compliance_agent.Prelude.Regex.{Chars, Characters}
use nbfc_compliance_agent.Prelude.Chars.{codes}
use nbfc_compliance_agent.Corpus.Nodes.{ClauseNode, para_sort_key}
use nbfc_compliance_agent.Corpus.Markers.{Marked}
use nbfc_compliance_agent.Corpus.Parser.{
  Dialect, roman, paren_numeral, ParserState, get_elem?, parent_at, on_chapter, on_section,
  para_node, on_para, child_node, count_roman, on_level2, on_level3,
}
use nbfc_compliance_agent.Corpus.Parse.{is_note_of, on_note}
use nbfc_compliance_agent.Corpus.Tree.{
  get_elem?-last, Rooted, Rooted-append, All-get, IsSound, grown,
}

pub on_chapter-IsSound : (s : ParserState) (m : Marked) → IsSound s → IsSound (on_chapter s m)
unfolding on_chapter
on_chapter-IsSound s m h = record {
  counted = h.counted;
  numbered = h.numbered;
  rooted = h.rooted;
  para_open = λ i e. absurd (ground (arith, e));
  level2_open = λ i e. absurd (ground (arith, e));
}

pub on_section-IsSound :
    (chars : Characters) (s : ParserState) (m : Marked) → IsSound s → IsSound (on_section chars s m)
unfolding on_section
on_section-IsSound chars s m h = record {
  counted = h.counted;
  numbered = h.numbered;
  rooted = h.rooted;
  para_open = λ i e. absurd (ground (arith, e));
  level2_open = λ i e. absurd (ground (arith, e));
}

para_node-Rooted :
    (s : ParserState) (m : Marked) (k : ℕ) (nodes : List ClauseNode)
    → Rooted (nodes ++ (para_node s m k ∷ [])) (para_node s m k)
unfolding para_node
para_node-Rooted s m k nodes = record {
  index = length nodes;
  root = para_node s m k;
  found = get_elem?-last nodes (para_node s m k);
  paragraph = record { no_level2 = refl; no_level3 = refl };
  same_number = refl;
}

pub on_para-IsSound :
    (chars : Characters) (s : ParserState) (m : Marked) → IsSound s → IsSound (on_para chars s m)
unfolding on_para para_node
on_para-IsSound chars s m h =
    let n = para_node s m (para_sort_key chars m.label) in
    grown s (on_para chars s m) n h refl refl refl
      (para_node-Rooted s m (para_sort_key chars m.label) s.nodes) (inr (inr refl)) (inr (inl refl))

-- A node under a node of the tree has the paragraph of that node.
child_node-Rooted :
    (s : ParserState) (i : ℕ) (parent : ClauseNode) (level2 level3 : Option Chars) (text : Chars)
    → IsSound s
    → get_elem? s.nodes i ≡ some parent
    → Rooted
        (s.nodes ++ (child_node s parent level2 level3 text ∷ []))
        (child_node s parent level2 level3 text)
unfolding child_node
child_node-Rooted s i parent level2 level3 text h at =
    let r =
      Rooted-append s.nodes (child_node s parent level2 level3 text ∷ []) parent
        (All-get (Rooted s.nodes) s.nodes i parent h.rooted at) in
    record {
      index = r.index;
      root = r.root;
      found = r.found;
      paragraph = r.paragraph;
      same_number = r.same_number;
    }

-- A call that returns a sound state.
unfoldable pub Soundly : Raises ParserState → Type 0
Soundly m = (t : ParserState) × (m ≡ returned t) × IsSound t

-- `count_roman` touches the warnings and the last value only.
count_roman-IsSound :
    (d : Dialect) (raw label : Chars) (s : ParserState)
    → ((count_roman d raw label s).nodes ≡ s.nodes)
      × ((count_roman d raw label s).order ≡ s.order)
      × ((count_roman d raw label s).open_para_idx ≡ s.open_para_idx)
unfolding count_roman
count_roman-IsSound roman raw label s = (refl, refl, refl)
count_roman-IsSound paren_numeral raw label s = (refl, refl, refl)

-- An open index gives its node.
parent_at-open :
    (o : Option ℕ) (nodes : List ClauseNode)
    → ((i : ℕ) → o ≡ some i → (p : ClauseNode) × (get_elem? nodes i ≡ some p))
    → not (is_none o) ≡ true
    → (i : ℕ) × (p : ClauseNode) × (get_elem? nodes i ≡ some p) × (parent_at o nodes ≡ returned p)
unfolding is_none parent_at
parent_at-open none nodes h e = absurd (ground (arith, e))
parent_at-open (some i) nodes h e = let (p, at) = h i refl in (i, p, at, ground (arith, at))

pub on_level2-Soundly :
    (chars : Characters) (d : Dialect) (s : ParserState) (m : Marked)
    → IsSound s
    → not (is_none s.open_para_idx) ≡ true
    → Soundly (on_level2 chars d s m)
unfolding on_level2 Soundly child_node
on_level2-Soundly chars d s m h e =
    let (i, parent, at, found) = parent_at-open s.open_para_idx s.nodes h.para_open e in
    let (n2, o2, p2) = count_roman-IsSound d m.label (chars.lower m.label) s in
    let n = child_node s parent (some (chars.lower m.label)) none m.body in
    let t : ParserState = record (count_roman d m.label (chars.lower m.label) s) {
      nodes = s.nodes ++ (n ∷ []);
      open_level2_idx = some (length s.nodes);
      order = s.order + 1;
    } in
    (
      t,
      rw found refl,
      grown s t n h refl refl refl
          (child_node-Rooted s i parent (some (chars.lower m.label)) none m.body h at) (inl p2)
          (inr (inr refl)),
    )

pub on_level3-Soundly :
    (s : ParserState) (m : Marked)
    → IsSound s
    → not (is_none s.open_level2_idx) ≡ true
    → Soundly (on_level3 s m)
unfolding on_level3 Soundly child_node
on_level3-Soundly s m h e =
    let (i, parent, at, found) = parent_at-open s.open_level2_idx s.nodes h.level2_open e in
    let n = child_node s parent parent.level2_label (some m.label) m.body in
    let t : ParserState = record s { nodes = s.nodes ++ (n ∷ []); order = s.order + 1 } in
    (
      t,
      rw found refl,
      grown s t n h refl refl refl
          (child_node-Rooted s i parent parent.level2_label (some m.label) m.body h at) (inl refl)
          (inl refl),
    )

note_label : Characters → ParserState → ClauseNode → Option Chars
note_label chars s parent = some (chars.decimal (count (is_note_of parent.para_number) s.nodes + 1))

pub on_note-Soundly :
    (chars : Characters) (s : ParserState) (m : Marked)
    → IsSound s
    → not (is_none s.open_para_idx) ≡ true
    → Soundly (on_note chars s m)
unfolding on_note Soundly child_node note_label
on_note-Soundly chars s m h e =
    let (i, parent, at, found) = parent_at-open s.open_para_idx s.nodes h.para_open e in
    let n = child_node s parent (some (codes "note")) (note_label chars s parent) m.body in
    let t : ParserState = record s { nodes = s.nodes ++ (n ∷ []); order = s.order + 1 } in
    (
      t,
      rw found refl,
      grown s t n h refl refl refl
          (child_node-Rooted s i parent (some (codes "note")) (note_label chars s parent) m.body h
            at)
          (inl refl) (inl refl),
    )
