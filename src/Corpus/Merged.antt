-- ===== src/Corpus/Merged.antt =====
-- The nodes of an instrument with its annexes (app/corpus/service.py, app/corpus/parsers/annex_table.py):
-- one numbering, and overrides only of paragraphs that are there.
use nbfc_compliance_agent.Prelude.{
  ℕ, ◌+◌, ◌≡◌, refl, Bool, true, false, Option, none, some, List, [], ◌∷◌, ◌++◌, length, map, all,
  subst, arith, if◌then◌else◌,
}
use nbfc_compliance_agent.Prelude.Raises.{returned, raised, corpus_ingest_error}
use nbfc_compliance_agent.Prelude.Regex.{Chars, Characters, Position}
use nbfc_compliance_agent.Corpus.Nodes.{ClauseNode}
use nbfc_compliance_agent.Corpus.Parser.{Dialect}
use nbfc_compliance_agent.Corpus.Tree.{Numbered, Numbered-append, length-append_one}
use nbfc_compliance_agent.Corpus.Instrument.{parse_total, parse_tree}
use nbfc_compliance_agent.Corpus.Annex.{
  AnnexState, annex_node, put, close_block, flush, put_row, match_row, starts_illustration,
  read_row, read_open, read_annex_line, read_annex, annex_of, parse_annex,
}
use nbfc_compliance_agent.Corpus.Instruments.{
  Validity, InstrumentSource, with_annexes, split_annex_parts, parse_split, parse_instrument,
  has_para, apply_para_overrides,
}

-- The state of the annex between two lines.
record IsCounted (s : AnnexState) : Type 0 where
  counted : s.order ≡ length s.nodes
  numbered : Numbered 0 s.nodes

put-IsCounted :
    (s : AnnexState) (n : ClauseNode) → IsCounted s → n.order ≡ s.order → IsCounted (put s n)
unfolding put
put-IsCounted s n h e = record {
  counted = ground (arith, h.counted, length-append_one s.nodes n);
  numbered = Numbered-append 0 s.nodes n h.numbered (ground (arith, e, h.counted));
}

if-IsCounted :
    (b : Bool) (s t : AnnexState) → IsCounted s → IsCounted t → IsCounted (if b then s else t)
if-IsCounted true s t h k = h
if-IsCounted false s t h k = k

close_block-IsCounted :
    (part : Chars) (s : AnnexState) (block : Option (List Chars))
    → IsCounted s
    → IsCounted (close_block part s block)
unfolding close_block annex_node
close_block-IsCounted part s none h = h
close_block-IsCounted part s (some block) h = put-IsCounted s _ h refl

put_row-IsCounted :
    (part header : Chars) (s : AnnexState) (line : Chars) (m : Option Position)
    → IsCounted s
    → IsCounted (put_row part header s line m)
unfolding put_row annex_node
put_row-IsCounted part header s line none h = record { counted = h.counted; numbered = h.numbered }
put_row-IsCounted part header s line (some p) h = put-IsCounted s _ h refl

module _ (chars : Characters) (part : Chars) where
  read_row-IsCounted :
      (header : Chars) (s : AnnexState) (line : Chars)
      → IsCounted s
      → IsCounted (read_row chars part header s line)
  unfolding read_row
  read_row-IsCounted header s line h =
      if-IsCounted (starts_illustration chars part line) _ _
        (record { counted = h.counted; numbered = h.numbered })
        (put_row-IsCounted part header s line (match_row chars part line) h)

  read_open-IsCounted :
      (header : Chars) (s : AnnexState) (line : Chars) (block : Option (List Chars))
      → IsCounted s
      → IsCounted (read_open chars part header s line block)
  unfolding read_open flush
  read_open-IsCounted header s line none h = read_row-IsCounted header s line h
  read_open-IsCounted header s line (some block) h =
      if-IsCounted _ _ _ (record { counted = h.counted; numbered = h.numbered })
        (read_row-IsCounted header _ line (close_block-IsCounted part s s.block h))

  read_annex-IsCounted :
      (header : Chars) (s : AnnexState) (lines : List Chars)
      → IsCounted s
      → IsCounted (read_annex chars part header s lines)
  unfolding read_annex read_annex_line flush
  read_annex-IsCounted header s [] h = close_block-IsCounted part s s.block h
  read_annex-IsCounted header s (line ∷ lines) h =
      read_annex-IsCounted header (read_open chars part header s line s.block) lines
        (read_open-IsCounted header s line s.block h)

  annex_of-Numbered : (lines : List Chars) → Numbered 0 (annex_of chars part lines).nodes
  unfolding annex_of Numbered
  annex_of-Numbered [] = tt
  annex_of-Numbered (header ∷ lines) =
      (read_annex-IsCounted _ _ lines (record { counted = refl; numbered = tt })).numbered

-- A numbering moved on, and two numberings after each other.
Numbered-map :
    (k b : ℕ) (xs : List ClauseNode)
    → Numbered k xs
    → Numbered (k + b) (map (λ (n : ClauseNode). record n { order = n.order + b }) xs)
unfolding Numbered
Numbered-map k b [] h = tt
Numbered-map k b (x ∷ xs) h = (
  ground (arith, h.0),
  subst (λ i. Numbered i (map (λ (n : ClauseNode). record n { order = n.order + b }) xs))
      (omega arith) (Numbered-map (k + 1) b xs h.1),
)

Numbered-append_all :
    (k : ℕ) (xs ys : List ClauseNode)
    → Numbered k xs
    → Numbered (k + length xs) ys
    → Numbered k (xs ++ ys)
unfolding Numbered
Numbered-append_all k [] ys h g = subst (λ i. Numbered i ys) (omega arith) g
Numbered-append_all k (x ∷ xs) ys h g =
    (h.0, Numbered-append_all (k + 1) xs ys h.1 (subst (λ i. Numbered i ys) (omega arith) g))

module _ (chars : Characters) where
  with_annexes-Numbered :
      (nodes : List ClauseNode) (part : ℕ) (blocks : List Chars)
      → Numbered 0 nodes
      → Numbered 0 (with_annexes chars nodes part blocks)
  unfolding with_annexes parse_annex
  with_annexes-Numbered nodes part [] h = h
  with_annexes-Numbered nodes part (block ∷ blocks) h =
      let added =
        map (λ (n : ClauseNode). record n { order = n.order + length nodes })
          (parse_annex chars (chars.decimal part) block).nodes in
      with_annexes-Numbered (nodes ++ added) (part + 1) blocks (
        Numbered-append_all 0 nodes added h (
          Numbered-map 0 (length nodes) (parse_annex chars (chars.decimal part) block).nodes
            (annex_of-Numbered chars (chars.decimal part) _)))

  parse_split-Numbered :
      (dialect : Dialect) (cleaned : Chars) (cut : Option (Chars × Chars))
      → (nodes : List ClauseNode) × (parse_split chars dialect cleaned cut ≡ returned nodes)
        × Numbered 0 nodes
  unfolding parse_split
  parse_split-Numbered dialect cleaned none =
      let (p, e) = parse_total chars dialect cleaned in
      (p.nodes, rw e refl, (parse_tree chars dialect cleaned p e).0)
  parse_split-Numbered dialect cleaned (some (main_text, annex_text)) =
      let (p, e) = parse_total chars dialect main_text in
      (
        with_annexes chars p.nodes 1 (split_annex_parts chars annex_text),
        rw e refl,
        with_annexes-Numbered p.nodes 1 (split_annex_parts chars annex_text)
            (parse_tree chars dialect main_text p e).0,
      )

  -- Every text of an instrument, with annexes or without, is parsed to nodes whose orders are 0, 1, 2
  -- and so on through the main text and all parts of the annex.
  pub parse_instrument_total :
      (inst : InstrumentSource) (raw_text : Chars)
      → (nodes : List ClauseNode) × (parse_instrument chars inst raw_text ≡ returned nodes)
        × Numbered 0 nodes
  unfolding parse_instrument
  parse_instrument_total inst raw_text = parse_split-Numbered inst.dialect _ _

-- The overrides of an instrument are accepted, and then all of them, exactly when each names the
-- paragraph of a node; otherwise the ingest stops with an error.
overrides_exact :
    (nodes : List ClauseNode) (overrides : List (Chars × Validity))
    → apply_para_overrides nodes overrides ≡ (
        if all (λ (o : Chars × Validity). has_para nodes o.0) overrides
        then returned overrides
        else raised corpus_ingest_error)
unfolding apply_para_overrides all
overrides_exact nodes [] = refl
overrides_exact nodes ((para_number, validity) ∷ overrides) =
    ground (arith, overrides_exact nodes overrides)
