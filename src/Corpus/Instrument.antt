-- ===== src/Corpus/Instrument.antt =====
-- ContinuousParaParser.parse of app/corpus/parsers/continuous_para.py on any text.
use nbfc_compliance_agent.Prelude.{
  ◌≡◌, refl, Bool, true, false, Option, none, some, List, [], ◌∷◌, All, is_none, not, ◌&&◌, arith,
  subst,
}
use nbfc_compliance_agent.Prelude.Raises.{returned}
use nbfc_compliance_agent.Prelude.Regex.{Chars, Characters}
use nbfc_compliance_agent.Corpus.Nodes.{ParsedInstrument}
use nbfc_compliance_agent.Corpus.Markers.{
  Marked, match_chapter, match_section, match_para, match_level3, match_note, join_hard_wraps,
}
use nbfc_compliance_agent.Corpus.Parser.{Dialect, ParserState, start}
use nbfc_compliance_agent.Corpus.Parse.{
  Line, chapter, section, para, level2, level3, note, continuation, match_level2, when, choose,
  headed, classify_body, classify, handle, read_lines, parsed, parse,
}
use nbfc_compliance_agent.Corpus.Tree.{Numbered, Rooted, IsSound, start-IsSound}
use nbfc_compliance_agent.Corpus.Steps.{
  Soundly, on_chapter-IsSound, on_section-IsSound, on_para-IsSound, on_level2-Soundly,
  on_level3-Soundly, on_note-Soundly,
}
use nbfc_compliance_agent.Corpus.Amended.{amend-IsSound}

-- The line is read under a parent of its kind, when the kind has one.
Fits : Bool → Bool → Line → Type 0
Fits para_open level2_open (level2 m) = para_open ≡ true
Fits para_open level2_open (level3 m) = level2_open ≡ true
Fits para_open level2_open (note m) = para_open ≡ true
Fits para_open level2_open l = Unit {0}

choose-Fits :
    (po lo : Bool) (l2 l3 n p : Option Marked)
    → ((m : Marked) → l2 ≡ some m → po ≡ true)
    → ((m : Marked) → l3 ≡ some m → lo ≡ true)
    → ((m : Marked) → n ≡ some m → po ≡ true)
    → Fits po lo (choose p l2 l3 n)
unfolding choose Fits
choose-Fits po lo l2 l3 n (some m) f g k = tt
choose-Fits po lo (some m) l3 n none f g k = f m refl
choose-Fits po lo none (some m) n none f g k = g m refl
choose-Fits po lo none none (some m) none f g k = k m refl
choose-Fits po lo none none none none f g k = tt

headed-Fits :
    (po lo : Bool) (c s : Option Marked) (body : Line)
    → Fits po lo body
    → Fits po lo (headed c s body)
unfolding headed Fits
headed-Fits po lo (some m) s body h = tt
headed-Fits po lo none (some m) body h = tt
headed-Fits po lo none none body h = h

when-true : (b : Bool) (o : Option Marked) (m : Marked) → when b o ≡ some m → b ≡ true
unfolding when
when-true true o m e = refl
when-true false o m e = absurd (ground (arith, e))

and-true : (a b : Bool) → (a && b) ≡ true → a ≡ true
and-true a b e = ground (arith, e)

module _ (chars : Characters) (dialect : Dialect) where
  classify_body-Fits :
      (s : ParserState) (line : Chars)
      → Fits
          (not (is_none s.open_para_idx))
          (not (is_none s.open_level2_idx))
          (classify_body chars dialect s line)
  unfolding classify_body
  classify_body-Fits s line =
      let po = not (is_none s.open_para_idx) in
      let lo = not (is_none s.open_level2_idx) in
      let n = when po (match_note line) in
      let l3 = when (lo && is_none n) (match_level3 line) in
      let l2 = when (po && is_none l3) (match_level2 chars dialect line) in
      let p = when (is_none l2) (match_para chars line) in
      choose-Fits po lo l2 l3 n p
        (λ m e.
          and-true po (is_none l3)
            (when-true (po && is_none l3) (match_level2 chars dialect line) m e))
        (λ m e. and-true lo (is_none n) (when-true (lo && is_none n) (match_level3 line) m e))
        (when-true po (match_note line))

  classify-Fits :
      (s : ParserState) (line : Chars)
      → Fits
          (not (is_none s.open_para_idx))
          (not (is_none s.open_level2_idx))
          (classify chars dialect s line)
  unfolding classify Fits
  classify-Fits s line =
      headed-Fits (not (is_none s.open_para_idx)) (not (is_none s.open_level2_idx))
        (match_chapter line) (match_section line) (classify_body chars dialect s line)
        (classify_body-Fits s line)

  handle-Soundly :
      (s : ParserState) (line : Chars) (l : Line)
      → IsSound s
      → Fits (not (is_none s.open_para_idx)) (not (is_none s.open_level2_idx)) l
      → Soundly (handle chars dialect s line l)
  unfolding handle Fits Soundly
  handle-Soundly s line (chapter m) h e = (_, refl, on_chapter-IsSound s m h)
  handle-Soundly s line (section m) h e = (_, refl, on_section-IsSound chars s m h)
  handle-Soundly s line (para m) h e = (_, refl, on_para-IsSound chars s m h)
  handle-Soundly s line (level2 m) h e = on_level2-Soundly chars dialect s m h e
  handle-Soundly s line (level3 m) h e = on_level3-Soundly s m h e
  handle-Soundly s line (note m) h e = on_note-Soundly chars s m h e
  handle-Soundly s line continuation h e = (_, refl, amend-IsSound line s h)

  read_lines-Soundly :
      (lines : List Chars) (s : ParserState)
      → IsSound s
      → Soundly (read_lines chars dialect lines s)
  unfolding read_lines Soundly
  read_lines-Soundly [] s h = (s, refl, h)
  read_lines-Soundly (line ∷ lines) s h =
      let (t, e, k) =
        handle-Soundly s line (classify chars dialect s line) h (classify-Fits s line) in
      let (u, e', k') = read_lines-Soundly lines t k in (u, rw (e, e') refl, k')

  -- The parser returns on every text: no assertion of the loop fails and no index is out of range.
  pub parse_total :
      (text : Chars) → (p : ParsedInstrument) × (parse chars dialect text ≡ returned p)
  unfolding parse Soundly
  parse_total text =
      let (s, e, h) = read_lines-Soundly (join_hard_wraps chars text) start start-IsSound in
      (parsed s, rw e refl)

  -- In what the parser returns, the orders of the nodes are 0, 1, 2 and so on, and every node's
  -- paragraph is among the nodes.
  pub parse_tree :
      (text : Chars) (p : ParsedInstrument)
      → parse chars dialect text ≡ returned p
      → Numbered 0 p.nodes × All (Rooted p.nodes) p.nodes
  unfolding parse parsed Soundly
  parse_tree text p e =
      let (s, at, h) = read_lines-Soundly (join_hard_wraps chars text) start start-IsSound in
      let same : s.nodes ≡ p.nodes = ground (arith, at, e) in
      subst (λ nodes. Numbered 0 nodes × All (Rooted nodes) nodes) same (h.numbered, h.rooted)
