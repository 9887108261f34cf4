-- ===== src/Corpus/Parse.antt =====
-- The loop of ContinuousParaParser.parse: which handler takes a line, and what is left at the end.
use nbfc_compliance_agent.Prelude.{
  ◌+◌, Bool, true, false, not, ◌&&◌, Option, none, some, List, [], ◌∷◌, ◌++◌, keep, map, count,
  is_none,
}
use nbfc_compliance_agent.Prelude.Raises.{Raises, returned, ◌>>=◌}
use nbfc_compliance_agent.Prelude.Regex.{Chars, Characters}
use nbfc_compliance_agent.Prelude.Chars.{codes, strip, same}
use nbfc_compliance_agent.Corpus.Nodes.{ClauseNode, ParsedInstrument}
use nbfc_compliance_agent.Corpus.Markers.{
  Marked, match_chapter, match_section, match_para, match_level2_roman, match_level2_paren,
  match_level3, match_note, join_hard_wraps,
}
use nbfc_compliance_agent.Corpus.Parser.{
  Dialect, roman, paren_numeral, ParserState, start, parent_at, close_chapter, on_chapter,
  on_section, on_para, child_node, on_level2, on_level3,
}

-- What a line is in the state in which it is read.
pub data Line : Type 0 where
  chapter section para level2 level3 note : Marked → Line
  continuation : Line

unfoldable pub is_note_of : Chars → ClauseNode → Bool
is_note_of para_number n =
    same n.para_number para_number
    && elim n.level2_label [ none ↦ false | some l ↦ same l (codes "note") ]

unfoldable pub on_note : Characters → ParserState → Marked → Raises ParserState
unfolding is_note_of
on_note chars s m = parent_at s.open_para_idx s.nodes >>= λ parent. returned (record s {
  nodes =
      s.nodes
      ++ (child_node s parent (some (codes "note"))
            (some (chars.decimal (count (is_note_of parent.para_number) s.nodes + 1))) m.body
          ∷ []);
  order = s.order + 1;
})

-- `nodes[-1].text = (nodes[-1].text + " " + line).strip()`
unfoldable pub amend : Chars → List ClauseNode → List ClauseNode
amend line [] = []
amend line (n ∷ nodes) = elim nodes [
  | [] ↦ record n { text = strip (n.text ++ 32 ∷ line) } ∷ []
  | m ∷ rest ↦ n ∷ amend line nodes
]

unfoldable pub match_level2 : Characters → Dialect → Chars → Option Marked
match_level2 chars roman = match_level2_roman
match_level2 chars paren_numeral = match_level2_paren chars

unfoldable pub when : Bool → Option Marked → Option Marked
when true m = m
when false m = none

-- The order in which the code looks at the four matches.
unfoldable pub choose : Option Marked → Option Marked → Option Marked → Option Marked → Line
choose (some m) l2 l3 n = para m
choose none (some m) l3 n = level2 m
choose none none (some m) n = level3 m
choose none none none (some m) = note m
choose none none none none = continuation

last_or : Chars → List Chars → Chars
last_or p [] = p
last_or p (q ∷ ps) = last_or q ps

range_of : List Chars → Chars × Chars
range_of [] = ([], [])
range_of (p ∷ ps) = (p, last_or p ps)

unfoldable pub parsed : ParserState → ParsedInstrument
unfolding range_of last_or close_chapter is_none
parsed s = record {
  nodes = s.nodes;
  detected_para_range = range_of (
      map (λ (n : ClauseNode). n.para_number)
        (keep (λ (n : ClauseNode). is_none n.level2_label) s.nodes));
  warnings = close_chapter s;
}

-- A chapter first, then a section, then what the body's markers say.
unfoldable pub headed : Option Marked → Option Marked → Line → Line
headed (some m) s body = chapter m
headed none (some m) body = section m
headed none none body = body

module _ (chars : Characters) (dialect : Dialect) where
  -- A line that is neither a chapter nor a section.
  unfoldable pub classify_body : ParserState → Chars → Line
  unfolding when choose is_none
  classify_body s line =
      let para_open = not (is_none s.open_para_idx) in
      let level2_open = not (is_none s.open_level2_idx) in
      let note_match = when para_open (match_note line) in
      let level3_match = when (level2_open && is_none note_match) (match_level3 line) in
      let level2_match =
        when (para_open && is_none level3_match) (match_level2 chars dialect line) in
      let para_match = when (is_none level2_match) (match_para chars line) in
      choose para_match level2_match level3_match note_match

  unfoldable pub classify : ParserState → Chars → Line
  unfolding headed
  classify s line = headed (match_chapter line) (match_section line) (classify_body s line)

  unfoldable pub handle : ParserState → Chars → Line → Raises ParserState
  handle s line (chapter m) = returned (on_chapter s m)
  handle s line (section m) = returned (on_section chars s m)
  handle s line (para m) = returned (on_para chars s m)
  handle s line (level2 m) = on_level2 chars dialect s m
  handle s line (level3 m) = on_level3 s m
  handle s line (note m) = on_note chars s m
  handle s line continuation = returned (record s { nodes = amend line s.nodes })

  unfoldable pub read_lines : List Chars → ParserState → Raises ParserState
  read_lines [] s = returned s
  read_lines (line ∷ lines) s = handle s line (classify s line) >>= read_lines lines

  unfoldable pub parse : Chars → Raises ParsedInstrument
  unfolding join_hard_wraps start
  parse text = read_lines (join_hard_wraps chars text) start >>= λ s. returned (parsed s)
