-- ===== src/Corpus/Annex.antt =====
-- AnnexTableParser of app/corpus/parsers/annex_table.py. The loop over the lines is a state; the lines
-- of an open illustration are the state's block.
use nbfc_compliance_agent.Prelude.{
  ℕ, ◌+◌, ◌==◌, Bool, not, ◌&&◌, ◌||◌, Option, none, some, List, [], ◌∷◌, ◌++◌, map, keep, is_none,
  if◌then◌else◌,
}
use nbfc_compliance_agent.Prelude.Regex.{
  Chars, Characters, Position, Matcher, take, one, ◌then◌, ◌or◌, between, many, some_of, times,
  group, word_boundary, match_re, group_of, split_re,
}
use nbfc_compliance_agent.Prelude.Chars.{
  codes, is_space, is_nil, strip, strip_end, nonempty_lines, join,
}
use nbfc_compliance_agent.Corpus.Nodes.{
  ChunkKind, table_row, illustration, ClauseNode, Warning, empty_annex, unrecognised_line,
  ParsedInstrument,
}
use nbfc_compliance_agent.Corpus.Markers.{any_case, optional_text}

-- _CELL_SPLIT_RE
cell_split : Matcher
unfolding is_space
cell_split = some_of (one (λ c. c == 9)) or (times 2 (one is_space) then many (one is_space))

-- `" | ".join(header_cells)`
header_prefix : Chars → Chars
unfolding cell_split strip
header_prefix line =
    join (codes " | ") (keep (λ c. not (is_nil c)) (map strip (split_re cell_split line)))

pub record AnnexState : Type 0 where
  pub nodes : List ClauseNode
  pub warnings : List Warning
  pub order : ℕ
  pub block : Option (List Chars)

-- A node of the annex.
unfoldable pub annex_node : Chars → Chars → Option Chars → Chars → ℕ → ChunkKind → ClauseNode
annex_node part level3 heading text order kind = record {
  chapter = none;
  chapter_title = none;
  section_letter = none;
  section_title = none;
  para_number = codes "annexA";
  para_sort = 0;
  level2_label = some (codes "part" ++ part);
  level3_label = some level3;
  heading = heading;
  text = text;
  order = order;
  chunk_kind = kind;
  applies_to_borrower_classes = [];
}

-- The node goes to the end, and the order moves on.
unfoldable pub put : AnnexState → ClauseNode → AnnexState
put s n = record s { nodes = s.nodes ++ (n ∷ []); order = s.order + 1; block = none }

unfoldable pub close_block : Chars → AnnexState → Option (List Chars) → AnnexState
close_block part s none = s
close_block part s (some block) = put s (
    annex_node part (codes "illustration") (some (codes "Worked illustration"))
      (join (32 ∷ []) block) s.order illustration)

-- The end of an illustration.
unfoldable pub flush : Chars → AnnexState → AnnexState
flush part s = close_block part s s.block

-- The row of a marked line, or a warning.
unfoldable pub put_row : Chars → Chars → AnnexState → Chars → Option Position → AnnexState
unfolding strip
put_row part header s line none = record s {
  warnings = s.warnings ++ (unrecognised_line (take 60 line) ∷ []);
}
put_row part header s line (some p) = put s (
    annex_node part (optional_text (group_of 1 p.groups)) none
      (header ++ codes " :: " ++ strip p.rest) s.order table_row)

module _ (chars : Characters) (part : Chars) where
  -- _ROW_MARKER_RE
  unfoldable pub match_row : Chars → Option Position
  unfolding is_space
  match_row line =
      match_re
        (many (one is_space)
          then group 1 (between 1 2 (one chars.is_decimal))
          then one (λ c. c == b'.' || c == b')')
          then some_of (one is_space))
        line

  -- _ILLUSTRATION_START_RE
  unfoldable pub starts_illustration : Chars → Bool
  unfolding is_space any_case is_none
  starts_illustration line = not (
      is_none (
        match_re (many (one is_space) then any_case (codes "illustration") then word_boundary chars)
          line))

  -- A line outside an illustration.
  unfoldable pub read_row : Chars → AnnexState → Chars → AnnexState
  read_row header s line =
      if starts_illustration line
      then record s { block = some (line ∷ []) }
      else put_row part header s line (match_row line)

  -- A line, with the block that is open.
  unfoldable pub read_open : Chars → AnnexState → Chars → Option (List Chars) → AnnexState
  unfolding is_none
  read_open header s line none = read_row header s line
  read_open header s line (some block) =
      if is_none (match_row line) && not (starts_illustration line)
      then record s { block = some (block ++ (line ∷ [])) }
      else read_row header (flush part s) line

  unfoldable pub read_annex_line : Chars → AnnexState → Chars → AnnexState
  read_annex_line header s line = read_open header s line s.block

  unfoldable pub read_annex : Chars → AnnexState → List Chars → AnnexState
  read_annex header s [] = flush part s
  read_annex header s (line ∷ lines) = read_annex header (read_annex_line header s line) lines

  -- What the parser makes of the lines, the first of which is the header.
  unfoldable pub annex_of : List Chars → ParsedInstrument
  unfolding header_prefix
  annex_of [] = record { nodes = []; detected_para_range = ([], []); warnings = empty_annex ∷ [] }
  annex_of (header ∷ lines) =
      let s =
        read_annex (header_prefix header)
          (record { nodes = []; warnings = []; order = 0; block = none }) lines in
      record {
        nodes = s.nodes;
        detected_para_range = (codes "annexA", codes "annexA");
        warnings = s.warnings;
      }

  unfoldable pub parse_annex : Chars → ParsedInstrument
  unfolding strip strip_end
  parse_annex text =
      annex_of (map strip_end (keep (λ l. not (is_nil (strip l))) (nonempty_lines text)))
