-- ===== src/Corpus/Parser.antt =====
-- ContinuousParaParser of app/corpus/parsers/continuous_para.py. The loop's variables are a state; a
-- handler for each kind of line, tried in the order of the code. `state.stack`, which the code never
-- reads, is left out.
use nbfc_compliance_agent.Prelude.{
  ℕ, zero, suc, ◌+◌, ◌==◌, ltb, Bool, not, ◌&&◌, ◌||◌, Option, none, some, List, [], ◌∷◌, ◌++◌,
  length, any, if◌then◌else◌,
}
use nbfc_compliance_agent.Prelude.Raises.{
  Raises, returned, raised, assertion_error, index_error, ◌>>=◌,
}
use nbfc_compliance_agent.Prelude.Regex.{Chars, Characters}
use nbfc_compliance_agent.Prelude.Chars.{codes, is_nil, strip, contains, same}
use nbfc_compliance_agent.Domain.Enums.{BorrowerClass, microfinance}
use nbfc_compliance_agent.Corpus.Nodes.{
  ChunkKind, ClauseNode, Warning, chapter_without_paragraphs, does_not_increment, no_sub_markers,
  roman_skips, para_sort_key,
}
use nbfc_compliance_agent.Corpus.Markers.{Marked}

pub data Dialect : Type 0 where
  roman paren_numeral : Dialect

pub record ParserState : Type 0 where
  pub chapter : Option Chars
  pub chapter_title : Option Chars
  pub section_letter : Option Chars
  pub section_title : Option Chars
  pub borrower_scope : List BorrowerClass
  pub nodes : List ClauseNode
  pub warnings : List Warning
  pub order : ℕ
  pub last_para_num : Option ℕ
  pub last_level2_val : Option ℕ
  pub chapter_para_count : ℕ
  pub open_para_idx : Option ℕ
  pub open_level2_idx : Option ℕ

unfoldable pub start : ParserState
start = record {
  chapter = none;
  chapter_title = none;
  section_letter = none;
  section_title = none;
  borrower_scope = [];
  nodes = [];
  warnings = [];
  order = 0;
  last_para_num = none;
  last_level2_val = none;
  chapter_para_count = 0;
  open_para_idx = none;
  open_level2_idx = none;
}

-- `nodes[i]`
unfoldable pub get_elem? : List ClauseNode → ℕ → Option ClauseNode
get_elem? [] i = none
get_elem? (n ∷ nodes) zero = some n
get_elem? (n ∷ nodes) (suc i) = get_elem? nodes i

-- `assert idx is not None`, `nodes[idx]`
unfoldable pub parent_at : Option ℕ → List ClauseNode → Raises ClauseNode
parent_at none nodes = raised (assertion_error "")
parent_at (some i) nodes = elim (get_elem? nodes i) [
  | none ↦ raised index_error
  | some n ↦ returned n
]

-- `… or None`
or_none : Chars → Option Chars
or_none s = if is_nil s then none else some s

-- The warning of a chapter that ends without a paragraph.
unfoldable pub close_chapter : ParserState → List Warning
close_chapter s = elim s.chapter [
  | none ↦ s.warnings
  | some c ↦
      if s.chapter_para_count == 0
      then s.warnings ++ (chapter_without_paragraphs c ∷ [])
      else s.warnings
]

unfoldable pub on_chapter : ParserState → Marked → ParserState
unfolding close_chapter or_none strip
on_chapter s m = record s {
  warnings = close_chapter s;
  chapter = some m.label;
  chapter_title = or_none (strip m.body);
  chapter_para_count = 0;
  open_para_idx = none;
  open_level2_idx = none;
}

-- _MICROFINANCE_SECTION_MARKERS
is_microfinance_title : Characters → Chars → Bool
is_microfinance_title chars title =
    any (λ marker. contains (chars.lower marker) (chars.lower title))
      (codes "microfinance" ∷ codes "MFI conduct" ∷ codes "micro-finance" ∷ [])

unfoldable pub on_section : Characters → ParserState → Marked → ParserState
unfolding is_microfinance_title strip
on_section chars s m = record s {
  section_letter = some m.label;
  section_title = some (strip m.body);
  borrower_scope = if is_microfinance_title chars (strip m.body) then microfinance ∷ [] else [];
  open_para_idx = none;
  open_level2_idx = none;
}

para_warnings : ParserState → Marked → ℕ → List Warning
para_warnings s m para_sort =
    elim s.last_para_num [
      | none ↦ s.warnings
      | some last ↦
          if para_sort == last || para_sort == last + 1
          then s.warnings
          else s.warnings ++ (does_not_increment m.label last ∷ [])
    ]
    ++ (if ltb 4000 (length m.body) && not (any (λ c. c == 10) m.body)
        then no_sub_markers m.label ∷ []
        else [])

unfoldable pub para_node : ParserState → Marked → ℕ → ClauseNode
para_node s m para_sort = record {
  chapter = s.chapter;
  chapter_title = s.chapter_title;
  section_letter = s.section_letter;
  section_title = s.section_title;
  para_number = m.label;
  para_sort = para_sort;
  level2_label = none;
  level3_label = none;
  heading = none;
  text = m.body;
  order = s.order;
  chunk_kind = ChunkKind.clause;
  applies_to_borrower_classes = s.borrower_scope;
}

unfoldable pub on_para : Characters → ParserState → Marked → ParserState
unfolding para_warnings
on_para chars s m =
    let para_sort = para_sort_key chars m.label in
    record s {
      warnings = para_warnings s m para_sort;
      last_para_num = some para_sort;
      last_level2_val = none;
      chapter_para_count = s.chapter_para_count + 1;
      nodes = s.nodes ++ (para_node s m para_sort ∷ []);
      open_para_idx = some (length s.nodes);
      open_level2_idx = none;
      order = s.order + 1;
    }

-- A node under its parent, with its own labels and text.
unfoldable pub child_node :
    ParserState → ClauseNode → Option Chars → Option Chars → Chars → ClauseNode
child_node s parent level2_label level3_label text = record {
  chapter = parent.chapter;
  chapter_title = parent.chapter_title;
  section_letter = parent.section_letter;
  section_title = parent.section_title;
  para_number = parent.para_number;
  para_sort = parent.para_sort;
  level2_label = level2_label;
  level3_label = level3_label;
  heading = none;
  text = text;
  order = s.order;
  chunk_kind = ChunkKind.clause;
  applies_to_borrower_classes = s.borrower_scope;
}

-- _ROMAN_VALUES.get
roman_value : Chars → List (Chars × ℕ) → Option ℕ
roman_value label [] = none
roman_value label ((l, v) ∷ values) = if same l label then some v else roman_value label values

abbrev roman_values : List (Chars × ℕ)
roman_values =
    (codes "i", 1)
    ∷ (codes "ii", 2)
    ∷ (codes "iii", 3)
    ∷ (codes "iv", 4)
    ∷ (codes "v", 5)
    ∷ (codes "vi", 6)
    ∷ (codes "vii", 7)
    ∷ (codes "viii", 8)
    ∷ (codes "ix", 9)
    ∷ (codes "x", 10)
    ∷ (codes "xi", 11)
    ∷ (codes "xii", 12)
    ∷ (codes "xiii", 13)
    ∷ (codes "xiv", 14)
    ∷ (codes "xv", 15)
    ∷ []

skip_warning : Chars → Option ℕ → Option ℕ → List Warning
skip_warning label_raw (some v) (some last) =
    if v == last + 1 then [] else roman_skips label_raw last ∷ []
skip_warning label_raw _ _ = []

-- The warning and the last value, which only the roman dialect keeps.
unfoldable pub count_roman : Dialect → Chars → Chars → ParserState → ParserState
unfolding roman_value skip_warning
count_roman roman label_raw label s =
    let v = roman_value label roman_values in
    record s {
      warnings = s.warnings ++ skip_warning label_raw v s.last_level2_val;
      last_level2_val = v;
    }
count_roman paren_numeral label_raw label s = s

unfoldable pub on_level2 : Characters → Dialect → ParserState → Marked → Raises ParserState
unfolding count_roman
on_level2 chars dialect s m =
    let label = chars.lower m.label in
    parent_at s.open_para_idx s.nodes >>= λ parent.
    returned (record (count_roman dialect m.label label s) {
      nodes = s.nodes ++ (child_node s parent (some label) none m.body ∷ []);
      open_level2_idx = some (length s.nodes);
      order = s.order + 1;
    })

unfoldable pub on_level3 : ParserState → Marked → Raises ParserState
on_level3 s m = parent_at s.open_level2_idx s.nodes >>= λ parent. returned (record s {
  nodes = s.nodes ++ (child_node s parent parent.level2_label (some m.label) m.body ∷ []);
  order = s.order + 1;
})
