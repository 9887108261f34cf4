-- ===== src/Corpus/Nodes.antt =====
-- app/corpus/parsers/base.py: the nodes of a parsed instrument, on texts by their code points.
use nbfc_compliance_agent.Prelude.{
  ℕ, ◌+◌, ◌*◌, Bool, false, Option, none, some, List, [], ◌∷◌, ◌++◌, if◌then◌else◌,
}
use nbfc_compliance_agent.Prelude.Regex.{Chars, Characters}
use nbfc_compliance_agent.Prelude.Chars.{is_nil}
use nbfc_compliance_agent.Domain.Enums.{BorrowerClass}

pub data ChunkKind : Type 0 where
  clause table_row illustration definition : ChunkKind

pub record ClauseNode : Type 0 where
  pub chapter : Option Chars
  pub chapter_title : Option Chars
  pub section_letter : Option Chars
  pub section_title : Option Chars
  pub para_number : Chars
  pub para_sort : ℕ
  pub level2_label : Option Chars
  pub level3_label : Option Chars
  pub heading : Option Chars
  pub text : Chars
  pub order : ℕ
  pub chunk_kind : ChunkKind
  pub applies_to_borrower_classes : List BorrowerClass

pub data Warning : Type 0 where
  empty_annex : Warning
  chapter_without_paragraphs : (chapter : Chars) → Warning
  does_not_increment : (para_number : Chars) (previous : ℕ) → Warning
  no_sub_markers : (para_number : Chars) → Warning
  roman_skips : (label : Chars) (previous : ℕ) → Warning
  unrecognised_line : (line : Chars) → Warning

pub record ParsedInstrument : Type 0 where
  pub nodes : List ClauseNode
  pub detected_para_range : Chars × Chars
  pub warnings : List Warning

first_is_digit : Characters → Chars → Bool
first_is_digit chars [] = false
first_is_digit chars (c ∷ cs) = chars.is_digit c

-- `if label:` is false for None and for the empty text.
with_label : Option Chars → Chars → Chars
with_label none path = path
with_label (some label) path = if is_nil label then path else path ++ b'/' ∷ label

unfoldable pub clause_path : Characters → ClauseNode → Chars
unfolding first_is_digit with_label is_nil
clause_path chars n = with_label n.level3_label (
    with_label n.level2_label
      (if first_is_digit chars n.para_number then b'p' ∷ n.para_number else n.para_number))

-- `int` of the digits at the start, from the value of those before.
leading_value : Characters → ℕ → Chars → ℕ
leading_value chars v [] = v
leading_value chars v (c ∷ cs) =
    let more = leading_value chars (v * 10 + chars.digit_value c) cs in
    if chars.is_digit c then more else v

unfoldable pub para_sort_key : Characters → Chars → ℕ
unfolding leading_value
para_sort_key chars para_number = leading_value chars 0 para_number
