-- ===== src/Corpus/Instruments.antt =====
-- The instruments of app/corpus/sources.py, and what app/corpus/service.py makes of one: its nodes with
-- the annex after them, the overrides of its paragraphs, and their dates.
use nbfc_compliance_agent.Prelude.{
  ℕ, zero, suc, ◌+◌, String, Bool, true, false, not, Option, none, some, List, [], ◌∷◌, ◌++◌,
  length, map, keep, any, if◌then◌else◌,
}
use nbfc_compliance_agent.Prelude.Raises.{
  Raises, returned, raised, value_error, corpus_ingest_error, ◌>>=◌,
}
use nbfc_compliance_agent.Prelude.Regex.{Chars, Characters}
use nbfc_compliance_agent.Prelude.Chars.{
  codes, is_nil, strip, strip_start, starts_with, nonempty_lines, splitlines, join, same,
}
use nbfc_compliance_agent.Domain.Enums.{
  InstrumentStatus, in_force, notified_not_yet_effective, draft, superseded,
}
use nbfc_compliance_agent.Domain.Facts.{Date}
use nbfc_compliance_agent.Corpus.Nodes.{ClauseNode}
use nbfc_compliance_agent.Corpus.Parser.{Dialect}
use nbfc_compliance_agent.Corpus.Parse.{parse}
use nbfc_compliance_agent.Corpus.Annex.{parse_annex}

-- The start and the end of a validity.
pub record Validity : Type 0 where
  pub effective_from : Option Date
  pub effective_to : Option Date

pub record InstrumentSource : Type 0 where
  pub code : Chars
  pub source_url : String
  pub status : InstrumentStatus
  pub validity : Validity
  pub citable : Bool
  pub dialect : Dialect
  pub has_annex : Bool
  pub para_overrides : List (Chars × Validity)

-- _status_and_effective_from_agree
unfoldable pub status_agrees : InstrumentStatus → Option Date → Bool → Raises (Unit {0})
status_agrees draft (some from) citable = raised value_error
status_agrees draft none true = raised value_error
status_agrees draft none false = returned tt
status_agrees notified_not_yet_effective none citable = raised value_error
status_agrees notified_not_yet_effective (some from) citable = returned tt
status_agrees in_force from citable = returned tt
status_agrees superseded from citable = returned tt

-- The banner lines are left out.
unfoldable pub clean : Chars → Chars
clean raw_text =
    join (10 ∷ [])
      (keep (λ l. not (starts_with (0x26a0 ∷ []) (strip_start l))) (splitlines raw_text))

unfoldable pub drop : ℕ → Chars → Chars
drop zero cs = cs
drop (suc n) [] = []
drop (suc n) (c ∷ cs) = drop n cs

-- `text.split(sep, 1)`, when the text has the separator; the argument before is what stands before it.
unfoldable pub split_once : Chars → Chars → Chars → Option (Chars × Chars)
unfolding drop
split_once sep before [] = none
split_once sep before (c ∷ cs) = elim (starts_with sep (c ∷ cs)) [
  | true ↦ some (before, drop (length sep) (c ∷ cs))
  | false ↦ split_once sep (before ++ (c ∷ [])) cs
]

abbrev annex_delimiter : String
annex_delimiter = "=== ANNEX A ==="

-- A line that begins the header of a part.
begins_part : Characters → Chars → Bool
begins_part chars line = starts_with (codes "sl no") (chars.lower (strip line))

-- The loop over the lines, with the part that is open.
unfoldable pub parts_from : Characters → List Chars → List Chars → List (List Chars)
unfolding begins_part
parts_from chars [] [] = []
parts_from chars (l ∷ current) [] = (l ∷ current) ∷ []
parts_from chars [] (line ∷ lines) = parts_from chars (line ∷ []) lines
parts_from chars (l ∷ current) (line ∷ lines) = elim (begins_part chars line) [
  | true ↦ (l ∷ current) ∷ parts_from chars (line ∷ []) lines
  | false ↦ parts_from chars ((l ∷ current) ++ (line ∷ [])) lines
]

-- _split_annex_parts
unfoldable pub split_annex_parts : Characters → Chars → List Chars
split_annex_parts chars annex_text =
    map (join (10 ∷ []))
      (parts_from chars [] (keep (λ l. not (is_nil (strip l))) (nonempty_lines annex_text)))

-- The parts of the annex after the nodes, their orders moved on.
unfoldable pub with_annexes : Characters → List ClauseNode → ℕ → List Chars → List ClauseNode
with_annexes chars nodes part [] = nodes
with_annexes chars nodes part (block ∷ blocks) =
    let order_base = length nodes in
    let added =
      map (λ (n : ClauseNode). record n { order = n.order + order_base })
        (parse_annex chars (chars.decimal part) block).nodes in
    with_annexes chars (nodes ++ added) (part + 1) blocks

-- The nodes of the text, split at the annex if there is one.
unfoldable pub parse_split :
    Characters → Dialect → Chars → Option (Chars × Chars) → Raises (List ClauseNode)
parse_split chars dialect cleaned none = parse chars dialect cleaned >>= λ p. returned p.nodes
parse_split chars dialect cleaned (some (main_text, annex_text)) =
    parse chars dialect main_text >>= λ p.
    returned (with_annexes chars p.nodes 1 (split_annex_parts chars annex_text))

-- _parse_instrument
unfoldable pub parse_instrument : Characters → InstrumentSource → Chars → Raises (List ClauseNode)
unfolding clean split_once
parse_instrument chars inst raw_text =
    let cleaned = clean raw_text in
    parse_split chars inst.dialect cleaned
      (if inst.has_annex then split_once (codes annex_delimiter) [] cleaned else none)

unfoldable pub has_para : List ClauseNode → Chars → Bool
has_para nodes para_number = any (λ (n : ClauseNode). same n.para_number para_number) nodes

-- _apply_para_overrides: a dict, like `para_overrides`, as the list of its items.
unfoldable pub apply_para_overrides :
    List ClauseNode → List (Chars × Validity) → Raises (List (Chars × Validity))
unfolding has_para
apply_para_overrides nodes [] = returned []
apply_para_overrides nodes ((para_number, validity) ∷ overrides) =
    if has_para nodes para_number
    then (apply_para_overrides nodes overrides >>= λ resolved.
        returned ((para_number, validity) ∷ resolved))
    else raised corpus_ingest_error

-- _effective_window
unfoldable pub effective_window : ClauseNode → InstrumentSource → List (Chars × Validity) → Validity
effective_window n inst [] = inst.validity
effective_window n inst ((para_number, validity) ∷ overrides) =
    if same para_number n.para_number then validity else effective_window n inst overrides
