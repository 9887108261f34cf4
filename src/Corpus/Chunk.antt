-- ===== src/Corpus/Chunk.antt =====
-- app/corpus/chunk.py: one chunk for each node, the short ones with the first sentence of the parent
-- before them.
use nbfc_compliance_agent.Prelude.{
  ℕ, ◌+◌, ◌-◌, ◌==◌, ltb, Bool, true, false, ◌&&◌, Option, none, some, List, [], ◌∷◌, ◌++◌, length,
  any, if◌then◌else◌,
}
use nbfc_compliance_agent.Prelude.Regex.{
  Chars, Matcher, take, one, ◌then◌, ◌or◌, end_of_line, search_re,
}
use nbfc_compliance_agent.Prelude.Chars.{codes, is_space, strip, same, count_words}
use nbfc_compliance_agent.Corpus.Nodes.{
  ChunkKind, clause, table_row, illustration, definition, ClauseNode,
}

pub data ChunkStrategy : Type 0 where
  leaf leaf_stem illustration_whole table_row_whole : ChunkStrategy

pub record ClauseChunk : Type 0 where
  pub node : ClauseNode
  pub text_with_stem : Chars
  pub token_count : ℕ
  pub chunk_strategy : ChunkStrategy
  pub chunk_index : ℕ

abbrev pub stem_min_tokens : ℕ
stem_min_tokens = 40

abbrev pub stem_max_chars : ℕ
stem_max_chars = 200

-- _SENTENCE_END_RE
sentence_end : Matcher
unfolding is_space
sentence_end = one (λ c. any (λ d. d == c) (codes ".!?")) then (one is_space or end_of_line)

-- _first_sentence
unfoldable pub first_sentence : Chars → Chars
unfolding sentence_end strip
first_sentence text = elim (search_re sentence_end text) [
  | none ↦ take stem_max_chars text
  | some p ↦ take stem_max_chars (strip (take (length text - length p.rest) text))
]

unfoldable pub same_label : Option Chars → Option Chars → Bool
same_label none none = true
same_label (some l) (some m) = same l m
same_label _ _ = false

unfoldable pub has_key : Chars → Option Chars → Option Chars → ClauseNode → Bool
has_key para_number level2 level3 n =
    same n.para_number para_number
    && (same_label n.level2_label level2 && same_label n.level3_label level3)

-- `by_key.get(key)`: the dict keeps the last node of a key.
unfoldable pub by_key : Chars → Option Chars → Option Chars → List ClauseNode → Option ClauseNode
by_key para_number level2 level3 [] = none
by_key para_number level2 level3 (n ∷ nodes) =
    let later = by_key para_number level2 level3 nodes in
    elim later [
      | some m ↦ some m
      | none ↦ if has_key para_number level2 level3 n then some n else none
    ]

unfoldable pub parent_of : List ClauseNode → ClauseNode → Option ClauseNode
parent_of nodes n = elim n.level3_label [
  | some _ ↦ by_key n.para_number n.level2_label none nodes
  | none ↦ elim n.level2_label [ some _ ↦ by_key n.para_number none none nodes | none ↦ none ]
]

-- The text and the strategy of a clause with the number of words and the parent.
unfoldable pub with_stem : ℕ → Option ClauseNode → Chars → Chars × ChunkStrategy
with_stem tcount none text = (text, leaf)
with_stem tcount (some parent) text =
    if ltb tcount stem_min_tokens
    then (strip (first_sentence parent.text ++ 32 ∷ text), leaf_stem)
    else (text, leaf)

unfoldable pub chunk_text : List ClauseNode → ClauseNode → ChunkKind → Chars × ChunkStrategy
chunk_text nodes n illustration = (n.text, illustration_whole)
chunk_text nodes n table_row = (n.text, table_row_whole)
chunk_text nodes n clause = with_stem (count_words n.text) (parent_of nodes n) n.text
chunk_text nodes n definition = with_stem (count_words n.text) (parent_of nodes n) n.text

unfoldable pub chunk_of : List ClauseNode → ℕ → ClauseNode → ClauseChunk
chunk_of nodes idx n = record {
  node = n;
  text_with_stem = (chunk_text nodes n n.chunk_kind).0;
  token_count = count_words n.text;
  chunk_strategy = (chunk_text nodes n n.chunk_kind).1;
  chunk_index = idx;
}

unfoldable pub chunks_from : List ClauseNode → ℕ → List ClauseNode → List ClauseChunk
chunks_from nodes idx [] = []
chunks_from nodes idx (n ∷ rest) = chunk_of nodes idx n ∷ chunks_from nodes (idx + 1) rest

unfoldable pub chunk : List ClauseNode → List ClauseChunk
chunk nodes = chunks_from nodes 0 nodes
