-- ===== src/Corpus/Tests.antt =====
-- The corpus (app/corpus) on a short instrument.
use nbfc_compliance_agent.Prelude.{
  ◌≤◌, ℕ, ◌≡◌, refl, true, false, not, none, some, List, [], ◌∷◌, length, all, keep, map, is_none,
  All, arith,
}
use nbfc_compliance_agent.Prelude.Raises.{returned}
use nbfc_compliance_agent.Prelude.Batches.{batches, fill, flatten}
use nbfc_compliance_agent.Prelude.Regex.{
  Chars, one, ◌then◌, ◌or◌, empty, maybe, up_to, times, between, loop, many, some_of, search_from,
  search_re, fold,
}
use nbfc_compliance_agent.Prelude.Chars.{
  codes, is_space, is_nil, strip, join, lines_from, splitlines, split_from, nonempty_lines,
}
use nbfc_compliance_agent.Domain.Enums.{InstrumentStatus}
use nbfc_compliance_agent.Corpus.Nodes.{ChunkKind, ClauseNode, ParsedInstrument}
use nbfc_compliance_agent.Corpus.Markers.{any_case, any_case_between, join_lines, join_hard_wraps}
use nbfc_compliance_agent.Corpus.Parser.{roman, start}
use nbfc_compliance_agent.Corpus.Parse.{read_lines, parsed, parse}
use nbfc_compliance_agent.Corpus.Tree.{Numbered, Rooted}
use nbfc_compliance_agent.Corpus.Instrument.{parse_total, parse_tree}
use nbfc_compliance_agent.Corpus.Joined.{flow, join_keeps_text}
use nbfc_compliance_agent.Corpus.Stems.{Stem, parsed-Stem}
use nbfc_compliance_agent.Corpus.Chunk.{chunks_from, chunk}
use nbfc_compliance_agent.Corpus.Instruments.{
  InstrumentSource, clean, parse_split, parse_instrument, apply_para_overrides,
}
use nbfc_compliance_agent.Corpus.Merged.{parse_instrument_total}
use nbfc_compliance_agent.Corpus.References.{
  ReferenceEdge, letters, dot, decimal, slash, quotes_circular, edges_of, extract_references,
  circular_reaches_all,
}
use nbfc_compliance_agent.Corpus.Embed.{
  retry, embed_batch, put_batch, embed_batches, checked, embed_texts, embed_texts_complete,
  Answered,
}
use nbfc_compliance_agent.Corpus.Snapshot.{
  deactivate, activate, activate_snapshot, get_active_snapshot_id, Unique,
}
use nbfc_compliance_agent.Corpus.Ingest.{
  CorpusDb, parse_one, parse_all, clause_rows, embeddings, zip_strict, reference_rows,
  all_reference_rows, ingest,
}
use nbfc_compliance_agent.Corpus.Ingested.{ingest_activation}
use nbfc_compliance_agent.Extract.Tests.{ascii}
use nbfc_compliance_agent.Llm.Client.{Result, ok}

abbrev directions : Chars
directions =
    codes
      "CHAPTER II - Lending\n8. Disclosures to the borrower.\ni. A statement shall be given\nbefore execution;\n(a) in a language understood"

-- The parsed directions.
abbrev parsed_directions : ParsedInstrument
parsed_directions = (parse_total ascii roman directions).0

parse_tree_example :
    Numbered 0 parsed_directions.nodes
    × All (Rooted parsed_directions.nodes) parsed_directions.nodes
parse_tree_example =
    parse_tree ascii roman directions parsed_directions (parse_total ascii roman directions).1

join_keeps_text_example :
    flow (join_hard_wraps ascii directions)
    ≡ flow (keep (λ l. not (is_nil l)) (map strip (nonempty_lines directions)))
join_keeps_text_example = join_keeps_text ascii directions

parsed-Stem_example :
    All
      (λ (n : ClauseNode).
        (l : Chars)
        → n.level2_label ≡ some l
        → n.level3_label ≡ none
        → Stem parsed_directions.nodes n)
      parsed_directions.nodes
parsed-Stem_example =
    parsed-Stem ascii roman directions parsed_directions (parse_total ascii roman directions).1

abbrev source : InstrumentSource
source = record {
  code = codes "DL2025";
  source_url = "file:dl2025.txt";
  status = InstrumentStatus.in_force;
  validity = record { effective_from = some 739000; effective_to = none };
  citable = true;
  dialect = roman;
  has_annex = true;
  para_overrides = [];
}

parse_instrument_total_example :
    (nodes : List ClauseNode) × (parse_instrument ascii source directions ≡ returned nodes)
    × Numbered 0 nodes
parse_instrument_total_example = parse_instrument_total ascii source directions

abbrev texts : List Chars
texts = codes "a" ∷ codes "b" ∷ []

-- A vector with its dimension for a number.
abbrev ask : List Chars → ℕ → Result (List ℕ)
ask batch attempt = ok (map (λ t. 3) batch)

abbrev two_vectors : List ℕ
two_vectors = 3 ∷ 3 ∷ []

embed_texts_complete_example :
    (length two_vectors ≡ length texts)
    × All (λ v. v ≡ 3) two_vectors
    × ((bs : List (List Chars)) × (flatten bs ≡ texts)
        × All (λ batch. length batch ≤ 2) bs
        × Answered (λ v. v) ask 3 2 bs two_vectors)
unfolding embed_texts embed_batches embed_batch retry put_batch checked batches fill all
embed_texts_complete_example = embed_texts_complete (λ v. v) ask 3 2 texts two_vectors refl

abbrev circular_node : ClauseNode
circular_node = record {
  chapter = none;
  chapter_title = none;
  section_letter = none;
  section_title = none;
  para_number = codes "3";
  para_sort = 3;
  level2_label = none;
  level3_label = none;
  heading = none;
  text = codes "See DOR.REC.1/2.3/2024-25";
  order = 0;
  chunk_kind = ChunkKind.clause;
  applies_to_borrower_classes = [];
}

abbrev known : List (Chars × List Chars)
known = (codes "KFS2024", []) ∷ (codes "RBC2025", []) ∷ []

circular_reaches_all_example :
    map
      (λ (e : ReferenceEdge). e.to_instrument_code)
      (edges_of ascii (λ p t. false) false circular_node known)
    ≡ codes "KFS2024" ∷ codes "RBC2025" ∷ []
unfolding quotes_circular letters dot decimal slash any_case any_case_between is_space is_none
    search_re search_from maybe many some_of loop between up_to times one ◌then◌ ◌or◌ empty fold
    codes
circular_reaches_all_example =
    circular_reaches_all ascii (λ p t. false) false circular_node known refl

-- A source without annex or overrides, whose text is empty.
abbrev plain_source : InstrumentSource
plain_source = record source { has_annex = false }

-- A database with one snapshot, which is active.
abbrev db : CorpusDb ℕ
db = record {
  snapshots = record { id = 1; is_active = true; chunk_count = 3 } ∷ [];
  clauses = [];
  references = [];
}

ingest_activation_example :
    get_active_snapshot_id (
      record { id = 1; is_active = false; chunk_count = 3 }
      ∷ record { id = 2; is_active = true; chunk_count = 0 }
      ∷ [])
    ≡ returned (some 2)
unfolding Unique ingest parse_all parse_one parse_instrument clean splitlines lines_from join is_nil
    keep parse_split parse join_hard_wraps join_lines nonempty_lines split_from read_lines start
    parsed apply_para_overrides clause_rows chunk chunks_from embeddings zip_strict
    activate_snapshot activate deactivate all_reference_rows reference_rows extract_references
ingest_activation_example =
    ingest_activation ascii (λ p t. false) known (λ url. returned []) none (plain_source ∷ []) true
      2 db
      (record {
        snapshots =
            record { id = 1; is_active = false; chunk_count = 3 }
            ∷ record { id = 2; is_active = true; chunk_count = 0 }
            ∷ [];
        clauses = [];
        references = [];
      })
      (tt, tt) ((λ e. absurd (ground (arith, e))), tt) refl
