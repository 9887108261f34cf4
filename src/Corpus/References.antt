-- ===== src/Corpus/References.antt =====
-- app/corpus/references.py: the edges from the clauses of an instrument to other instruments. Whether a
-- title pattern, a regular expression of the configuration, is found in a text is a parameter.
use nbfc_compliance_agent.Prelude.{
  ◌==◌, ◌≡◌, refl, Bool, true, not, ◌&&◌, ◌||◌, List, [], ◌∷◌, ◌++◌, map, any, is_none, arith,
  if◌then◌else◌,
}
use nbfc_compliance_agent.Prelude.Regex.{
  Chars, Characters, Matcher, take, one, ◌then◌, maybe, between, many, some_of, times, search_re,
}
use nbfc_compliance_agent.Prelude.Chars.{codes, is_space, contains}
use nbfc_compliance_agent.Corpus.Nodes.{ClauseNode, clause_path}
use nbfc_compliance_agent.Corpus.Markers.{any_case, any_case_between}

pub data ReferenceKind : Type 0 where
  repeals amends incorporates see_also : ReferenceKind

pub record ReferenceEdge : Type 0 where
  pub from_clause_path : Chars
  pub to_instrument_code : Chars
  pub reference_text : Chars
  pub reference_kind : ReferenceKind

module _ (chars : Characters) where
  -- `[A-Z]{2,4}` with IGNORECASE
  unfoldable pub letters : Matcher
  letters = between 2 4 (any_case_between 97 122)

  unfoldable pub dot : Matcher
  dot = one (λ c. c == b'.')

  unfoldable pub decimal : Matcher
  decimal = one chars.is_decimal

  unfoldable pub slash : Matcher
  slash = one (λ c. c == b'/')

  -- CIRCULAR_RE
  unfoldable pub quotes_circular : Chars → Bool
  unfolding letters dot decimal slash any_case is_space is_none
  quotes_circular text = not (
      is_none (
        search_re
          (maybe (
              any_case (codes "circular")
              then some_of (one is_space)
              then any_case (codes "no")
              then maybe dot
              then many (one is_space))
            then letters
            then many (dot then letters)
            then any_case (codes ".rec.")
            then some_of decimal
            then slash
            then some_of (one (λ c. chars.is_decimal c || c == b'.'))
            then slash
            then times 4 decimal
            then one (λ c. c == b'-')
            then times 2 decimal)
          text))

  has_any : List Chars → Chars → Bool
  has_any phrases text = any (λ p. contains p text) phrases

  -- The kind of an edge, by the words of the clause.
  unfoldable pub kind_of : Bool → Chars → ReferenceKind
  unfolding has_any
  kind_of instrument_is_amendment text =
      let text_lower = chars.lower text in
      if has_any (codes "repeal" ∷ codes "repealed" ∷ codes "supersede" ∷ codes "superseded" ∷ [])
        text_lower
      then repeals
      else if instrument_is_amendment
      then amends
      else if has_any
          (codes "as per instructions contained in"
            ∷ codes "in terms of"
            ∷ codes "shall comply with"
            ∷ [])
          text_lower
      then incorporates
      else see_also

  module _ (search_title : Chars → Chars → Bool) (instrument_is_amendment : Bool) where
    edge : ClauseNode → Chars → ReferenceEdge
    edge n code = record {
      from_clause_path = clause_path chars n;
      to_instrument_code = code;
      reference_text = take 300 n.text;
      reference_kind = kind_of instrument_is_amendment n.text;
    }

    -- The edges of one clause.
    unfoldable pub edges_of : ClauseNode → List (Chars × List Chars) → List ReferenceEdge
    unfolding edge
    edges_of n [] = []
    edges_of n ((code, title_patterns) ∷ known) =
        let rest = edges_of n known in
        let matched_title = any (λ p. search_title p n.text) title_patterns in
        if not matched_title && not (quotes_circular n.text) then rest else edge n code ∷ rest

    unfoldable pub extract_references :
        List ClauseNode → List (Chars × List Chars) → List ReferenceEdge
    extract_references [] known = []
    extract_references (n ∷ nodes) known = edges_of n known ++ extract_references nodes known

    -- A clause that quotes any circular number gets an edge to every known instrument, whichever of
    -- them the number belongs to.
    pub circular_reaches_all :
        (n : ClauseNode) (known : List (Chars × List Chars))
        → quotes_circular n.text ≡ true
        → map (λ (e : ReferenceEdge). e.to_instrument_code) (edges_of n known)
          ≡ map (λ (k : Chars × List Chars). k.0) known
    unfolding edges_of edge
    circular_reaches_all n [] quoted = refl
    circular_reaches_all n ((code, title_patterns) ∷ known) quoted =
        ground (arith, quoted, circular_reaches_all n known quoted)
