-- ===== src/Retrieve/Rows.antt =====
-- The lists that app/retrieve/service.py builds of rows, and the path expansion of
-- app/corpus/pinning.py.
use Prim.Native.Char.{code}
use nbfc_compliance_agent.Prelude.{
  ℕ, zero, suc, ◌+◌, ◌==◌, String, Bool, false, ◌&&◌, Option, none, some, List, [], ◌∷◌, ◌++◌, keep,
  member, str_eq, if◌then◌else◌,
}
use nbfc_compliance_agent.Domain.Enums.{RetrievalSource, pinned}
use nbfc_compliance_agent.Domain.Clauses.{ClauseCandidate}
use nbfc_compliance_agent.Retrieve.Corpus.{Row, candidate}

-- `LIMIT k` and `[:k]`
unfoldable pub limit {ℓ} : {A : Type ℓ} → ℕ → List A → List A
limit zero xs = []
limit (suc k) [] = []
limit (suc k) (x ∷ xs) = x ∷ limit k xs

-- `enumerate(rows, start=rank)`
unfoldable pub enumerate : RetrievalSource → ℕ → List Row → List ClauseCandidate
enumerate source rank [] = []
enumerate source rank (r ∷ rows) = candidate source rank r ∷ enumerate source (rank + 1) rows

-- `p.startswith(pinned_path + "/")`
unfoldable pub is_descendant : String → String → Bool
is_descendant String.[] String.[] = false
is_descendant String.[] (String.◌∷◌ d p) = code d == b'/'
is_descendant (String.◌∷◌ c q) String.[] = false
is_descendant (String.◌∷◌ c q) (String.◌∷◌ d p) = code c == code d && is_descendant q p

unfoldable pub expand_parent_to_descendants : String → List String → List String
expand_parent_to_descendants pinned_path all_clause_paths =
    pinned_path ∷ keep (is_descendant pinned_path) all_clause_paths

-- `list(dict.fromkeys(paths))`, with the paths that came before.
unfoldable pub dedupe : List String → List String → List String
dedupe seen [] = []
dedupe seen (p ∷ ps) =
    let skip = dedupe seen ps in
    let take_it = p ∷ dedupe (p ∷ seen) ps in if member p seen then skip else take_it

unfoldable pub expand_all : List String → List String → List String
expand_all [] all_paths = []
expand_all (p ∷ ps) all_paths = expand_parent_to_descendants p all_paths ++ expand_all ps all_paths

-- `{r.clause_path: r for r in rows}.get(path)`: the last row wins.
unfoldable pub row_at : List Row → String → Option Row
row_at [] path = none
row_at (r ∷ rows) path =
    let rest = row_at rows path in
    elim rest [
      | some later ↦ some later
      | none ↦ if str_eq r.clause.clause_path path then some r else none
    ]

unfoldable pub ranked_pins : List Row → ℕ → List String → List ClauseCandidate
ranked_pins rows rank [] = []
ranked_pins rows rank (p ∷ ps) =
    let rest = ranked_pins rows (rank + 1) ps in
    elim (row_at rows p) [ none ↦ rest | some r ↦ candidate pinned rank r ∷ rest ]
