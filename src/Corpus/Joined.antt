-- ===== src/Corpus/Joined.antt =====
-- _join_hard_wraps of app/corpus/parsers/continuous_para.py loses no text.
use nbfc_compliance_agent.Prelude.{
  ◌≡◌, refl, Bool, true, false, not, ◌&&◌, List, [], ◌∷◌, ◌++◌, map, keep, ap, ◌∙◌, if◌then◌else◌,
}
use nbfc_compliance_agent.Prelude.Batches.{append-append}
use nbfc_compliance_agent.Prelude.Regex.{Chars, Characters}
use nbfc_compliance_agent.Prelude.Chars.{is_nil, strip, strip_end, nonempty_lines}
use nbfc_compliance_agent.Corpus.Markers.{
  starts_marker, ends_sentence, join_from, join_lines, join_hard_wraps,
}

-- The lines one after the other, each with a space after it.
pub flow : List Chars → Chars
flow [] = []
flow (line ∷ lines) = line ++ 32 ∷ flow lines

module _ (chars : Characters) where
  flow-join_from :
      (last : Chars) (lines : List Chars)
      → flow (join_from chars last lines) ≡ last ++ 32 ∷ flow lines
  unfolding flow join_from
  flow-join_from last [] = refl
  flow-join_from last (line ∷ lines) =
      go (not (ends_sentence chars (strip_end last)) && not (starts_marker chars line))
        (flow-join_from (last ++ 32 ∷ line) lines) (flow-join_from line lines)
    where
      go :
          (b : Bool)
          → flow (join_from chars (last ++ 32 ∷ line) lines)
            ≡ (last ++ 32 ∷ line) ++ 32 ∷ flow lines
          → flow (join_from chars line lines) ≡ line ++ 32 ∷ flow lines
          → flow (
              if b
              then join_from chars (last ++ 32 ∷ line) lines
              else last ∷ join_from chars line lines)
            ≡ last ++ 32 ∷ (line ++ 32 ∷ flow lines)
      go true joined apart = joined ∙ append-append last (32 ∷ line) (32 ∷ flow lines)
      go false joined apart = ap (λ l. last ++ 32 ∷ l) apart

  -- Joining hard-wrapped lines keeps the text: the joined lines, one after the other with a space
  -- after each, are the non-empty stripped lines of the text one after the other.
  pub join_keeps_text :
      (raw_text : Chars)
      → flow (join_hard_wraps chars raw_text)
        ≡ flow (keep (λ l. not (is_nil l)) (map strip (nonempty_lines raw_text)))
  unfolding join_hard_wraps join_lines flow
  join_keeps_text raw_text = go (keep (λ l. not (is_nil l)) (map strip (nonempty_lines raw_text)))
    where
      go : (lines : List Chars) → flow (join_lines chars lines) ≡ flow lines
      go [] = refl
      go (line ∷ lines) = flow-join_from line lines
