-- ===== src/Corpus/Embed.antt =====
-- app/corpus/embed.py: the embedding of the chunks' texts in batches, each tried four times. What the
-- client's `embed` gives for a batch at an attempt is a parameter.
use nbfc_compliance_agent.Prelude.{
  ℕ, zero, suc, ◌+◌, ◌==◌, ◌≡◌, ◌≤◌, ◌<◌, refl, inl, inr, Bool, true, false, Bool-cases, List, [],
  ◌∷◌, ◌++◌, length, length-append, all, All, All-append, subst, ap, arith, if◌then◌else◌,
}
use nbfc_compliance_agent.Prelude.Regex.{Chars}
use nbfc_compliance_agent.Prelude.Batches.{batches, flatten, flatten-batches, batches-bounded}
use nbfc_compliance_agent.Llm.Client.{
  LlmError, circuit_open, transient_llm_error, permanent_llm_error, structured_output_error,
  uncaught, Result, ok, err,
}

-- What `embed_texts` returns or raises: EmbeddingError, or another error of the client.
pub data Embedded (V : Type 0) : Type 0 where
  vectors : List V → Embedded V
  embedding_error : Embedded V
  other_error : LlmError → Embedded V

-- `except TransientLLMError`
unfoldable pub is_transient : LlmError → Bool
is_transient circuit_open = true
is_transient transient_llm_error = true
is_transient permanent_llm_error = false
is_transient structured_output_error = false
is_transient uncaught = false

module _ {V : Type 0} (dimension : V → ℕ) (ask : List Chars → ℕ → Result (List V))
    (embedding_dimension batch_size : ℕ) where
  -- The attempts that are left, from the attempt on; the last error is raised again.
  unfoldable pub retry : ℕ → ℕ → List Chars → Result (List V) → Result (List V)
  retry zero attempt batch result = result
  retry (suc left) attempt batch (ok vs) = ok vs
  retry (suc left) attempt batch (err e) =
      let again = retry left (attempt + 1) batch (ask batch (attempt + 1)) in
      if is_transient e then again else err e

  -- _embed_batch
  unfoldable pub embed_batch : List Chars → Result (List V)
  embed_batch batch = retry 3 1 batch (ask batch 1)

  -- What becomes of a batch and of the batches after it.
  unfoldable pub put_batch : Result (List V) → Embedded V → Embedded V
  put_batch (err e) rest = if is_transient e then embedding_error else other_error e
  put_batch (ok vs) rest =
      if all (λ v. dimension v == embedding_dimension) vs
      then elim rest [
        | vectors ws ↦ vectors (vs ++ ws)
        | embedding_error ↦ embedding_error
        | other_error e ↦ other_error e
      ]
      else embedding_error

  unfoldable pub embed_batches : List (List Chars) → Embedded V
  embed_batches [] = vectors []
  embed_batches (batch ∷ rest) = put_batch (embed_batch batch) (embed_batches rest)

  -- `len(vectors) != len(texts)`
  unfoldable pub checked : ℕ → Embedded V → Embedded V
  checked n (vectors vs) = if length vs == n then vectors vs else embedding_error
  checked n embedding_error = embedding_error
  checked n (other_error e) = other_error e

  unfoldable pub embed_texts : List Chars → Embedded V
  embed_texts texts =
      if batch_size == 0
      then other_error uncaught
      else checked (length texts) (embed_batches (batches batch_size texts))

  -- The vectors are those that the client gave, at one of the four attempts, for each of the batches,
  -- one batch after the other.
  pub Answered : List (List Chars) → List V → Type 0
  Answered [] vs = vs ≡ []
  Answered (batch ∷ bs) vs =
      (attempt : ℕ) × (us : List V) × (ws : List V) × (1 ≤ attempt)
      × (attempt ≤ 4)
      × (ask batch attempt ≡ ok us)
      × (vs ≡ us ++ ws)
      × Answered bs ws

  retry-answer :
      (left attempt : ℕ) (batch : List Chars) (r : Result (List V)) (vs : List V)
      → r ≡ ask batch attempt
      → retry left attempt batch r ≡ ok vs
      → (k : ℕ) × (attempt ≤ k) × (k ≤ attempt + left) × (ask batch k ≡ ok vs)
  unfolding retry
  retry-answer zero attempt batch r vs at e =
      (attempt, omega arith, omega arith, ground (arith, at, e))
  retry-answer (suc left) attempt batch (ok us) vs at e =
      (attempt, omega arith, omega arith, ground (arith, at, e))
  retry-answer (suc left) attempt batch (err x) vs at e = elim (Bool-cases (is_transient x)) [
    | inl again ↦
        let (k, low, high, got) =
          retry-answer left (attempt + 1) batch (ask batch (attempt + 1)) vs refl
            (ground (arith, again, e)) in
        (k, omega (arith, low), omega (arith, high), got)
    | inr final ↦ absurd (ground (arith, final, e))
  ]

  put_batch-vectors :
      (r : Result (List V)) (rest : Embedded V) (vs : List V)
      → put_batch r rest ≡ vectors vs
      → (us : List V) × (ws : List V) × (r ≡ ok us) × (rest ≡ vectors ws) × (vs ≡ us ++ ws)
  unfolding put_batch
  put_batch-vectors (err x) rest vs e = absurd (ground (arith, e))
  put_batch-vectors (ok us) embedding_error vs e = absurd (ground (arith, e))
  put_batch-vectors (ok us) (other_error x) vs e = absurd (ground (arith, e))
  put_batch-vectors (ok us) (vectors ws) vs e = (us, ws, refl, refl, ground (arith, e))

  embed_batches-Answered :
      (bs : List (List Chars)) (vs : List V) → embed_batches bs ≡ vectors vs → Answered bs vs
  unfolding embed_batches embed_batch Answered
  embed_batches-Answered [] vs e = ground (arith, e)
  embed_batches-Answered (b ∷ bs) vs e =
      let (us, ws, got, rest, same) = put_batch-vectors (embed_batch b) (embed_batches bs) vs e in
      let (k, low, high, answer) = retry-answer 3 1 b (ask b 1) us refl got in
      (k, us, ws, low, omega (arith, high), answer, same, embed_batches-Answered bs ws rest)

  all-All :
      (vs : List V)
      → all (λ v. dimension v == embedding_dimension) vs ≡ true
      → All (λ v. dimension v ≡ embedding_dimension) vs
  unfolding all
  all-All [] e = tt
  all-All (v ∷ vs) e = (ground (arith, e), all-All vs (ground (arith, e)))

  put_batch-All :
      (r : Result (List V)) (rest : Embedded V) (vs : List V)
      → ((ws : List V) → rest ≡ vectors ws → All (λ v. dimension v ≡ embedding_dimension) ws)
      → put_batch r rest ≡ vectors vs
      → All (λ v. dimension v ≡ embedding_dimension) vs
  unfolding put_batch
  put_batch-All (err x) rest vs h e = absurd (ground (arith, e))
  put_batch-All (ok us) embedding_error vs h e = absurd (ground (arith, e))
  put_batch-All (ok us) (other_error x) vs h e = absurd (ground (arith, e))
  put_batch-All (ok us) (vectors ws) vs h e =
      elim (Bool-cases (all (λ v. dimension v == embedding_dimension) us)) [
        | inl good ↦
            let same : us ++ ws ≡ vs = ground (arith, good, e) in
            subst (All (λ v. dimension v ≡ embedding_dimension)) same (
              All-append (λ v. dimension v ≡ embedding_dimension) us ws (all-All us good)
                (h ws refl))
        | inr bad ↦ absurd (ground (arith, bad, e))
      ]

  embed_batches-All :
      (bs : List (List Chars)) (vs : List V)
      → embed_batches bs ≡ vectors vs
      → All (λ v. dimension v ≡ embedding_dimension) vs
  unfolding embed_batches
  embed_batches-All [] vs e =
      let same : [] ≡ vs = ground (arith, e) in
      subst (All (λ v. dimension v ≡ embedding_dimension)) same tt
  embed_batches-All (b ∷ bs) vs e =
      put_batch-All (embed_batch b) (embed_batches bs) vs (embed_batches-All bs) e

  -- When the embedding returns, it returns as many vectors as there are texts, each of the configured
  -- dimension: what the client gave, at one of the four attempts, for batches that are the texts in their
  -- order, none longer than the batch size.
  pub embed_texts_complete :
      (texts : List Chars) (vs : List V)
      → embed_texts texts ≡ vectors vs
      → (length vs ≡ length texts)
        × All (λ v. dimension v ≡ embedding_dimension) vs
        × ((bs : List (List Chars)) × (flatten bs ≡ texts)
            × All (λ batch. length batch ≤ batch_size) bs
            × Answered bs vs)
  unfolding embed_texts checked
  embed_texts_complete texts vs e = elim (Bool-cases (batch_size == 0)) [
    | inl empty ↦ absurd (ground (arith, empty, e))
    | inr positive ↦
        let bs = batches batch_size texts in
        let (same, got) = go (embed_batches bs) (ground (arith, positive, e)) in
        (
          same,
          embed_batches-All bs vs got,
          (
            bs,
            flatten-batches batch_size texts,
            batches-bounded batch_size texts (ground (arith, positive)),
            embed_batches-Answered bs vs got,
          ),
        )
  ]
    where
      go :
          (r : Embedded V)
          → checked (length texts) r ≡ vectors vs
          → (length vs ≡ length texts) × (r ≡ vectors vs)
      go (vectors us) f = elim (Bool-cases (length us == length texts)) [
        | inl good ↦ (ground (arith, good, f), ground (arith, good, f))
        | inr bad ↦ absurd (ground (arith, bad, f))
      ]
      go embedding_error f = absurd (ground (arith, f))
      go (other_error x) f = absurd (ground (arith, f))

  put_batches :
      (bs : List (List Chars))
      → ((batch : List Chars)
          → (vs : List V) × (embed_batch batch ≡ ok vs)
            × (length vs ≡ length batch)
            × (all (λ v. dimension v == embedding_dimension) vs ≡ true))
      → (vs : List V) × (embed_batches bs ≡ vectors vs) × (length vs ≡ length (flatten bs))
  unfolding embed_batches put_batch flatten
  put_batches [] answers = ([], refl, refl)
  put_batches (b ∷ bs) answers =
      let (vs, e, n, good) = answers b in
      let (ws, f, m) = put_batches bs answers in
      (
        vs ++ ws,
        ground (arith, e, f, good),
        ground (arith, n, m, length-append vs ws, length-append b (flatten bs)),
      )

  -- When the batch size is above zero and each batch gets, within its four attempts, one vector of the configured dimension for each of
  -- its texts, the embedding returns.
  embed_texts_returns :
      (texts : List Chars)
      → 0 < batch_size
      → ((batch : List Chars)
          → (vs : List V) × (embed_batch batch ≡ ok vs)
            × (length vs ≡ length batch)
            × (all (λ v. dimension v == embedding_dimension) vs ≡ true))
      → (vs : List V) × (embed_texts texts ≡ vectors vs)
  unfolding embed_texts checked
  embed_texts_returns texts positive answers =
      let (vs, e, n) = put_batches (batches batch_size texts) answers in
      let same : length vs ≡ length texts =
        ground (arith, n, ap length (flatten-batches batch_size texts)) in
      (vs, ground (arith, e, same, positive))
