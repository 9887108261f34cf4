-- ===== src/Api/Submitted.antt =====
-- What app/api/v1/documents.py promises of submissions: what a refused one leaves, and that a repeated
-- one is answered as the first.
use nbfc_compliance_agent.Prelude.{
  ℕ, ◌==◌, ◌&&◌, String, ◌≡◌, refl, ap, inl, inr, true, any, Bool-cases, Option, none, some,
  Option-cases, List, ◌∷◌, eq_refl, eq_iff, str_eq, arith, if◌then◌else◌,
}
use nbfc_compliance_agent.Prelude.Regex.{Characters}
use nbfc_compliance_agent.Extract.Normalise.{Library}
use nbfc_compliance_agent.Api.Tables.{
  Answer, DocumentSubmitRequest, ApiError, internal, idempotency_conflict, accepted, refused,
  ResponseBody, IdempotencyKey, Tables, Services,
}
use nbfc_compliance_agent.Api.Documents.{
  lookup_key, is_duplicate, response, commit_document, submit_document,
}
use nbfc_compliance_agent.Api.Handled.{
  Handled, turned_away, broken_off, written, submit_new-Handled,
}

module _ (chars : Characters) (lib : Library) (services : Services) (tenant_id loan_id : ℕ)
    (request_id : String) where
  -- What a refusal leaves: the tables as they were, or, after an exception that is none of the handler's
  -- own errors, the document without its key.
  pub data Left (body : DocumentSubmitRequest) (e : ApiError) (t u : Tables) : Type 0 where
    unchanged : u ≡ t → Left body e t u
    without_key :
        e ≡ internal
        → u.idempotency_keys ≡ t.idempotency_keys
        → any (is_duplicate tenant_id loan_id body.content_sha256) u.documents ≡ true
        → Left body e t u

  Handled-Left :
      {key : Option String} {body : DocumentSubmitRequest} {i j : ℕ} {t : Tables}
      {r : Answer ResponseBody × Tables} (e : ApiError)
      → Handled chars lib services tenant_id loan_id request_id key body i j t r
      → r.0 ≡ refused e
      → Left body e t r.1
  unfolding commit_document is_duplicate any
  Handled-Left e (turned_away f) h = unchanged refl
  Handled-Left {body = body} e (broken_off d rows queued passed same within) h =
      without_key (ground (arith, h)) refl (ground (arith, ap (λ b. b.content_sha256) same))
  Handled-Left e (written d rows queued keys passed same within kept) h = absurd (ground (arith, h))

  -- A submission that is refused leaves the tables as they were; or it failed after the first commit, and
  -- is then refused as an internal error, with the document in the tables and no key for it.
  pub refused-unchanged :
      (key : Option String) (body : DocumentSubmitRequest) (i j : ℕ) (t : Tables) (e : ApiError)
      → (submit_document chars lib services tenant_id loan_id request_id key body i j t).0
        ≡ refused e
      → Left body e t
          (submit_document chars lib services tenant_id loan_id request_id key body i j t).1
  unfolding submit_document
  refused-unchanged none body i j t e h =
      Handled-Left e
        (submit_new-Handled chars lib services tenant_id loan_id request_id none body i j t) h
  refused-unchanged (some key) body i j t e h =
      elim (Option-cases (lookup_key tenant_id key loan_id t.idempotency_keys)) [
        | inl unknown ↦
            rw (unknown, submit_document)
              (Handled-Left e
                (submit_new-Handled chars lib services tenant_id loan_id request_id (some key) body
                  i j t)
                (ground (arith, unknown, h)))
        | inr (k, known) ↦ elim (Bool-cases (k.request_hash == services.request_hash body)) [
          | inl equal ↦ rw (known, equal, submit_document) (unchanged refl)
          | inr other ↦ rw (known, other, submit_document) (unchanged refl)
        ]
      ]

  -- The key of a submission that was answered, with the answer.
  record Kept (key : String) (body : DocumentSubmitRequest) (r : ResponseBody) (t : Tables)
      : Type 0 where
    entry : IdempotencyKey
    found : lookup_key tenant_id key loan_id t.idempotency_keys ≡ some entry
    hash : entry.request_hash ≡ services.request_hash body
    answer : entry.response_body ≡ r

  Handled-Kept :
      {key : String} {body : DocumentSubmitRequest} {i j : ℕ} {t : Tables}
      {r : Answer ResponseBody × Tables} (b : ResponseBody)
      → Handled chars lib services tenant_id loan_id request_id (some key) body i j t r
      → r.0 ≡ accepted b
      → Kept key body b r.1
  unfolding lookup_key response
  Handled-Kept b (turned_away f) h = absurd (ground (arith, h))
  Handled-Kept b (broken_off d rows queued passed same within) h = absurd (ground (arith, h))
  Handled-Kept {key = key} {body = body} {i = i} {j = j} b
        (written d rows queued keys passed same within kept) h =
      record {
        entry = record {
          tenant_id = tenant_id;
          key = key;
          loan_id = loan_id;
          request_hash = services.request_hash body;
          response_body = response chars lib services tenant_id loan_id request_id i j;
        };
        found = rw kept (ground (arith, eq_refl key));
        hash = refl;
        answer = ground (arith, h);
      }

  submit_document-Kept :
      (key : String) (body : DocumentSubmitRequest) (i j : ℕ) (t : Tables) (r : ResponseBody)
      → (submit_document chars lib services tenant_id loan_id request_id (some key) body i j t).0
        ≡ accepted r
      → Kept key body r
          (submit_document chars lib services tenant_id loan_id request_id (some key) body i j t).1
  unfolding submit_document
  submit_document-Kept key body i j t r h =
      elim (Option-cases (lookup_key tenant_id key loan_id t.idempotency_keys)) [
        | inl unknown ↦
            rw (unknown, submit_document)
              (Handled-Kept r
                (submit_new-Handled chars lib services tenant_id loan_id request_id (some key) body
                  i j t)
                (ground (arith, unknown, h)))
        | inr (k, known) ↦ elim (Bool-cases (k.request_hash == services.request_hash body)) [
          | inl equal ↦
              rw (known, equal, submit_document)
                (record {
                  entry = k;
                  found = known;
                  hash = ground (arith, equal);
                  answer = ground (arith, known, equal, h);
                })
          | inr other ↦ absurd (ground (arith, known, other, h))
        ]
      ]

-- The look-up after a key is added that was not found before.
lookup_key-new :
    (tenant_id loan_id : ℕ) (key : String) (entry k : IdempotencyKey) (keys : List IdempotencyKey)
    → lookup_key entry.tenant_id entry.key entry.loan_id keys ≡ none
    → lookup_key tenant_id key loan_id keys ≡ some k
    → lookup_key tenant_id key loan_id (entry ∷ keys) ≡ some k
unfolding lookup_key
lookup_key-new tenant_id loan_id key entry k keys new known =
    elim (Bool-cases
      (entry.tenant_id == tenant_id && (str_eq entry.key key && entry.loan_id == loan_id))) [
        | inr other ↦ rw other known
        | inl same ↦ absurd (clash same)
      ]
  where
    clash :
        entry.tenant_id == tenant_id && (str_eq entry.key key && entry.loan_id == loan_id) ≡ true
        → ⊥
    clash same =
        let tenants : entry.tenant_id ≡ tenant_id = ground (arith, same) in
        let loans : entry.loan_id ≡ loan_id = ground (arith, same) in
        let keys_ : entry.key ≡ key = ground (arith, same, eq_iff entry.key key) in
        cc (tenants, loans, keys_, new, known)

module _ (chars : Characters) (lib : Library) (services : Services) where
  -- The tables after any further submissions, by any tenants.
  pub data Later (t : Tables) : Tables → Type 0 where
    now : Later t t
    further :
        {u : Tables} (tenant_id loan_id : ℕ) (request_id : String) (key : Option String)
        (body : DocumentSubmitRequest) (i j : ℕ)
        → Later t u
        → Later t (submit_document chars lib services tenant_id loan_id request_id key body i j u).1

  module _ (tenant_id loan_id : ℕ) (key : String) (k : IdempotencyKey) where
    Handled-lookup :
        {tenant' loan' : ℕ} {request' : String} {key' : Option String}
        {body : DocumentSubmitRequest} {i j : ℕ} {t : Tables} {r : Answer ResponseBody × Tables}
        → Handled chars lib services tenant' loan' request' key' body i j t r
        → ((s : String) → key' ≡ some s → lookup_key tenant' s loan' t.idempotency_keys ≡ none)
        → lookup_key tenant_id key loan_id t.idempotency_keys ≡ some k
        → lookup_key tenant_id key loan_id r.1.idempotency_keys ≡ some k
    unfolding commit_document
    Handled-lookup (turned_away f) new h = h
    Handled-lookup (broken_off d rows queued passed same within) new h = h
    Handled-lookup {key' = none} (written d rows queued keys passed same within kept) new h =
        rw kept h
    Handled-lookup {key' = some s} {t = t} (written d rows queued keys passed same within kept) new
          h =
        rw kept (lookup_key-new tenant_id loan_id key _ k t.idempotency_keys (new s refl) h)

    submit_document-lookup :
        (tenant' loan' : ℕ) (request' : String) (key' : Option String)
        (body : DocumentSubmitRequest) (i j : ℕ) (t : Tables)
        → lookup_key tenant_id key loan_id t.idempotency_keys ≡ some k
        → lookup_key tenant_id key loan_id
            (submit_document chars lib services tenant' loan' request' key' body i j
              t).1.idempotency_keys
          ≡ some k
    unfolding submit_document
    submit_document-lookup tenant' loan' request' none body i j t h =
        Handled-lookup
          (submit_new-Handled chars lib services tenant' loan' request' none body i j t)
          (λ s e. absurd (ground (arith, e))) h
    submit_document-lookup tenant' loan' request' (some s) body i j t h =
        elim (Option-cases (lookup_key tenant' s loan' t.idempotency_keys)) [
          | inl unknown ↦
              rw (unknown, submit_document)
                (Handled-lookup
                  (submit_new-Handled chars lib services tenant' loan' request' (some s) body i j t)
                  (λ s' e. rw (some_injective e) unknown) h)
          | inr (x, known) ↦ elim (Bool-cases (x.request_hash == services.request_hash body)) [
            | inl equal ↦ rw (known, equal, submit_document) h
            | inr other ↦ rw (known, other, submit_document) h
          ]
        ]
      where
        some_injective : {s' : String} → some s ≡ some s' → s' ≡ s
        some_injective e = ground (arith, e)

    Later-lookup :
        {t u : Tables}
        → Later t u
        → lookup_key tenant_id key loan_id t.idempotency_keys ≡ some k
        → lookup_key tenant_id key loan_id u.idempotency_keys ≡ some k
    Later-lookup now h = h
    Later-lookup (further {u = u} tenant' loan' request' key' body i j l) h =
        submit_document-lookup tenant' loan' request' key' body i j u (Later-lookup l h)

  -- Once a submission with a key is answered, then after any further submissions, another one of the
  -- tenant with the key for the same loan, under any request id, gets the same answer if its body has the
  -- same hash, and a conflict if not, and in both cases writes nothing. No submission deletes a key.
  pub resubmission :
      (tenant_id loan_id : ℕ) (request_id request_id' key : String)
      (body again : DocumentSubmitRequest) (i j i' j' : ℕ) (t u : Tables) (r : ResponseBody)
      → (submit_document chars lib services tenant_id loan_id request_id (some key) body i j t).0
        ≡ accepted r
      → Later
          (submit_document chars lib services tenant_id loan_id request_id (some key) body i j t).1
          u
      → submit_document chars lib services tenant_id loan_id request_id' (some key) again i' j' u
        ≡ (
          if services.request_hash body == services.request_hash again
              then accepted r
              else refused idempotency_conflict,
          u,
        )
  unfolding submit_document
  resubmission tenant_id loan_id request_id request_id' key body again i j i' j' t u r h later =
      let k =
        submit_document-Kept chars lib services tenant_id loan_id request_id key body i j t r h in
      rw (Later-lookup tenant_id loan_id key k.entry later k.found, submit_document)
        (rw k.hash (ground (arith, k.answer)))
