-- ===== src/Api/Handled.antt =====
-- What a submission of app/api/v1/documents.py leaves in the tables, on each of its ways.
use nbfc_compliance_agent.Prelude.{
  ℕ, String, ◌≡◌, ◌∷◌, refl, inl, inr, ◌⊎◌, Bool-cases, Option, none, some, Option-cases, List,
  subst, ◌≤◌, arith,
}
use nbfc_compliance_agent.Prelude.Raises.{Raises-cases, returned}
use nbfc_compliance_agent.Prelude.Regex.{Characters}
use nbfc_compliance_agent.Extract.Normalise.{Library}
use nbfc_compliance_agent.Extract.Spans.{DocumentRow}
use nbfc_compliance_agent.Extract.Service.{
  FactRow, extract_raw_fields, extract_document, write_facts,
}
use nbfc_compliance_agent.Extract.Evidence.{write_facts-budget}
use nbfc_compliance_agent.Api.Tables.{
  Answer, DocumentSubmitRequest, ApiError, internal, accepted, refused, stage_of, ResponseBody,
  IdempotencyKey, Tables, Services,
}
use nbfc_compliance_agent.Api.Documents.{
  Inserted, check, budget_row, response, commit_document, commit_key, keep_key, after_commit,
  submit_new,
}

Answer-cases :
    {A : Type 0} (r : Answer A) → ((e : ApiError) × (r ≡ refused e)) ⊎ ((a : A) × (r ≡ accepted a))
Answer-cases (refused e) = inl (e, refl)
Answer-cases (accepted a) = inr (a, refl)

module _ (chars : Characters) (lib : Library) (services : Services) (tenant_id loan_id : ℕ)
    (request_id : String) where
  -- A submission without a key that is known is refused and changes nothing, or it is checked and the
  -- document is committed with what it extracts: then an exception follows, or the key is kept.
  pub data Handled (key : Option String) (body : DocumentSubmitRequest) (document_id job_id : ℕ)
      (t : Tables) : Answer ResponseBody × Tables → Type 0 where
    turned_away : (e : ApiError) → Handled key body document_id job_id t (refused e, t)
    broken_off :
        (d : Inserted) (rows : List FactRow) (queued : List ℕ)
        → check chars lib services tenant_id loan_id request_id body t
          ≡ accepted (d.event_date, d.doc_type)
        → d.body ≡ body
        → d.row.span_used_chars ≤ d.row.span_budget_chars
        → Handled key body document_id job_id t (
          refused internal,
          record (commit_document chars lib services tenant_id loan_id request_id d rows t) {
            queued = queued;
          },
        )
    written :
        (d : Inserted) (rows : List FactRow) (queued : List ℕ) (keys : List IdempotencyKey)
        → check chars lib services tenant_id loan_id request_id body t
          ≡ accepted (d.event_date, d.doc_type)
        → d.body ≡ body
        → d.row.span_used_chars ≤ d.row.span_budget_chars
        → keys ≡ elim key [
          | none ↦ t.idempotency_keys
          | some k ↦
              (record {
                tenant_id = tenant_id;
                key = k;
                loan_id = loan_id;
                request_hash = services.request_hash body;
                response_body =
                    response chars lib services tenant_id loan_id request_id document_id job_id;
              })
              ∷ t.idempotency_keys
        ]
        → Handled key body document_id job_id t (
          accepted (response chars lib services tenant_id loan_id request_id document_id job_id),
          record (commit_document chars lib services tenant_id loan_id request_id d rows t) {
            queued = queued;
            idempotency_keys = keys;
          },
        )

  -- The extraction keeps the new document within its budget.
  extracted :
      (body : DocumentSubmitRequest) (doc_type : String) (rows : List FactRow) (row : DocumentRow)
      → extract_document chars lib body.text
          (services.ask body.text)
          (services.fields_for doc_type)
          (budget_row chars lib services tenant_id loan_id request_id body)
        ≡ returned (rows, row)
      → row.span_used_chars ≤ row.span_budget_chars
  unfolding extract_document budget_row
  extracted body doc_type rows row e =
      elim (Raises-cases
        (extract_raw_fields (services.ask body.text) (services.fields_for doc_type))) [
          | inr (x, failed) ↦ absurd (ground (arith, failed, e))
          | inl (raw, got) ↦
              let d = budget_row chars lib services tenant_id loan_id request_id body in
              let bound = write_facts-budget chars lib body.text raw d (omega arith) in
              let same : (write_facts chars lib body.text raw d).1 ≡ row = ground (arith, got, e) in
              subst (λ (r : DocumentRow). r.span_used_chars ≤ r.span_budget_chars) same
                (ground (arith, bound.0, bound.1))
        ]

  module _ (body : DocumentSubmitRequest) (i j : ℕ) (t : Tables) (d : Inserted)
      (rows : List FactRow)
      (passed : check chars lib services tenant_id loan_id request_id body t
        ≡ accepted (d.event_date, d.doc_type))
      (same : d.body ≡ body) (within : d.row.span_used_chars ≤ d.row.span_budget_chars) where
    -- The tables after the first commit, with what is enqueued.
    committed : List ℕ → Tables
    committed queued =
        record (commit_document chars lib services tenant_id loan_id request_id d rows t) {
          queued = queued;
        }

    keep_key-Handled :
        (key : Option String) (queued : List ℕ)
        → Handled key body i j t (
            keep_key chars lib services tenant_id loan_id request_id key body i j
              (committed queued))
    unfolding keep_key commit_key committed commit_document
    keep_key-Handled none queued = written d rows queued t.idempotency_keys passed same within refl
    keep_key-Handled (some k) queued = elim (Bool-cases (services.key_kept i)) [
      | inl kept ↦ rw kept (written d rows queued _ passed same within refl)
      | inr failed ↦ rw failed (broken_off d rows queued passed same within)
    ]

    after_commit-Handled :
        (key : Option String)
        → Handled key body i j t (
            after_commit chars lib services tenant_id loan_id request_id key body i j
              (committed t.queued))
    unfolding after_commit committed commit_document
    after_commit-Handled key = elim (Bool-cases body.assess) [
      | inr unasked ↦ simp unasked (keep_key-Handled key t.queued)
      | inl asked ↦ elim (Bool-cases (services.enqueued i)) [
        | inl sent ↦ simp (asked, sent) (keep_key-Handled key (i ∷ t.queued))
        | inr failed ↦ simp (asked, failed) (broken_off d rows t.queued passed same within)
      ]
    ]

  pub submit_new-Handled :
      (key : Option String) (body : DocumentSubmitRequest) (document_id job_id : ℕ) (t : Tables)
      → Handled key body document_id job_id t
          (submit_new chars lib services tenant_id loan_id request_id key body document_id job_id t)
  unfolding submit_new committed commit_document
  submit_new-Handled key body document_id job_id t =
      elim (Answer-cases (check chars lib services tenant_id loan_id request_id body t)) [
        | inl (e, refusal) ↦ rw (refusal, submit_new) (turned_away e)
        | inr ((d, doc_type), passed) ↦ elim (Option-cases (stage_of doc_type)) [
          | inl unstaged ↦ rw (passed, unstaged, submit_new) (turned_away _)
          | inr (stage, staged) ↦
              elim (Raises-cases (
                extract_document chars lib body.text (services.ask body.text)
                  (services.fields_for doc_type)
                  (budget_row chars lib services tenant_id loan_id request_id body))) [
                    | inr (e, failed) ↦ rw (passed, staged, failed, submit_new) (turned_away _)
                    | inl ((rows, row), done) ↦
                        let within = extracted body doc_type rows row done in
                        rw (passed, staged, done, submit_new)
                          (after_commit-Handled body document_id job_id t
                            (record {
                              document_id = document_id;
                              body = body;
                              doc_type = doc_type;
                              stage = stage;
                              event_date = d;
                              row = row;
                            })
                            rows passed refl within key)
                  ]
        ]
      ]
