-- ===== src/Api/Documents.antt =====
-- `submit_document` of app/api/v1/documents.py, with the tables that it reads and writes. The hashes,
-- the parsing of the date and the classifier's answer are parameters, as is what the extraction
-- extracts. There are two transactions: the document with its facts, and then, after the assessment is
-- enqueued, the key. An exception before the first commit leaves the tables as they were, and one after
-- it leaves what was committed.
use nbfc_compliance_agent.Prelude.{
  ℕ, ◌==◌, String, Bool, not, ◌&&◌, Option, none, some, List, [], ◌∷◌, ◌++◌, length, any, str_eq,
  if◌then◌else◌,
}
use nbfc_compliance_agent.Prelude.Raises.{returned, raised}
use nbfc_compliance_agent.Prelude.Regex.{Characters}
use nbfc_compliance_agent.Domain.Enums.{LifecycleStage}
use nbfc_compliance_agent.Domain.Facts.{Date}
use nbfc_compliance_agent.Extract.Normalise.{Library}
use nbfc_compliance_agent.Extract.Spans.{DocumentRow}
use nbfc_compliance_agent.Extract.Service.{FactRow, extract_document}
use nbfc_compliance_agent.Api.Tables.{
  Answer, DocumentSubmitRequest, stage_of, classified, Submission, ResponseBody, IdempotencyKey,
  Tables, Services, accepted, refused, schema_error, hash_mismatch, unknown_loan,
  idempotency_conflict, duplicate_doc, doctype_unknown, internal,
}

-- _IDEMPOTENCY_LOOKUP_SQL; the route is that of the loan.
unfoldable pub lookup_key : ℕ → String → ℕ → List IdempotencyKey → Option IdempotencyKey
lookup_key tenant_id key loan_id [] = none
lookup_key tenant_id key loan_id (k ∷ keys) =
    let rest = lookup_key tenant_id key loan_id keys in
    if k.tenant_id == tenant_id && (str_eq k.key key && k.loan_id == loan_id) then some k else rest

unfoldable pub is_duplicate : ℕ → ℕ → ℕ → Submission → Bool
is_duplicate tenant_id loan_id sha d =
    d.tenant_id == tenant_id && (d.loan_account_id == loan_id && d.content_sha256 == sha)

-- The loan is visible to the tenant.
unfoldable pub has_loan : ℕ → ℕ → List (ℕ × ℕ) → Bool
has_loan tenant_id loan_id loans = any (λ (l : ℕ × ℕ). l.0 == tenant_id && l.1 == loan_id) loans

-- The parameters of _INSERT_DOC_SQL that vary, with the budget after the extraction.
pub record Inserted : Type 0 where
  pub document_id : ℕ
  pub body : DocumentSubmitRequest
  pub doc_type : String
  pub stage : LifecycleStage
  pub event_date : Date
  pub row : DocumentRow

module _ (chars : Characters) (lib : Library) (services : Services) (tenant_id loan_id : ℕ)
    (request_id : String) where
  -- The type that the classifier gives.
  unfoldable pub type_by_model : DocumentSubmitRequest → Answer String
  unfolding classified
  type_by_model body = elim (services.classify body.text) [
    | raised e ↦ refused internal
    | returned c ↦
        if str_eq (classified c.0 c.1) "unknown"
        then refused doctype_unknown
        else accepted (classified c.0 c.1)
  ]

  -- _resolve_doc_type
  unfoldable pub resolve_doc_type : DocumentSubmitRequest → Answer String
  resolve_doc_type body = elim body.doc_type [
    | none ↦ type_by_model body
    | some d ↦
        if str_eq d ""
        then type_by_model body
        else elim (stage_of d) [ none ↦ refused schema_error | some stage ↦ accepted d ]
  ]

  -- The checks before anything is written, in their order: the date, and the type.
  unfoldable pub check : DocumentSubmitRequest → Tables → Answer (Date × String)
  check body t =
      if not (has_loan tenant_id loan_id t.loans)
      then refused unknown_loan
      else if not (services.sha256 body.text == body.content_sha256)
      then refused hash_mismatch
      else if any (is_duplicate tenant_id loan_id body.content_sha256) t.documents
      then refused duplicate_doc
      else elim (services.fromisoformat body.event_date) [
        | none ↦ refused schema_error
        | some d ↦ elim (resolve_doc_type body) [
          | refused e ↦ refused e
          | accepted doc_type ↦ accepted (d, doc_type)
        ]
      ]

  unfoldable pub budget_row : DocumentSubmitRequest → DocumentRow
  budget_row body = record {
    char_count = length body.text;
    span_budget_chars = services.span_budget (length body.text);
    span_used_chars = 0;
  }

  unfoldable pub tag_all : ℕ → List FactRow → List (ℕ × FactRow)
  tag_all document_id [] = []
  tag_all document_id (r ∷ rows) = (document_id, r) ∷ tag_all document_id rows

  unfoldable pub response : ℕ → ℕ → ResponseBody
  response document_id job_id = record {
    document_id = document_id;
    job_id = job_id;
    request_id = request_id;
  }

  -- What the first transaction commits: the document and its facts.
  unfoldable pub commit_document : Inserted → List FactRow → Tables → Tables
  commit_document d rows t = record t {
    documents =
        (record {
          document_id = d.document_id;
          tenant_id = tenant_id;
          loan_account_id = loan_id;
          content_sha256 = d.body.content_sha256;
          doc_type = d.doc_type;
          stage = d.stage;
          event_date = d.event_date;
          row = d.row;
        })
        ∷ t.documents;
    facts = tag_all d.document_id rows ++ t.facts;
  }

  -- What the second transaction commits.
  unfoldable pub commit_key : String → DocumentSubmitRequest → ℕ → ℕ → Tables → Tables
  unfolding response
  commit_key key body document_id job_id t = record t {
    idempotency_keys =
        (record {
          tenant_id = tenant_id;
          key = key;
          loan_id = loan_id;
          request_hash = services.request_hash body;
          response_body = response document_id job_id;
        })
        ∷ t.idempotency_keys;
  }

  -- After the first commit: the key, none when the header is missing or empty. An exception of the
  -- second transaction leaves what was committed before.
  unfoldable pub keep_key :
      Option String → DocumentSubmitRequest → ℕ → ℕ → Tables → Answer ResponseBody × Tables
  unfolding response
  keep_key none body document_id job_id t = (accepted (response document_id job_id), t)
  keep_key (some key) body document_id job_id t =
      if services.key_kept document_id
      then (accepted (response document_id job_id), commit_key key body document_id job_id t)
      else (refused internal, t)

  -- After the first commit: the assessment is enqueued, which may fail, and then the key is kept.
  unfoldable pub after_commit :
      Option String → DocumentSubmitRequest → ℕ → ℕ → Tables → Answer ResponseBody × Tables
  after_commit key body document_id job_id t =
      let queued =
        keep_key key body document_id job_id (record t { queued = document_id ∷ t.queued }) in
      let unasked = keep_key key body document_id job_id t in
      if body.assess
      then (if services.enqueued document_id then queued else (refused internal, t))
      else unasked

  unfoldable pub submit_new :
      Option String → DocumentSubmitRequest → ℕ → ℕ → Tables → Answer ResponseBody × Tables
  unfolding budget_row
  submit_new key body document_id job_id t = elim (check body t) [
    | refused e ↦ (refused e, t)
    | accepted c ↦ elim (stage_of c.1) [
      | none ↦ (refused internal, t)
      | some stage ↦
          elim (extract_document chars lib body.text (services.ask body.text)
            (services.fields_for c.1) (budget_row body)) [
              | raised e ↦ (refused internal, t)
              | returned f ↦ after_commit key body document_id job_id (
                  commit_document
                    (record {
                      document_id = document_id;
                      body = body;
                      doc_type = c.1;
                      stage = stage;
                      event_date = c.0;
                      row = f.1;
                    })
                    f.0 t)
            ]
    ]
  ]

  unfoldable pub submit_document :
      Option String → DocumentSubmitRequest → ℕ → ℕ → Tables → Answer ResponseBody × Tables
  submit_document none body document_id job_id t = submit_new none body document_id job_id t
  submit_document (some key) body document_id job_id t =
      elim (lookup_key tenant_id key loan_id t.idempotency_keys) [
        | none ↦ submit_new (some key) body document_id job_id t
        | some existing ↦
            if existing.request_hash == services.request_hash body
            then (accepted existing.response_body, t)
            else (refused idempotency_conflict, t)
      ]
