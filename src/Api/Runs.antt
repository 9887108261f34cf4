-- ===== src/Api/Runs.antt =====
-- The tables after any submissions (app/api/v1/documents.py) by any tenants.
use nbfc_compliance_agent.Prelude.{
  ℕ, ◌==◌, ◌≤◌, String, ◌≡◌, inl, inr, false, Bool-cases, Option, none, some, Option-cases, List,
  [], ◌∷◌, any, All, arith,
}
use nbfc_compliance_agent.Prelude.Regex.{Characters}
use nbfc_compliance_agent.Domain.Facts.{Date}
use nbfc_compliance_agent.Extract.Normalise.{Library}
use nbfc_compliance_agent.Extract.Service.{FactRow}
use nbfc_compliance_agent.Api.Tables.{
  Answer, DocumentSubmitRequest, accepted, Submission, ResponseBody, IdempotencyKey, Tables,
  Services,
}
use nbfc_compliance_agent.Api.Documents.{
  Inserted, lookup_key, is_duplicate, has_loan, check, commit_document, submit_document,
}
use nbfc_compliance_agent.Api.Handled.{
  Handled, turned_away, broken_off, written, submit_new-Handled,
}

-- The tables that submissions lead to, from loans and no documents.
pub data Reached (chars : Characters) (lib : Library) (services : Services) : Tables → Type 0 where
  opened :
      (loans : List (ℕ × ℕ))
      → Reached chars lib services
          (record { loans = loans; documents = []; facts = []; idempotency_keys = []; queued = [] })
  submitted :
      {t : Tables} (tenant_id loan_id : ℕ) (request_id : String) (key : Option String)
      (body : DocumentSubmitRequest) (i j : ℕ)
      → Reached chars lib services t
      → Reached chars lib services
          (submit_document chars lib services tenant_id loan_id request_id key body i j t).1

-- No two documents have the same tenant, loan and content.
pub Distinct : List Submission → Type 0
Distinct [] = Unit {0}
Distinct (d ∷ ds) =
    (any (is_duplicate d.tenant_id d.loan_account_id d.content_sha256) ds ≡ false) × Distinct ds

pub WithinBudget : Submission → Type 0
WithinBudget d = d.row.span_used_chars ≤ d.row.span_budget_chars

pub record IsSound (t : Tables) : Type 0 where
  pub distinct : Distinct t.documents
  pub within_budget : All WithinBudget t.documents

module _ (chars : Characters) (lib : Library) (services : Services) where
  module _ (tenant_id loan_id : ℕ) (request_id : String) where
    check-new :
        (body : DocumentSubmitRequest) (t : Tables) (c : Date × String)
        → check chars lib services tenant_id loan_id request_id body t ≡ accepted c
        → any (is_duplicate tenant_id loan_id body.content_sha256) t.documents ≡ false
    unfolding check
    check-new body t c h = elim (Bool-cases (has_loan tenant_id loan_id t.loans)) [
      | inr absent ↦ absurd (ground (arith, absent, h))
      | inl visible ↦ elim (Bool-cases (services.sha256 body.text == body.content_sha256)) [
        | inr other ↦ absurd (ground (arith, visible, other, h))
        | inl equal ↦
            elim (Bool-cases
              (any (is_duplicate tenant_id loan_id body.content_sha256) t.documents)) [
                | inl double ↦ absurd (ground (arith, visible, equal, double, h))
                | inr new ↦ new
              ]
      ]
    ]

    commit_document-IsSound :
        (d : Inserted) (rows : List FactRow) (t : Tables) (queued : List ℕ)
        (keys : List IdempotencyKey)
        → any (is_duplicate tenant_id loan_id d.body.content_sha256) t.documents ≡ false
        → d.row.span_used_chars ≤ d.row.span_budget_chars
        → IsSound t
        → IsSound
            (record (commit_document chars lib services tenant_id loan_id request_id d rows t) {
              queued = queued;
              idempotency_keys = keys;
            })
    unfolding commit_document Distinct WithinBudget
    commit_document-IsSound d rows t queued keys new within h = record {
      distinct = (new, h.distinct);
      within_budget = (within, h.within_budget);
    }

    Handled-IsSound :
        {key : Option String} {body : DocumentSubmitRequest} {i j : ℕ} {t : Tables}
        {r : Answer ResponseBody × Tables}
        → Handled chars lib services tenant_id loan_id request_id key body i j t r
        → IsSound t
        → IsSound r.1
    unfolding commit_document
    Handled-IsSound (turned_away e) h = h
    Handled-IsSound {body = body} {t = t} (broken_off d rows queued passed same within) h =
        commit_document-IsSound d rows t queued t.idempotency_keys
          (rw same (check-new body t (d.event_date, d.doc_type) passed)) within h
    Handled-IsSound {body = body} {t = t} (written d rows queued keys passed same within kept) h =
        commit_document-IsSound d rows t queued keys
          (rw same (check-new body t (d.event_date, d.doc_type) passed)) within h

    submit_document-IsSound :
        (key : Option String) (body : DocumentSubmitRequest) (i j : ℕ) (t : Tables)
        → IsSound t
        → IsSound (submit_document chars lib services tenant_id loan_id request_id key body i j t).1
    unfolding submit_document
    submit_document-IsSound none body i j t h =
        Handled-IsSound
          (submit_new-Handled chars lib services tenant_id loan_id request_id none body i j t) h
    submit_document-IsSound (some key) body i j t h =
        elim (Option-cases (lookup_key tenant_id key loan_id t.idempotency_keys)) [
          | inl unknown ↦
              rw (unknown, submit_document)
                (Handled-IsSound
                  (submit_new-Handled chars lib services tenant_id loan_id request_id (some key)
                    body i j t)
                  h)
          | inr (k, known) ↦ elim (Bool-cases (k.request_hash == services.request_hash body)) [
            | inl equal ↦ rw (known, equal, submit_document) h
            | inr other ↦ rw (known, other, submit_document) h
          ]
        ]

  -- After any submissions by any tenants, also failed ones, no two documents have the same tenant, loan
  -- and content, and the characters counted as used of each document's budget are within the budget.
  pub Reached-IsSound : (t : Tables) → Reached chars lib services t → IsSound t
  unfolding Distinct
  Reached-IsSound _ (opened loans) = record { distinct = tt; within_budget = tt }
  Reached-IsSound _ (submitted {t = t} tenant_id loan_id request_id key body i j r) =
      submit_document-IsSound tenant_id loan_id request_id key body i j t (Reached-IsSound t r)
