-- ===== src/Api/Tests.antt =====
-- Submissions (app/api/v1/documents.py) of one document.
use nbfc_compliance_agent.Prelude.{
  ◌==◌, ◌≡◌, refl, true, false, some, [], ◌∷◌, any, length, if◌then◌else◌,
}
use nbfc_compliance_agent.Prelude.Raises.{returned, raised, client_error}
use nbfc_compliance_agent.Prelude.Chars.{codes}
use nbfc_compliance_agent.Extract.Tests.{ascii, library, rate, extraction}
use nbfc_compliance_agent.Extract.Service.{
  extract_document, extract_raw_fields, call_groups, call_all, write_facts,
}
use nbfc_compliance_agent.Api.Tables.{
  stage_of, stage_in, DocumentSubmitRequest, internal, idempotency_conflict, accepted, refused,
  ResponseBody, Tables, Services,
}
use nbfc_compliance_agent.Api.Documents.{
  resolve_doc_type, response, lookup_key, is_duplicate, has_loan, check, after_commit, keep_key,
  submit_new, submit_document,
}
use nbfc_compliance_agent.Api.Submitted.{Left, refused-unchanged, now, further, resubmission}
use nbfc_compliance_agent.Api.Runs.{opened, submitted, IsSound, Reached-IsSound}

abbrev services : Services
services = record {
  request_hash = λ (body : DocumentSubmitRequest). length body.text;
  sha256 = λ text. length text;
  fromisoformat = λ s. some 739600;
  classify = λ text. raised client_error;
  span_budget = λ n. n;
  enqueued = λ document_id. true;
  key_kept = λ document_id. true;
  fields_for = λ doc_type. rate ∷ [];
  ask = λ text fields. returned ((rate, extraction) ∷ []);
}

abbrev body : DocumentSubmitRequest
body = record {
  doc_type = some "kfs";
  event_date = "2026-01-05";
  content_sha256 = 14;
  text = codes "Borrower: Asha";
  assess = true;
}

abbrev tables : Tables
tables = record {
  loans = (1, 7) ∷ [];
  documents = [];
  facts = [];
  idempotency_keys = [];
  queued = [];
}

-- The tables after the submission with a key.
abbrev after : Tables
after = (submit_document ascii library services 1 7 "r1" (some "k") body 10 11 tables).1

-- Services for a document without fields.
abbrev plain : Services
plain = record {
  request_hash = λ (b : DocumentSubmitRequest). length b.text;
  sha256 = λ text. length text;
  fromisoformat = λ s. some 739600;
  classify = λ text. raised client_error;
  span_budget = λ n. n;
  enqueued = λ document_id. true;
  key_kept = λ document_id. true;
  fields_for = λ doc_type. [];
  ask = λ text fields. returned [];
}

-- The queue does not take the assessment.
abbrev unsent : Services
unsent = record plain { enqueued = λ document_id. false }

refused-unchanged_example :
    Left ascii library unsent 1 7 "r1" body internal tables
      (submit_document ascii library unsent 1 7 "r1" (some "k") body 10 11 tables).1
unfolding submit_document lookup_key submit_new after_commit check has_loan any is_duplicate
    resolve_doc_type stage_of stage_in codes extract_document extract_raw_fields call_groups
    call_all write_facts
refused-unchanged_example =
    refused-unchanged ascii library unsent 1 7 "r1" (some "k") body 10 11 tables internal refl

Reached-IsSound_example : IsSound after
Reached-IsSound_example =
    Reached-IsSound ascii library services after
      (submitted 1 7 "r1" (some "k") body 10 11 (opened ((1, 7) ∷ [])))

abbrev answer : ResponseBody
answer = record { document_id = 10; job_id = 11; request_id = "r1" }

-- The tables after the submission with a key, and after another tenant's submission.
abbrev first : Tables
first = (submit_document ascii library plain 1 7 "r1" (some "k") body 10 11 tables).1

resubmission_example :
    submit_document ascii library plain 1 7 "r3"
      (some "k")
      body
      14
      15
      (submit_document ascii library plain 2 7 "r2" (some "k") body 12 13 first).1
    ≡ (
      if length body.text == length body.text
          then accepted answer
          else refused idempotency_conflict,
      (submit_document ascii library plain 2 7 "r2" (some "k") body 12 13 first).1,
    )
unfolding submit_document lookup_key submit_new after_commit keep_key check has_loan any
    is_duplicate resolve_doc_type stage_of stage_in codes extract_document extract_raw_fields
    call_groups call_all write_facts response
resubmission_example =
    resubmission ascii library plain 1 7 "r1" "r3" "k" body body 10 11 14 15 tables
      (submit_document ascii library plain 2 7 "r2" (some "k") body 12 13 first).1 answer refl
      (further 2 7 "r2" (some "k") body 12 13 now)
