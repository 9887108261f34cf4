-- ===== src/Llm/Structured.antt =====
-- LLMClient.structured of app/llm/client.py: how often it calls, and what it returns.
use nbfc_compliance_agent.Prelude.{
  ℕ, ◌+◌, ◌≤◌, String, ◌≡◌, ◌⊎◌, refl, inl, inr, Bool-cases, Option, none, some, Option-cases,
  length, arith,
}
use nbfc_compliance_agent.Llm.Breaker.{is_open}
use nbfc_compliance_agent.Llm.Client.{
  Call, Answer, replied, timed_out, rejected, failed_otherwise, LlmError, provider_of, breaker_for,
  Result, ok, err, CallRecord, LlmSettings, LlmClient, logged, answered, complete, repair,
  structured,
}

answers :
    (a : Answer)
    → ((content : String) × (m : ℕ) × (n : ℕ) × (a ≡ replied content m n))
      ⊎ ((a ≡ timed_out) ⊎ ((a ≡ rejected) ⊎ (a ≡ failed_otherwise)))
answers (replied content m n) = inl (content, m, n, refl)
answers timed_out = inr (inl refl)
answers rejected = inr (inr (inl refl))
answers failed_otherwise = inr (inr (inr refl))

Result-cases : {A : Type 0} (r : Result A) → ((a : A) × (r ≡ ok a)) ⊎ ((e : LlmError) × (r ≡ err e))
Result-cases (ok a) = inl (a, refl)
Result-cases (err e) = inr (e, refl)

module _ (settings : LlmSettings) (model stage : String) (adapter_id : Option String) where
  log_grows :
      (c : Call) (client : LlmClient)
      → length (complete settings model stage adapter_id c client).1.call_log
        ≤ length client.call_log + 1
  unfolding complete answered logged
  log_grows c client = ground arith

  -- A call that returns a content was answered with it.
  complete-replied :
      (c : Call) (client : LlmClient) (content : String) (r : CallRecord)
      → (complete settings model stage adapter_id c client).0 ≡ ok (content, r)
      → (m : ℕ) × (n : ℕ) × (c.answer ≡ replied content m n)
  unfolding complete answered
  complete-replied c client content r e =
      elim (Bool-cases (is_open c.times.tested (breaker_for settings client (provider_of model)))) [
        | inl open_ ↦ absurd (ground (arith, open_, e))
        | inr closed ↦ elim (answers c.answer) [
          | inl (text, m, n, was) ↦ (m, n, ground (arith, closed, was, e))
          | inr (inl was) ↦ absurd (ground (arith, closed, was, e))
          | inr (inr (inl was)) ↦ absurd (ground (arith, closed, was, e))
          | inr (inr (inr was)) ↦ absurd (ground (arith, closed, was, e))
        ]
      ]

  module _ {A : Type 0} (parse : String → Option A) (first second_ : Call)
      (client : LlmClient) where
    repaired :
        (after : LlmClient) (a : A) (r : CallRecord)
        → (repair settings model stage adapter_id parse second_ after).0 ≡ ok (a, r)
        → (content : String) × (m : ℕ) × (n : ℕ) × (second_.answer ≡ replied content m n)
          × (parse content ≡ some a)
    unfolding repair
    repaired after a r e =
        elim (Result-cases (complete settings model stage adapter_id second_ after).0) [
          | inr (x, failed) ↦ absurd (ground (arith, failed, e))
          | inl ((content, s), got) ↦ elim (Option-cases (parse content)) [
            | inl unparsed ↦ absurd (ground (arith, got, unparsed, e))
            | inr (b, parsed) ↦
                let (m, n, was) = complete-replied second_ after content s got in
                (content, m, n, was, ground (arith, got, parsed, e))
          ]
        ]

    -- A structured call adds at most two records to the log, whatever the provider answers and however
    -- the parser judges it. What it returns is what the parser makes of the first reply; or the parser
    -- refuses the first reply, and it is what the parser makes of the second.
    pub structured_bounded :
        (length (structured settings model stage adapter_id parse first second_ client).1.call_log
          ≤ length client.call_log + 2)
        × ((a : A) (r : CallRecord)
            → (structured settings model stage adapter_id parse first second_ client).0 ≡ ok (a, r)
            → (content : String) × (m : ℕ) × (n : ℕ) × (first.answer ≡ replied content m n)
              × ((parse content ≡ some a)
                  ⊎ ((parse content ≡ none)
                      × ((again : String) × (k : ℕ) × (l : ℕ) × (second_.answer ≡ replied again k l)
                          × (parse again ≡ some a)))))
    unfolding structured repair
    structured_bounded =
        let after = (complete settings model stage adapter_id first client).1 in
        (
          ground (arith, log_grows first client, log_grows second_ after),
          λ a r e. elim (Result-cases (complete settings model stage adapter_id first client).0) [
            | inr (x, failed) ↦ absurd (ground (arith, failed, e))
            | inl ((content, s), got) ↦
                let (m, n, was) = complete-replied first client content s got in
                elim (Option-cases (parse content)) [
                  | inr (b, parsed) ↦ (content, m, n, was, inl (ground (arith, got, parsed, e)))
                  | inl unparsed ↦ (
                    content,
                    m,
                    n,
                    was,
                    inr (unparsed, repaired after a r (ground (arith, got, unparsed, e))),
                  )
                ]
          ],
        )
