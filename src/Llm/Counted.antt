-- ===== src/Llm/Counted.antt =====
-- What one call of `complete` of app/llm/client.py leaves of what the breakers have counted.
use nbfc_compliance_agent.Prelude.{
  ℕ, ◌+◌, String, ◌≡◌, inl, inr, refl, false, Bool-cases, Option, List, [], ◌∷◌, str_eq, subst,
  eq_iff, eq_refl, arith, if◌then◌else◌,
}
use nbfc_compliance_agent.Prelude.Dict.{set, get-set}
use nbfc_compliance_agent.Llm.Breaker.{
  CircuitBreaker, is_open, record_success, record_failure, IsSound, record_success-IsSound,
  record_failure-IsSound,
}
use nbfc_compliance_agent.Llm.Client.{
  Answer, replied, timed_out, rejected, failed_otherwise, Call, CallRecord, Outcome, success,
  transient_error, permanent_error, LlmSettings, LlmClient, provider_of, breaker_for, call_record,
  logged, answered, complete,
}

-- The transient failures of a provider since its last success, by the log, which has the newest record
-- first: a permanent error neither counts nor ends the row.
unfoldable pub transient_failures : String → List CallRecord → ℕ
transient_failures provider [] = 0
transient_failures provider (r ∷ rs) =
    let rest = transient_failures provider rs in
    if str_eq r.provider provider
    then elim r.outcome [ success ↦ 0 | transient_error ↦ rest + 1 | permanent_error ↦ rest ]
    else rest

-- The breaker of a provider has the threshold of the settings, has counted the transient failures of
-- the log, and is sound.
pub record Follows (settings : LlmSettings) (provider : String) (log : List CallRecord)
    (b : CircuitBreaker) : Type 0 where
  pub sound : IsSound b
  pub threshold : b.fail_threshold ≡ settings.llm_breaker_fail_threshold
  pub counted : b.consecutive_failures ≡ transient_failures provider log

-- So it is for the breaker of every provider.
pub record AllSound (settings : LlmSettings) (client : LlmClient) : Type 0 where
  pub follows :
      (provider : String)
      → Follows settings provider client.call_log (breaker_for settings client provider)

breaker_for-put :
    (settings : LlmSettings) (client : LlmClient) (log : List CallRecord) (p q : String)
    (b : CircuitBreaker)
    → breaker_for settings (record { breakers = set client.breakers p b; call_log = log }) q
      ≡ (if str_eq p q then b else breaker_for settings client q)
unfolding breaker_for
breaker_for-put settings client log p q b = ground (arith, get-set client.breakers p q b)

put-AllSound :
    (settings : LlmSettings) (client : LlmClient) (p : String) (b : CircuitBreaker)
    (log : List CallRecord)
    → AllSound settings client
    → Follows settings p log b
    → ((q : String)
        → str_eq p q ≡ false
        → transient_failures q log ≡ transient_failures q client.call_log)
    → AllSound settings (record { breakers = set client.breakers p b; call_log = log })
put-AllSound settings client p b log s h others = record {
  follows = λ q. rw (breaker_for-put settings client log p q b) (elim (Bool-cases (str_eq p q)) [
    | inl same ↦
        rw same (subst (λ x. Follows settings x log b) (ground (arith, same, eq_iff p q)) h)
    | inr other ↦
        let f = s.follows q in
        rw other (record {
          sound = f.sound;
          threshold = f.threshold;
          counted = ground (arith, f.counted, others q other);
        })
  ]);
}

module _ (settings : LlmSettings) (model stage : String) (adapter_id : Option String) (call : Call)
    (client : LlmClient) (s : AllSound settings client) where
  -- The breaker after a record of the call.
  logged-AllSound :
      (b : CircuitBreaker) (outcome : Outcome) (m n : ℕ)
      → IsSound b
      → b.fail_threshold ≡ settings.llm_breaker_fail_threshold
      → b.consecutive_failures ≡ elim outcome [
        | success ↦ 0
        | transient_error ↦ transient_failures (provider_of model) client.call_log + 1
        | permanent_error ↦ transient_failures (provider_of model) client.call_log
      ]
      → AllSound settings (
          logged settings model stage adapter_id b
            (call_record settings model stage adapter_id outcome m n call.times)
            client)
  unfolding logged call_record transient_failures
  logged-AllSound b outcome m n sound threshold counted =
      put-AllSound settings client (provider_of model) b _ s
        (record {
          sound = sound;
          threshold = threshold;
          counted = rw (eq_refl (provider_of model)) counted;
        })
        (λ q other. rw other refl)

  answered-AllSound :
      (a : Answer)
      → AllSound settings
          (answered settings model stage adapter_id
            (breaker_for settings client (provider_of model))
            (record call { answer = a })
            client).1
  unfolding answered record_success record_failure
  answered-AllSound (replied content m n) =
      let f = s.follows (provider_of model) in
      logged-AllSound (record_success (breaker_for settings client (provider_of model))) success m n
        (record_success-IsSound _ f.sound) f.threshold refl
  answered-AllSound timed_out =
      let f = s.follows (provider_of model) in
      logged-AllSound
        (record_failure call.times.failed (breaker_for settings client (provider_of model)))
        transient_error 0 0 (record_failure-IsSound call.times.failed _ f.sound)
        (ground (arith, f.threshold)) (ground (arith, f.counted))
  answered-AllSound rejected =
      let f = s.follows (provider_of model) in
      logged-AllSound (breaker_for settings client (provider_of model)) permanent_error 0 0 f.sound
        f.threshold f.counted
  answered-AllSound failed_otherwise =
      put-AllSound settings client (provider_of model) _ client.call_log s
        (s.follows (provider_of model)) (λ q other. refl)

  pub complete-AllSound : AllSound settings (complete settings model stage adapter_id call client).1
  unfolding complete
  complete-AllSound =
      let b = breaker_for settings client (provider_of model) in
      elim (Bool-cases (is_open call.times.tested b)) [
        | inl open_ ↦ rw open_ (
            put-AllSound settings client (provider_of model) b client.call_log s
              (s.follows (provider_of model)) (λ q other. refl))
        | inr closed ↦ rw closed (answered-AllSound call.answer)
      ]
