-- ===== src/Llm/Runs.antt =====
-- Runs of the client of app/llm/client.py: what its breakers keep to, when a provider is called, and
-- that an open circuit closes again.
use nbfc_compliance_agent.Prelude.{
  ℕ, ◌+◌, ◌*◌, ◌≤◌, ◌<◌, leb, String, ◌≡◌, inl, inr, refl, false, Option, none, some, Option-cases,
  List, [], ◌∷◌, length, subst, sym, eq_iff, arith, if◌then◌else◌,
}
use nbfc_compliance_agent.Prelude.Dict.{Dict, get, set, get-set}
use nbfc_compliance_agent.Llm.Breaker.{
  CircuitBreaker, new_breaker, is_open, record_success, record_failure, second, IsSound,
  new_breaker-IsSound, record_failure-IsSound,
}
use nbfc_compliance_agent.Llm.Client.{
  replied, Call, circuit_open, ok, err, CallRecord, success, LlmSettings, LlmClient, provider_of,
  breaker_for, call_record, logged, answered, complete,
}
use nbfc_compliance_agent.Llm.Counted.{transient_failures, AllSound, complete-AllSound}

-- The clients that a process can have, after some calls of `complete`.
pub data Ran (settings : LlmSettings) : LlmClient → Type 0 where
  start : Ran settings (record { breakers = []; call_log = [] })
  call :
      {client : LlmClient} (model stage : String) (adapter_id : Option String) (c : Call)
      → Ran settings client
      → Ran settings (complete settings model stage adapter_id c client).1

-- In every run from a new client, with a threshold above zero, the breaker of each provider has counted
-- the transient failures of the provider that the log has since its last success, and has a time of
-- opening exactly when they have reached the threshold of the settings.
pub Ran-AllSound :
    (settings : LlmSettings) (client : LlmClient)
    → 0 < settings.llm_breaker_fail_threshold
    → Ran settings client
    → AllSound settings client
unfolding get breaker_for new_breaker transient_failures
Ran-AllSound settings _ positive start = record {
  follows = λ p. record {
    sound =
        new_breaker-IsSound settings.llm_breaker_fail_threshold settings.llm_breaker_reset_s
          positive;
    threshold = refl;
    counted = refl;
  };
}
Ran-AllSound settings _ positive (call {client = client} model stage adapter_id c r) =
    complete-AllSound settings model stage adapter_id c client
      (Ran-AllSound settings client positive r)

-- A breaker that was just put in place is the one that is found.
breaker_for-set :
    (settings : LlmSettings) (d : Dict CircuitBreaker) (log : List CallRecord) (p : String)
    (b : CircuitBreaker)
    → breaker_for settings (record { breakers = set d p b; call_log = log }) p ≡ b
unfolding breaker_for
breaker_for-set settings d log p b = ground (arith, get-set d p p b, eq_iff p p)

record_success-closed : (now : ℕ) (b : CircuitBreaker) → is_open now (record_success b) ≡ false
unfolding is_open record_success
record_success-closed now b = refl

module _ (settings : LlmSettings) (model stage : String) (adapter_id : Option String) (c : Call)
    (client : LlmClient) where
  after_reply :
      (content : String) (m n : ℕ)
      → is_open c.times.tested (breaker_for settings client (provider_of model)) ≡ false
      → c.answer ≡ replied content m n
      → (complete settings model stage adapter_id c client).1 ≡ record {
        breakers =
            set client.breakers
              (provider_of model)
              (record_success (breaker_for settings client (provider_of model)));
        call_log =
            call_record settings model stage adapter_id success m n c.times ∷ client.call_log;
      }
  unfolding complete answered logged
  after_reply content m n closed replied_ = ground (arith, closed, replied_)

  -- A circuit that is open refuses the call: no record is added, and so the provider is not called.
  -- Once the reset window is over, a call that the provider answers returns the content, and leaves a
  -- breaker that is closed at every later time.
  pub circuit_recovers :
      (opened : ℕ) (content : String) (m n : ℕ)
      → (breaker_for settings client (provider_of model)).opened_at ≡ some opened
      → c.answer ≡ replied content m n
      → (c.times.tested
            < opened + (breaker_for settings client (provider_of model)).reset_s * second
          → ((complete settings model stage adapter_id c client).0 ≡ err circuit_open)
            × ((complete settings model stage adapter_id c client).1.call_log ≡ client.call_log))
        × (opened + (breaker_for settings client (provider_of model)).reset_s * second
              ≤ c.times.tested
            → ((r : CallRecord) × ((complete settings model stage adapter_id c client).0
                  ≡ ok (content, r)))
              × ((now : ℕ)
                  → is_open now (
                      breaker_for settings
                        (complete settings model stage adapter_id c client).1
                        (provider_of model))
                    ≡ false))
  unfolding complete answered logged is_open
  circuit_recovers opened content m n was replied_ = (
    λ early. ground (arith, was, early),
    λ late. (
      (
        call_record settings model stage adapter_id success m n c.times,
        ground (arith, was, replied_, late),
      ),
      λ now.
          let closed : is_open c.times.tested (breaker_for settings client (provider_of model))
              ≡ false =
            ground (arith, was, late) in
          let b = breaker_for settings client (provider_of model) in
          subst
            (λ (after : LlmClient).
              is_open now (breaker_for settings after (provider_of model)) ≡ false)
            (sym (after_reply content m n closed replied_))
            (subst (λ (x : CircuitBreaker). is_open now x ≡ false)
              (sym
                (breaker_for-set settings client.breakers _ (provider_of model) (record_success b)))
              (record_success-closed now b)),
    ),
  )

-- How the failures of a breaker add up, in their order.
unfoldable pub record_failures : List ℕ → CircuitBreaker → CircuitBreaker
record_failures [] b = b
record_failures (t ∷ ts) b = record_failures ts (record_failure t b)

record_failures-counts :
    (ts : List ℕ) (b : CircuitBreaker)
    → ((record_failures ts b).consecutive_failures ≡ b.consecutive_failures + length ts)
      × ((record_failures ts b).fail_threshold ≡ b.fail_threshold)
unfolding record_failures record_failure
record_failures-counts [] b = (omega arith, refl)
record_failures-counts (t ∷ ts) b = ground (arith, record_failures-counts ts (record_failure t b))

record_failures-IsSound :
    (ts : List ℕ) (b : CircuitBreaker) → IsSound b → IsSound (record_failures ts b)
unfolding record_failures
record_failures-IsSound [] b s = s
record_failures-IsSound (t ∷ ts) b s =
    record_failures-IsSound ts (record_failure t b) (record_failure-IsSound t b s)

-- From a new breaker with a threshold above zero, a row of failures opens the circuit at the failure
-- that reaches the threshold and not before, and each later failure opens it anew.
opens_exactly :
    (threshold reset_s : ℕ) (ts : List ℕ) (t : ℕ)
    → 0 < threshold
    → (record_failure t (record_failures ts (new_breaker threshold reset_s))).opened_at
      ≡ (if leb threshold (length ts + 1) then some t else none)
unfolding record_failure new_breaker
opens_exactly threshold reset_s ts t positive =
    let b = new_breaker threshold reset_s in
    let counts = record_failures-counts ts b in
    let sound = record_failures-IsSound ts b (new_breaker-IsSound threshold reset_s positive) in
    elim (Option-cases (record_failures ts b).opened_at) [
      | inl none_ ↦ ground (arith, counts, none_)
      | inr (u, some_) ↦ ground (arith, counts, some_, sound.opened u some_)
    ]
