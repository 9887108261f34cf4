-- ===== src/Llm/Tests.antt =====
-- The client of app/llm/client.py on concrete calls.
use nbfc_compliance_agent.Prelude.{
  ℕ, ◌+◌, ◌*◌, ◌<◌, ◌≤◌, String, ◌≡◌, ◌⊎◌, refl, false, none, some, [], ◌∷◌, length, eq_refl, arith,
}
use nbfc_compliance_agent.Prelude.Dict.{get}
use nbfc_compliance_agent.Llm.Breaker.{second, is_open}
use nbfc_compliance_agent.Llm.Client.{
  Times, Call, CallRecord, replied, timed_out, LlmSettings, LlmClient, ok, err, circuit_open,
  provider_of, breaker_for, complete, structured,
}
use nbfc_compliance_agent.Llm.Counted.{AllSound}
use nbfc_compliance_agent.Llm.Runs.{start, call, Ran-AllSound, circuit_recovers}
use nbfc_compliance_agent.Llm.Structured.{structured_bounded}

abbrev settings : LlmSettings
settings = record {
  llm_breaker_fail_threshold = 1;
  llm_breaker_reset_s = 30;
  serving_mode = "hosted_baseline";
  extract_model = "gemini/flash";
  extract_model_tuned = none;
  extract_adapter_id = none;
  classify_model = "gemini/flash";
  verdict_model = "gemini/flash";
}

abbrev fresh : LlmClient
fresh = record { breakers = []; call_log = [] }

abbrev at : ℕ → Times
at n = record { tested = n; started = n; failed = n; measured = n }

-- A call that times out after a second, and one that is answered after a minute.
abbrev slow : Call
slow = record { times = at 1000000000; answer = timed_out }

abbrev answered_call : Call
answered_call = record { times = at 60000000000; answer = replied "{}" 10 2 }

-- A client whose provider has failed.
abbrev failed_client : LlmClient
failed_client = record {
  breakers =
      (
        provider_of "gemini/flash",
        record {
          fail_threshold = 1;
          reset_s = 30;
          consecutive_failures = 1;
          opened_at = some 1000000000;
        },
      )
      ∷ [];
  call_log = [];
}

Ran-AllSound_example :
    AllSound settings (complete settings "gemini/flash" "extract" none slow fresh).1
Ran-AllSound_example =
    Ran-AllSound settings (complete settings "gemini/flash" "extract" none slow fresh).1
      (ground arith) (call "gemini/flash" "extract" none slow start)

circuit_recovers_example :
    (answered_call.times.tested
        < 1000000000
          + (breaker_for settings failed_client (provider_of "gemini/flash")).reset_s * second
      → ((complete settings "gemini/flash" "extract" none answered_call failed_client).0
          ≡ err circuit_open)
        × ((complete settings "gemini/flash" "extract" none answered_call failed_client).1.call_log
            ≡ []))
    × (1000000000
            + (breaker_for settings failed_client (provider_of "gemini/flash")).reset_s * second
          ≤ answered_call.times.tested
        → ((r : CallRecord) × ((complete settings "gemini/flash" "extract" none answered_call
                failed_client).0
              ≡ ok ("{}", r)))
          × ((now : ℕ)
              → is_open now (
                  breaker_for settings
                    (complete settings "gemini/flash" "extract" none answered_call failed_client).1
                    (provider_of "gemini/flash"))
                ≡ false))
unfolding breaker_for get
circuit_recovers_example =
    circuit_recovers settings "gemini/flash" "extract" none answered_call failed_client 1000000000
      "{}" 10 2 (ground (arith, eq_refl (provider_of "gemini/flash"))) refl

structured_bounded_example :
    (length
        (structured settings "gemini/flash" "extract" none
          (λ s. some s)
          slow
          answered_call
          fresh).1.call_log
      ≤ 0 + 2)
    × ((a : String) (r : CallRecord)
        → (structured settings "gemini/flash" "extract" none
            (λ s. some s)
            slow
            answered_call
            fresh).0
          ≡ ok (a, r)
        → (content : String) × (m : ℕ) × (n : ℕ) × (slow.answer ≡ replied content m n)
          × ((some content ≡ some a)
              ⊎ ((some content ≡ none)
                  × ((again : String) × (k : ℕ) × (l : ℕ) × (answered_call.answer
                        ≡ replied again k l)
                      × (some again ≡ some a)))))
structured_bounded_example =
    structured_bounded settings "gemini/flash" "extract" none (λ s. some s) slow answered_call fresh
