-- ===== src/Llm/Client.antt =====
-- LLMClient of app/llm/client.py with parse_or_repair of structured.py and `route` of routing.py. What
-- the provider answers is an argument of each call, and so are the readings of the clock; the prompt,
-- the JSON schema and the cost, a float of the provider's library, are left out. The log has the newest
-- record first.
use Prim.Native.Char.{code}
use nbfc_compliance_agent.Prelude.{
  ℕ, ◌-◌, ◌/◌, ◌==◌, String, Bool, false, ◌||◌, Option, none, some, List, ◌∷◌, str_eq,
  if◌then◌else◌,
}
use nbfc_compliance_agent.Prelude.Dict.{Dict, get, set}
use nbfc_compliance_agent.Rules.Path.{instrument_of}
use nbfc_compliance_agent.Llm.Breaker.{
  CircuitBreaker, new_breaker, is_open, record_success, record_failure,
}

pub data Outcome : Type 0 where
  success transient_error permanent_error : Outcome

pub record CallRecord : Type 0 where
  pub provider : String
  pub model : String
  pub adapter_id : Option String
  pub stage : String
  pub tokens_in : ℕ
  pub tokens_out : ℕ
  pub wall_clock_ms : ℕ
  pub outcome : Outcome

-- What `litellm.acompletion` does: it replies, raises one of the four transient exceptions, one of the
-- two permanent ones, or another.
pub data Answer : Type 0 where
  replied : (content : String) (prompt_tokens completion_tokens : ℕ) → Answer
  timed_out rejected failed_otherwise : Answer

-- The readings of the clock in one call, in their order.
pub record Times : Type 0 where
  pub tested : ℕ
  pub started : ℕ
  pub failed : ℕ
  pub measured : ℕ

pub record Call : Type 0 where
  pub times : Times
  pub answer : Answer

-- TransientLLMError, with a circuit that is open apart, PermanentLLMError, StructuredOutputError, and
-- an exception of the provider's library that is not caught.
pub data LlmError : Type 0 where
  circuit_open transient_llm_error permanent_llm_error structured_output_error uncaught : LlmError

pub data Result (A : Type 0) : Type 0 where
  ok : A → Result A
  err : LlmError → Result A

pub record LlmSettings : Type 0 where
  pub llm_breaker_fail_threshold : ℕ
  pub llm_breaker_reset_s : ℕ
  pub serving_mode : String
  pub extract_model : String
  pub extract_model_tuned : Option String
  pub extract_adapter_id : Option String
  pub classify_model : String
  pub verdict_model : String

pub record LlmClient : Type 0 where
  pub breakers : Dict CircuitBreaker
  pub call_log : List CallRecord

has_slash : String → Bool
has_slash String.[] = false
has_slash (String.◌∷◌ c s) = code c == b'/' || has_slash s

unfoldable pub provider_of : String → String
unfolding has_slash
provider_of model = if has_slash model then instrument_of model else "unknown"

-- _breaker_for, without the insertion: a breaker that is missing is a new one.
unfoldable pub breaker_for : LlmSettings → LlmClient → String → CircuitBreaker
breaker_for settings client provider = elim (get client.breakers provider) [
  | some b ↦ b
  | none ↦ new_breaker settings.llm_breaker_fail_threshold settings.llm_breaker_reset_s
]

module _ (settings : LlmSettings) (model stage : String) (adapter_id : Option String) where
  unfoldable pub call_record : Outcome → ℕ → ℕ → Times → CallRecord
  call_record outcome tokens_in tokens_out t = record {
    provider = provider_of model;
    model = model;
    adapter_id = adapter_id;
    stage = stage;
    tokens_in = tokens_in;
    tokens_out = tokens_out;
    wall_clock_ms = (t.measured - t.started) / 1000000;
    outcome = outcome;
  }

  -- The client after its breaker for the provider is `b`, with one more record.
  unfoldable pub logged : CircuitBreaker → CallRecord → LlmClient → LlmClient
  logged b r client = record {
    breakers = set client.breakers (provider_of model) b;
    call_log = r ∷ client.call_log;
  }

  unfoldable pub answered :
      CircuitBreaker → Call → LlmClient → Result (String × CallRecord) × LlmClient
  unfolding logged call_record
  answered b call client = elim call.answer [
    | replied content prompt_tokens completion_tokens ↦
        let r = call_record success prompt_tokens completion_tokens call.times in
        (ok (content, r), logged (record_success b) r client)
    | timed_out ↦ (
      err transient_llm_error,
      logged (record_failure call.times.failed b) (call_record transient_error 0 0 call.times)
          client,
    )
    | rejected ↦
        (err permanent_llm_error, logged b (call_record permanent_error 0 0 call.times) client)
    | failed_otherwise ↦
        (err uncaught, record client { breakers = set client.breakers (provider_of model) b })
  ]

  unfoldable pub complete : Call → LlmClient → Result (String × CallRecord) × LlmClient
  complete call client =
      let b = breaker_for settings client (provider_of model) in
      if is_open call.times.tested b
      then (
        err circuit_open,
        record client { breakers = set client.breakers (provider_of model) b },
      )
      else answered b call client

  module _ {A : Type 0} (parse : String → Option A) where
    -- The repair round: the second call, whose output has to parse.
    unfoldable pub repair : Call → LlmClient → Result (A × CallRecord) × LlmClient
    repair second client =
        let (result, after) = complete second client in
        elim result [
          | err e ↦ (err e, after)
          | ok reply ↦ elim (parse reply.0) [
            | some a ↦ (ok (a, reply.1), after)
            | none ↦ (err structured_output_error, after)
          ]
        ]

    unfoldable pub structured : Call → Call → LlmClient → Result (A × CallRecord) × LlmClient
    unfolding repair
    structured first second client =
        let (result, after) = complete first client in
        elim result [
          | err e ↦ (err e, after)
          | ok reply ↦ elim (parse reply.0) [
            | some a ↦ (ok (a, reply.1), after)
            | none ↦ repair second after
          ]
        ]

-- `embed` uses no breaker and keeps no record: the vectors, or the error.
unfoldable pub embed : {A : Type 0} → Answer → A → Result A
embed (replied content prompt_tokens completion_tokens) vectors = ok vectors
embed timed_out vectors = err transient_llm_error
embed rejected vectors = err permanent_llm_error
embed failed_otherwise vectors = err uncaught

pub record ModelConfig : Type 0 where
  pub model : String
  pub adapter_id : Option String

-- `settings.extract_model_tuned or settings.extract_model`
tuned_or : Option String → String → String
tuned_or none m = m
tuned_or (some t) m = if str_eq t "" then m else t

unfoldable pub route : String → LlmSettings → Option ModelConfig
unfolding tuned_or
route stage settings =
    if str_eq stage "extract"
    then (if str_eq settings.serving_mode "hosted_baseline"
        then some (record { model = settings.extract_model; adapter_id = none })
        else some (record {
          model = tuned_or settings.extract_model_tuned settings.extract_model;
          adapter_id = settings.extract_adapter_id;
        }))
    else if str_eq stage "classify"
    then some (record { model = settings.classify_model; adapter_id = none })
    else if str_eq stage "verdict"
    then some (record { model = settings.verdict_model; adapter_id = none })
    else none
