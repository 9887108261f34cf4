-- ===== src/Prelude/Raises.antt =====
-- Python functions that may raise: a value or the exception. The exceptions are those of
-- app/rules/base.py, app/verdict/severity.py, app/conflicts/detector.py, app/retrieve and app/llm,
-- and the interpreter's own that the modelled code can raise.
use Prim.Native.String.{String}
use mathlib.Core.Path.{◌≡◌, refl}
use mathlib.Core.Logic.{◌⊎◌, inl, inr}

pub data Exception : Type 0 where
  missing_fact : String → Exception
  assertion_error : String → Exception
  key_error value_error type_error index_error unknown_rule_error : Exception
  corpus_ingest_error assessment_task_error embedding_error pinning_mismatch_error : Exception
  conflict_comparison_error applicability_error client_error : Exception

pub data Raises {ℓ} (A : Type ℓ) : Type ℓ where
  returned : A → Raises A
  raised : Exception → Raises A

infixl 5 ◌>>=◌ ◌>>◌
abbrev pub ◌>>=◌ {ℓ κ} : {A : Type ℓ} {B : Type κ} → Raises A → (A → Raises B) → Raises B
returned a >>= f = f a
raised e >>= f = raised e

abbrev pub ◌>>◌ {ℓ} : {B : Type ℓ} → Raises (Unit {0}) → Raises B → Raises B
m >> k = m >>= λ _. k

-- `try: x = m` / `except MissingFact: handler` / the rest with `x`
abbrev pub try_missing {ℓ κ} :
    {A : Type ℓ} {B : Type κ} → Raises A → Raises B → (A → Raises B) → Raises B
try_missing (returned a) handler rest = rest a
try_missing (raised (missing_fact k)) handler rest = handler
try_missing (raised e) handler rest = raised e

-- To split on a call and keep the equation.
pub Raises-cases {ℓ} :
    {A : Type ℓ} (m : Raises A) → ((a : A) × (m ≡ returned a)) ⊎ ((e : Exception) × (m ≡ raised e))
Raises-cases (returned a) = inl (a, refl)
Raises-cases (raised e) = inr (e, refl)
