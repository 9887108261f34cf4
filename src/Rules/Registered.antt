-- ===== src/Rules/Registered.antt =====
-- What registration guarantees of the rules that the program looks up.
use nbfc_compliance_agent.Prelude.{
  String, ◌≡◌, Bool, true, false, List, [], ◌∷◌, keep, all, All, In, All-In, member, arith, inl,
  inr, subst, if◌then◌else◌, str_eq, Bool-cases,
}
use nbfc_compliance_agent.Prelude.Dict.{set}
use nbfc_compliance_agent.Prelude.Raises.{Raises, returned, raised, Raises-cases}
use nbfc_compliance_agent.Domain.Enums.{Severity}
use nbfc_compliance_agent.Rules.Base.{Rule}
use nbfc_compliance_agent.Rules.Path.{canonical_path}
use nbfc_compliance_agent.Rules.Contract.{Contract}
use nbfc_compliance_agent.Rules.Contract.Each
use nbfc_compliance_agent.Rules.Registry.{
  Registry, RuleRegistration, register, import_rules, rule_modules, rules_of, rules_for_field,
}

-- A rule whose clause paths have the canonical form.
pub record IsCanonical (r : Rule) : Type 0 where
  pub canonical : all canonical_path r.clause_paths ≡ true

abbrev or_empty : Raises Registry → Registry
or_empty (returned r) = r
or_empty (raised e) = []

abbrev pub OfModule : (Rule → Type 0) → RuleRegistration → Type 0
OfModule P m = P m.rule_cls

module _ (P : Rule → Type 0) where
  rules_of-set :
      (registry : Registry) (id : String) (reg : RuleRegistration)
      → All P (rules_of registry)
      → P reg.rule_cls
      → All P (rules_of (set registry id reg))
  unfolding rules_of set
  rules_of-set [] id reg old new = (new, tt)
  rules_of-set ((j, r) ∷ registry) id reg old new =
      go (str_eq j id) (rules_of-set registry id reg old.1 new)
    where
      go :
          (b : Bool)
          → All P (rules_of (set registry id reg))
          → All P (rules_of (if b then (j, reg) ∷ registry else (j, r) ∷ set registry id reg))
      go true rest = (new, old.1)
      go false rest = (old.0, rest)

  register-All :
      (shadow : Bool) (severity : Severity) (rule : Rule) (registry after : Registry)
      → (IsCanonical rule → P rule)
      → All P (rules_of registry)
      → register shadow severity rule registry ≡ returned after
      → All P (rules_of after)
  unfolding register
  register-All shadow severity rule registry after new old e =
      elim (Bool-cases (all canonical_path rule.clause_paths)) [
        | inl ok ↦
            subst (λ r. All P (rules_of (or_empty r))) (rw ok at e)
              (rules_of-set registry rule.id _ old (new (record { canonical = ok })))
        | inr bad ↦ absurd (ground arith)
      ]

  pub import_rules-All :
      (modules : List RuleRegistration) (registry after : Registry)
      → All (OfModule (λ r. IsCanonical r → P r)) modules
      → All P (rules_of registry)
      → import_rules modules registry ≡ returned after
      → All P (rules_of after)
  unfolding import_rules
  import_rules-All [] registry after new old e = subst (λ r. All P (rules_of (or_empty r))) e old
  import_rules-All (m ∷ ms) registry after new old e =
      elim (Raises-cases (register m.shadow_if_unverified m.severity m.rule_cls registry)) [
        | inr (x, p) ↦ absurd (ground arith)
        | inl (next, p) ↦
            import_rules-All ms next after new.1
              (register-All m.shadow_if_unverified m.severity m.rule_cls registry next new.0 old p)
              (rw p at e)
      ]

  pub All-keep_of : (p : Rule → Bool) (rules : List Rule) → All P rules → All P (keep p rules)
  unfolding keep
  All-keep_of p [] h = tt
  All-keep_of p (r ∷ rs) h = go (p r) (All-keep_of p rs h.1)
    where
      go : (b : Bool) → All P (keep p rs) → All P (if b then r ∷ keep p rs else keep p rs)
      go true rest = (h.0, rest)
      go false rest = rest

-- Every rule module's class meets the contract.
modules-Contract : All (OfModule (λ r. IsCanonical r → Contract r)) rule_modules
modules-Contract = (
  λ c. Each.r01-Contract,
  (
    λ c. Each.r02-Contract,
    (
      λ c. Each.r02b-Contract,
      (
        λ c. Each.r03-Contract,
        (
          λ c. Each.r04-Contract,
          (
            λ c. Each.r05-Contract,
            (
              λ c. Each.r06-Contract,
              (
                λ c. Each.r07-Contract,
                (
                  λ c. Each.r08-Contract,
                  (
                    λ c. Each.r09-Contract,
                    (
                      λ c. Each.r10-Contract,
                      (
                        λ c. Each.r11-Contract,
                        (
                          λ c. Each.r12-Contract,
                          (
                            λ c. Each.r13-Contract,
                            (
                              λ c. Each.r14-Contract,
                              (
                                λ c. Each.r15-Contract,
                                (
                                  λ c. Each.r16-Contract,
                                  (
                                    λ c. Each.r17-Contract,
                                    (
                                      λ c. Each.r18-Contract,
                                      (
                                        λ c. Each.r19-Contract,
                                        (
                                          λ c. Each.r20-Contract,
                                          (
                                            λ c. Each.r21-Contract,
                                            (
                                              λ c. Each.r22-Contract,
                                              (
                                                λ c. Each.r23-Contract,
                                                (
                                                  λ c. Each.r24-Contract,
                                                  (
                                                    λ c. Each.r25-Contract,
                                                    (
                                                      λ c. Each.r26-Contract,
                                                      (λ c. Each.r27-Contract, tt),
                                                    ),
                                                  ),
                                                ),
                                              ),
                                            ),
                                          ),
                                        ),
                                      ),
                                    ),
                                  ),
                                ),
                              ),
                            ),
                          ),
                        ),
                      ),
                    ),
                  ),
                ),
              ),
            ),
          ),
        ),
      ),
    ),
  ),
)

-- Whatever registry the import of the rule modules leaves, every rule that it finds for a field
-- cites exactly its own clause paths, each decisively and with the excerpt that it was given, never
-- abstains with no_clause_found, and is not applicable before its commencement date.
pub rules_for_field-Contract :
    (registry : Registry) (field_key : String) (rule : Rule)
    → import_rules rule_modules [] ≡ returned registry
    → In rule (rules_for_field registry field_key)
    → Contract rule
unfolding rules_for_field
rules_for_field-Contract registry field_key rule imported found = All-In Contract found (
    All-keep_of Contract (λ r. member field_key r.consumes) (rules_of registry)
      (import_rules-All Contract rule_modules [] registry modules-Contract (unfold rules_of in tt)
        imported))

-- Registration keeps out every clause path that is not in canonical form, whatever the modules.
import_rules-IsCanonical :
    (modules : List RuleRegistration) (registry : Registry)
    → import_rules modules [] ≡ returned registry
    → All IsCanonical (rules_of registry)
import_rules-IsCanonical modules registry =
    import_rules-All IsCanonical modules [] registry (each modules) (unfold rules_of in tt)
  where
    each : (ms : List RuleRegistration) → All (OfModule (λ r. IsCanonical r → IsCanonical r)) ms
    each [] = tt
    each (m ∷ ms) = (λ c. c, each ms)
