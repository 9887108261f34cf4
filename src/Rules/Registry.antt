-- ===== src/Rules/Registry.antt =====
-- app/rules/registry.py and app/rules/__init__.py: registration with the check of the clause
-- paths' form, look-up by field, and shadow mode. Rule classes have no state, so `rule_cls()` is the
-- rule itself.
use nbfc_compliance_agent.Prelude.{
  String, Bool, true, false, Option, none, some, List, [], ◌∷◌, keep, all, member, if◌then◌else◌,
}
use nbfc_compliance_agent.Prelude.Dict.{Dict, get, set}
use nbfc_compliance_agent.Prelude.Raises.{Raises, returned, raised, value_error, key_error, ◌>>=◌}
use nbfc_compliance_agent.Domain.Enums.{
  Severity, critical, major, minor, VerificationStatus, rbi_verified,
}
use nbfc_compliance_agent.Rules.Base.{Rule}
use nbfc_compliance_agent.Rules.Path.{canonical_path, instrument_of}
use nbfc_compliance_agent.Rules.Release.{r01, r02, r02b}
use nbfc_compliance_agent.Rules.Pricing.{r03, r04, r05, r06}
use nbfc_compliance_agent.Rules.Digital.{r07, r08, r09, r10}
use nbfc_compliance_agent.Rules.Disclosure.{r11, r12, r26, r27}
use nbfc_compliance_agent.Rules.Data.{r13, r14, r15}
use nbfc_compliance_agent.Rules.Contact.{r16, r17, r22}
use nbfc_compliance_agent.Rules.Recovery.{r18, r19, r20, r21, r25}
use nbfc_compliance_agent.Rules.Device.{r23, r24}

pub record RuleRegistration : Type 0 where
  pub rule_cls : Rule
  pub shadow_if_unverified : Bool
  pub severity : Severity

abbrev pub Registry : Type 0
Registry = Dict RuleRegistration

unfoldable pub register : Bool → Severity → Rule → Registry → Raises Registry
register shadow_if_unverified severity rule_cls registry =
    if all canonical_path rule_cls.clause_paths
    then returned (
        set registry rule_cls.id (record {
          rule_cls = rule_cls;
          shadow_if_unverified = shadow_if_unverified;
          severity = severity;
        }))
    else raised value_error

-- The rule modules in the order of their import, each with the arguments of its decorator.
abbrev pub rule_modules : List RuleRegistration
rule_modules =
    record { rule_cls = r01; shadow_if_unverified = true; severity = critical }
    ∷ record { rule_cls = r02; shadow_if_unverified = true; severity = critical }
    ∷ record { rule_cls = r02b; shadow_if_unverified = true; severity = critical }
    ∷ record { rule_cls = r03; shadow_if_unverified = true; severity = critical }
    ∷ record { rule_cls = r04; shadow_if_unverified = true; severity = major }
    ∷ record { rule_cls = r05; shadow_if_unverified = true; severity = major }
    ∷ record { rule_cls = r06; shadow_if_unverified = true; severity = major }
    ∷ record { rule_cls = r07; shadow_if_unverified = true; severity = major }
    ∷ record { rule_cls = r08; shadow_if_unverified = true; severity = critical }
    ∷ record { rule_cls = r09; shadow_if_unverified = true; severity = critical }
    ∷ record { rule_cls = r10; shadow_if_unverified = true; severity = major }
    ∷ record { rule_cls = r11; shadow_if_unverified = true; severity = minor }
    ∷ record { rule_cls = r12; shadow_if_unverified = true; severity = minor }
    ∷ record { rule_cls = r13; shadow_if_unverified = true; severity = major }
    ∷ record { rule_cls = r14; shadow_if_unverified = true; severity = major }
    ∷ record { rule_cls = r15; shadow_if_unverified = true; severity = major }
    ∷ record { rule_cls = r16; shadow_if_unverified = true; severity = major }
    ∷ record { rule_cls = r17; shadow_if_unverified = true; severity = major }
    ∷ record { rule_cls = r18; shadow_if_unverified = true; severity = minor }
    ∷ record { rule_cls = r19; shadow_if_unverified = true; severity = major }
    ∷ record { rule_cls = r20; shadow_if_unverified = true; severity = critical }
    ∷ record { rule_cls = r21; shadow_if_unverified = true; severity = major }
    ∷ record { rule_cls = r22; shadow_if_unverified = true; severity = major }
    ∷ record { rule_cls = r23; shadow_if_unverified = true; severity = critical }
    ∷ record { rule_cls = r24; shadow_if_unverified = true; severity = major }
    ∷ record { rule_cls = r25; shadow_if_unverified = true; severity = minor }
    ∷ record { rule_cls = r26; shadow_if_unverified = true; severity = minor }
    ∷ record { rule_cls = r27; shadow_if_unverified = true; severity = minor }
    ∷ []

unfoldable pub import_rules : List RuleRegistration → Registry → Raises Registry
import_rules [] registry = returned registry
import_rules (m ∷ ms) registry =
    register m.shadow_if_unverified m.severity m.rule_cls registry >>= import_rules ms

-- `reg.rule_cls() for reg in _REGISTRY.values()`
unfoldable pub rules_of : Registry → List Rule
rules_of [] = []
rules_of ((k, reg) ∷ registry) = reg.rule_cls ∷ rules_of registry

unfoldable pub rules_for_field : Registry → String → List Rule
rules_for_field registry field_key =
    keep (λ (rule : Rule). member field_key rule.consumes) (rules_of registry)

is_rbi_verified : Option VerificationStatus → Bool
is_rbi_verified (some rbi_verified) = true
is_rbi_verified s = false

-- Some instrument behind the paths is not rbi_verified; one that is not known is unverified.
unfoldable pub unverified_basis : Dict VerificationStatus → List String → Bool
unfolding is_rbi_verified
unverified_basis verification [] = false
unverified_basis verification (path ∷ paths) =
    let rest = unverified_basis verification paths in
    if is_rbi_verified (get verification (instrument_of path)) then rest else true

unfoldable pub is_shadow : Registry → String → Dict VerificationStatus → Raises Bool
is_shadow registry rule_id verification = elim (get registry rule_id) [
  | none ↦ raised key_error
  | some reg ↦ returned (
      if reg.shadow_if_unverified
      then unverified_basis verification reg.rule_cls.clause_paths
      else false)
]
