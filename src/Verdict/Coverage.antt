-- ===== src/Verdict/Coverage.antt =====
-- The severity map of app/verdict/severity.py covers the registry.
use nbfc_compliance_agent.Prelude.{String, ◌≡◌, refl, none, some, [], All, In, All-In, member}
use nbfc_compliance_agent.Prelude.Raises.{returned}
use nbfc_compliance_agent.Domain.Enums.{
  Severity, critical, major, minor, informational, Verdict, compliant, violation, ambiguous,
  no_clause_found,
}
use nbfc_compliance_agent.Rules.Base.{Rule}
use nbfc_compliance_agent.Rules.Registry.{
  Registry, RuleRegistration, rule_modules, import_rules, rules_of, rules_for_field,
}
use nbfc_compliance_agent.Rules.Registered.{IsCanonical, import_rules-All, All-keep_of}
use nbfc_compliance_agent.Verdict.Severities.{severity_for}
use nbfc_compliance_agent.Rules.Release.{r01, r02, r02b}
use nbfc_compliance_agent.Rules.Pricing.{r03, r04, r05, r06}
use nbfc_compliance_agent.Rules.Digital.{r07, r08, r09, r10}
use nbfc_compliance_agent.Rules.Disclosure.{r11, r12, r26, r27}
use nbfc_compliance_agent.Rules.Data.{r13, r14, r15}
use nbfc_compliance_agent.Rules.Contact.{r16, r17, r22}
use nbfc_compliance_agent.Rules.Recovery.{r18, r19, r20, r21, r25}
use nbfc_compliance_agent.Rules.Device.{r23, r24}

-- The rule has an entry in the map.
abbrev pub HasSeverity : Rule → Type 0
HasSeverity rule = (s : Severity) × (severity_for (some rule.id) none violation ≡ returned s)

modules-HasSeverity :
    All (λ (m : RuleRegistration). IsCanonical m.rule_cls → HasSeverity m.rule_cls) rule_modules
unfolding severity_for r01 r02 r02b r03 r04 r05 r06 r07 r08 r09 r10 r11 r12 r13 r14 r15 r16 r17 r18
    r19 r20 r21 r22 r23 r24 r25 r26 r27
modules-HasSeverity = (
  λ c. (critical, refl),
  (
    λ c. (critical, refl),
    (
      λ c. (critical, refl),
      (
        λ c. (critical, refl),
        (
          λ c. (critical, refl),
          (
            λ c. (major, refl),
            (
              λ c. (major, refl),
              (
                λ c. (major, refl),
                (
                  λ c. (critical, refl),
                  (
                    λ c. (critical, refl),
                    (
                      λ c. (major, refl),
                      (
                        λ c. (minor, refl),
                        (
                          λ c. (minor, refl),
                          (
                            λ c. (critical, refl),
                            (
                              λ c. (critical, refl),
                              (
                                λ c. (minor, refl),
                                (
                                  λ c. (major, refl),
                                  (
                                    λ c. (major, refl),
                                    (
                                      λ c. (minor, refl),
                                      (
                                        λ c. (major, refl),
                                        (
                                          λ c. (critical, refl),
                                          (
                                            λ c. (critical, refl),
                                            (
                                              λ c. (major, refl),
                                              (
                                                λ c. (critical, refl),
                                                (
                                                  λ c. (critical, refl),
                                                  (
                                                    λ c. (minor, refl),
                                                    (λ c. (major, refl), (λ c. (minor, refl), tt)),
                                                  ),
                                                ),
                                              ),
                                            ),
                                          ),
                                        ),
                                      ),
                                    ),
                                  ),
                                ),
                              ),
                            ),
                          ),
                        ),
                      ),
                    ),
                  ),
                ),
              ),
            ),
          ),
        ),
      ),
    ),
  ),
)

HasSeverity-total :
    (rule : Rule) (verdict : Verdict)
    → HasSeverity rule
    → (s : Severity) × (severity_for (some rule.id) none verdict ≡ returned s)
unfolding severity_for
HasSeverity-total rule compliant h = h
HasSeverity-total rule violation h = h
HasSeverity-total rule ambiguous h = h
HasSeverity-total rule no_clause_found h = (informational, refl)

-- A rule that the imported registry finds for a field always has a severity: severity_for does not
-- raise for it, whatever the verdict.
severity_for-registered :
    (registry : Registry) (field_key : String) (rule : Rule) (verdict : Verdict)
    → import_rules rule_modules [] ≡ returned registry
    → In rule (rules_for_field registry field_key)
    → (s : Severity) × (severity_for (some rule.id) none verdict ≡ returned s)
unfolding rules_for_field
severity_for-registered registry field_key rule verdict imported found =
    HasSeverity-total rule verdict (
      All-In HasSeverity found (
        All-keep_of HasSeverity (λ r. member field_key r.consumes) (rules_of registry)
          (import_rules-All HasSeverity rule_modules [] registry modules-HasSeverity
            (unfold rules_of in tt) imported)))
