-- ===== src/Rules/Contract/Each.antt =====
-- Each rule of app/rules meets the contract.
use nbfc_compliance_agent.Prelude.{arith}
use nbfc_compliance_agent.Rules.Contract.{Contract}
use nbfc_compliance_agent.Rules.Release.{r01, r02, r02b}
use nbfc_compliance_agent.Rules.Pricing.{r03, r04, r05, r06}
use nbfc_compliance_agent.Rules.Digital.{r07, r08, r09, r10}
use nbfc_compliance_agent.Rules.Disclosure.{r11, r12, r26, r27}
use nbfc_compliance_agent.Rules.Data.{r13, r14, r15}
use nbfc_compliance_agent.Rules.Contact.{r16, r17, r22}
use nbfc_compliance_agent.Rules.Recovery.{r18, r19, r20, r21, r25}
use nbfc_compliance_agent.Rules.Device.{r23, r24}

pub r01-Contract : Contract r01
unfolding r01
r01-Contract = record {
  cites = λ facts account as_of ex o h. ground arith;
  silent = λ facts account as_of ex h. ground arith;
}

pub r02-Contract : Contract r02
unfolding r02
r02-Contract = record {
  cites = λ facts account as_of ex o h. ground arith;
  silent = λ facts account as_of ex h. ground arith;
}

pub r02b-Contract : Contract r02b
unfolding r02b
r02b-Contract = record {
  cites = λ facts account as_of ex o h. ground arith;
  silent = λ facts account as_of ex h. ground arith;
}

pub r03-Contract : Contract r03
unfolding r03
r03-Contract = record {
  cites = λ facts account as_of ex o h. ground arith;
  silent = λ facts account as_of ex h. ground arith;
}

pub r04-Contract : Contract r04
unfolding r04
r04-Contract = record {
  cites = λ facts account as_of ex o h. ground arith;
  silent = λ facts account as_of ex h. ground arith;
}

pub r05-Contract : Contract r05
unfolding r05
r05-Contract = record {
  cites = λ facts account as_of ex o h. ground arith;
  silent = λ facts account as_of ex h. ground arith;
}

pub r06-Contract : Contract r06
unfolding r06
r06-Contract = record {
  cites = λ facts account as_of ex o h. ground arith;
  silent = λ facts account as_of ex h. ground arith;
}

pub r07-Contract : Contract r07
unfolding r07
r07-Contract = record {
  cites = λ facts account as_of ex o h. ground arith;
  silent = λ facts account as_of ex h. ground arith;
}

pub r08-Contract : Contract r08
unfolding r08
r08-Contract = record {
  cites = λ facts account as_of ex o h. ground arith;
  silent = λ facts account as_of ex h. ground arith;
}

pub r09-Contract : Contract r09
unfolding r09
r09-Contract = record {
  cites = λ facts account as_of ex o h. ground arith;
  silent = λ facts account as_of ex h. ground arith;
}

pub r10-Contract : Contract r10
unfolding r10
r10-Contract = record {
  cites = λ facts account as_of ex o h. ground arith;
  silent = λ facts account as_of ex h. ground arith;
}

pub r11-Contract : Contract r11
unfolding r11
r11-Contract = record {
  cites = λ facts account as_of ex o h. ground arith;
  silent = λ facts account as_of ex h. ground arith;
}

pub r12-Contract : Contract r12
unfolding r12
r12-Contract = record {
  cites = λ facts account as_of ex o h. ground arith;
  silent = λ facts account as_of ex h. ground arith;
}

pub r13-Contract : Contract r13
unfolding r13
r13-Contract = record {
  cites = λ facts account as_of ex o h. ground arith;
  silent = λ facts account as_of ex h. ground arith;
}

pub r14-Contract : Contract r14
unfolding r14
r14-Contract = record {
  cites = λ facts account as_of ex o h. ground arith;
  silent = λ facts account as_of ex h. ground arith;
}

pub r15-Contract : Contract r15
unfolding r15
r15-Contract = record {
  cites = λ facts account as_of ex o h. ground arith;
  silent = λ facts account as_of ex h. ground arith;
}

pub r16-Contract : Contract r16
unfolding r16
r16-Contract = record {
  cites = λ facts account as_of ex o h. ground arith;
  silent = λ facts account as_of ex h. ground arith;
}

pub r17-Contract : Contract r17
unfolding r17
r17-Contract = record {
  cites = λ facts account as_of ex o h. ground arith;
  silent = λ facts account as_of ex h. ground arith;
}

pub r18-Contract : Contract r18
unfolding r18
r18-Contract = record {
  cites = λ facts account as_of ex o h. ground arith;
  silent = λ facts account as_of ex h. ground arith;
}

pub r19-Contract : Contract r19
unfolding r19
r19-Contract = record {
  cites = λ facts account as_of ex o h. ground arith;
  silent = λ facts account as_of ex h. ground arith;
}

pub r20-Contract : Contract r20
unfolding r20
r20-Contract = record {
  cites = λ facts account as_of ex o h. ground arith;
  silent = λ facts account as_of ex h. ground arith;
}

pub r21-Contract : Contract r21
unfolding r21
r21-Contract = record {
  cites = λ facts account as_of ex o h. ground arith;
  silent = λ facts account as_of ex h. ground arith;
}

pub r22-Contract : Contract r22
unfolding r22
r22-Contract = record {
  cites = λ facts account as_of ex o h. ground arith;
  silent = λ facts account as_of ex h. ground arith;
}

pub r23-Contract : Contract r23
unfolding r23
r23-Contract = record {
  cites = λ facts account as_of ex o h. ground arith;
  silent = λ facts account as_of ex h. ground arith;
}

pub r24-Contract : Contract r24
unfolding r24
r24-Contract = record {
  cites = λ facts account as_of ex o h. ground arith;
  silent = λ facts account as_of ex h. ground arith;
}

pub r25-Contract : Contract r25
unfolding r25
r25-Contract = record {
  cites = λ facts account as_of ex o h. ground arith;
  silent = λ facts account as_of ex h. ground arith;
}

pub r26-Contract : Contract r26
unfolding r26
r26-Contract = record {
  cites = λ facts account as_of ex o h. ground arith;
  silent = λ facts account as_of ex h. ground arith;
}

pub r27-Contract : Contract r27
unfolding r27
r27-Contract = record {
  cites = λ facts account as_of ex o h. ground arith;
  silent = λ facts account as_of ex h. ground arith;
}
