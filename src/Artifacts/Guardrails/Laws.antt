-- ===== src/Artifacts/Guardrails/Laws.antt =====
-- What compiled guardrails guarantee, from structured and from flat answers.
use oss_agent_tools.Prelude.{
  ◌<◌, ◌≡◌, Bool, true, false, Option, none, some, List, All, Any, string_key,
}
use oss_agent_tools.Numbers.{Arithmetic}
use oss_agent_tools.AutoManage.Text.{Text}
use oss_agent_tools.AutoManage.Status.{codes}
use oss_agent_tools.Artifacts.{StructuredAnswers, SessionState}
use oss_agent_tools.Artifacts.Guardrails.{
  ApprovalAction, require_approval, block, allow, GuardrailsApproval, GuardrailsV1,
  DomainGuardrailPreset,
}
use oss_agent_tools.Artifacts.Guardrails.Compiler.{high_risk, asks}

abbrev allows : ApprovalAction → Bool
allows allow = true
allows require_approval = false
allows block = false

-- A rule that holds an action up.
abbrev Holds : GuardrailsApproval → Type 0
Holds r = allows r.action ≡ false

abbrev IsSafe : DomainGuardrailPreset → Type 0
IsSafe p = All Holds p.extra_approvals × (0 < p.rate_limit_multiplier)

module _ {N : Type 0} (a : Arithmetic N) (lower : Text → Text) where
  abbrev AsksFor : Text → ApprovalAction → Text → GuardrailsApproval → Type 0
  AsksFor question action t r = (r.when ≡ asks lower question t) × (r.action ≡ action)

  -- A rule with the action asks for the text.
  abbrev pub Asked : Text → ApprovalAction → List GuardrailsApproval → Text → Type 0
  Asked question action rules t = Any (AsksFor question action t) rules

  abbrev pub AnswersGuarded : Option (StructuredAnswers N) → List GuardrailsApproval → Type 0
  AnswersGuarded none rules = Unit
  AnswersGuarded (some sa) rules =
      All (Asked (codes "action.description matches") block rules) sa.taboos.never_do
      × All (Asked (codes "action.tags contains") require_approval rules) sa.taboos.must_escalate

  abbrev pub IsGuarded : SessionState N → GuardrailsV1 → Type 0
  IsGuarded session g =
      All Holds g.approvals
      × Any (λ r. r ≡ high_risk a) g.approvals
      × All (λ l. 0 < l.limit) g.rate_limits
      × AnswersGuarded session.structured_answers g.approvals
