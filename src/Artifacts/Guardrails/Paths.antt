-- ===== src/Artifacts/Guardrails/Paths.antt =====
-- The two paths of the compiler, from flat and from structured answers, agree.
use oss_agent_tools.AutoManage.Text.{Text}
use oss_agent_tools.Artifacts.Guardrails.{ApprovalAction, Channel, GuardrailsApproval}

-- A rule without its expression.
abbrev pub shape : GuardrailsApproval → Text × ApprovalAction × Channel
shape r = (r.rule_id, r.action, r.channel)
