-- ===== src/Tests/Learning.antt =====
-- A policy with two pins, the bindings of three servers, and a trace of rejections.
use oss_agent_tools.Prelude.{
  ℕ, String, ◌≡◌, refl, ◌↔◌, true, false, Option, none, some, List, [], ◌∷◌, string_key, contains,
  is_some, All, all,
}
use oss_agent_tools.Trace.{
  TraceEvent, EventType, Actor, Value, str, bool, approval_response, tool_call, observation, user,
  agent, methodology, tension, Tension, pending,
}
use oss_agent_tools.Trust.{
  PinMode, strict, warn, TrustMcpServer, TrustPolicy, BindingsServer, Bindings,
}
use oss_agent_tools.Trust.Manager.{pin_mcp_server, verify_mcp_server}
use oss_agent_tools.Trust.Auditor.{audit}
use oss_agent_tools.Trust.Laws.{
  strictly_trusted, verify_mcp_server-pin, audit-passed, audit-unchanged,
}
use oss_agent_tools.Drift.{DriftDetectionOptions, DriftProposal}
use oss_agent_tools.Drift.Signals.{detect_coverage_gaps}
use oss_agent_tools.Drift.Proposals.{Stamp}
use oss_agent_tools.Drift.Detect.{detect_from_events}
use oss_agent_tools.Drift.Counts.{named_by}
use oss_agent_tools.Drift.Laws.{IsRated, detect_from_events-IsRated, detect_coverage_gaps-silent}

abbrev pin_of : String → String → PinMode → TrustMcpServer
pin_of url fingerprint mode = record { url = url; fingerprint = fingerprint; pin_mode = mode }

abbrev policy : TrustPolicy
policy = record {
  mcp_servers = pin_of "http://a" "f1" strict ∷ pin_of "http://b" "f2" warn ∷ [];
  skill_sources = [];
  update_policy = record { allow_auto_updates = false; require_review = true };
}

abbrev server : String → String → Option String → BindingsServer
server name url fingerprint = record {
  name = name;
  url = url;
  pinned_fingerprint = fingerprint;
  auth = none;
  tools =
      record { tool_ref = "search"; risk_hints = none; default_permission_scope_id = none } ∷ [];
  resources = none;
  prompts = none;
  last_bind_at = "2026-01-01T00:00:00Z";
}

abbrev bindings : Bindings
bindings = record {
  servers =
      server "a" "http://a" (some "f1")
      ∷ server "b" "http://b" (some "g")
      ∷ server "c" "http://c" none
      ∷ [];
}

abbrev changed : Bindings
changed = record { servers = server "a" "http://a" (some "g") ∷ [] }

pinned_test : (audit "now" policy bindings none).passed ≡ true
unfolding audit
pinned_test = refl

mismatch_test : (audit "now" policy changed none).passed ≡ false
unfolding audit
mismatch_test = refl

abbrev other_print : String
other_print = "f1"

verify_mcp_server-pin_example :
    let after = pin_mcp_server policy "http://a" "f9" strict in
    (((verify_mcp_server after "http://a" "f1").trusted ≡ true) ↔ ("f9" ≡ other_print))
    × (is_some (verify_mcp_server after "http://a" "f1").reason ≡ true)
    × (verify_mcp_server after "http://b" "f1" ≡ verify_mcp_server policy "http://b" "f1")
verify_mcp_server-pin_example = verify_mcp_server-pin policy "http://a" "f9" "http://b" "f1" strict

audit-passed_example :
    (audit "now" policy changed none).passed ≡ all (strictly_trusted policy) changed.servers
audit-passed_example = audit-passed "now" policy changed none

audit-unchanged_example :
    audit "now" policy bindings (some bindings) ≡ audit "now" policy bindings none
audit-unchanged_example = audit-unchanged "now" policy bindings

abbrev event : EventType → Actor → List (String × Value) → TraceEvent
event type actor fields = record {
  run_id = "r";
  timestamp = "2026-01-01T00:00:00Z";
  actor = actor;
  skill_id = some "write";
  playbook_id = none;
  step_id = none;
  event_type = type;
  tool_ref = none;
  input_hash = none;
  output_hash = none;
  risk_score = none;
  principle_refs = none;
  cost = none;
  details = some fields;
  error_message = none;
  observation_category = some methodology;
  tension_details = some (record { description = "d"; involves = []; status = pending });
}

abbrev rejection : TraceEvent
rejection =
    event approval_response user (("approved", bool false) ∷ ("reason", str "too long") ∷ [])

abbrev trace : List TraceEvent
trace = rejection ∷ rejection ∷ event observation agent [] ∷ rejection ∷ []

abbrev options : DriftDetectionOptions
options = record {
  since = some 5;
  skill_id = some "write";
  mode = none;
  constitution_path = none;
  known_skill_ids = some ("write" ∷ []);
  known_tool_refs = none;
}

abbrev time_of : String → Option ℕ
time_of s = some 10

abbrev stamps : ℕ → Stamp
stamps n = record { now_ms = n; random = "x"; now_iso = "2026-01-02T00:00:00Z" }

abbrev detected : List DriftProposal
detected =
    detect_from_events time_of (λ path. none) (λ text. none) 20 (λ n. "[object Object]") stamps
      trace options

detect_from_events-IsRated_example : All IsRated detected
detect_from_events-IsRated_example =
    detect_from_events-IsRated time_of (λ path. none) (λ text. none) 20 (λ n. "[object Object]")
      stamps trace options

detect_coverage_gaps-silent_example : (detect_coverage_gaps trace ("write" ∷ []) [] ≡ []) ↔ (
    ((r : String) → named_by (λ e. e.skill_id) trace r ≡ true → contains r ("write" ∷ []) ≡ true)
    × ((r : String) → named_by (λ e. e.tool_ref) trace r ≡ true → contains r [] ≡ true))
detect_coverage_gaps-silent_example = detect_coverage_gaps-silent trace ("write" ∷ []) []

abbrev tensions : List TraceEvent
tensions = let t = event tension agent [] in t ∷ t ∷ t ∷ t ∷ t ∷ []
