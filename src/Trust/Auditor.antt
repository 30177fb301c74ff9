-- ===== src/Trust/Auditor.antt =====
-- `TrustAuditor` of TasteKit/tastekit/packages/core/trust/auditor.ts. `now` is the time of the
-- call as an ISO text.
use oss_agent_tools.Prelude.{
  String, Bool, true, false, not, ◌&&◌, Option, none, some, List, [], ◌∷◌, ◌++◌, ◌==◌, string_key,
  nat_eq, contains, add, filter, length, if◌then◌else◌, concat,
}
use oss_agent_tools.Trace.{truthy}
use oss_agent_tools.Details.{Details, Datum, text, texts}
use oss_agent_tools.Trust.{
  PinMode, strict, warn, TrustMcpServer, TrustPolicy, BindingsTool, BindingsServer, Bindings,
}
use oss_agent_tools.Trust.Manager.{pinned_as}

pub data ViolationType : Type 0 where
  fingerprint_mismatch unpinned_server unpinned_skill new_tool : ViolationType

pub data Severity : Type 0 where
  error warning : Severity

pub record AuditViolation : Type 0 where
  pub violation_type : ViolationType
  pub severity : Severity
  pub message : String
  pub details : Details

pub record AuditReport : Type 0 where
  pub timestamp : String
  pub violations : List AuditViolation
  pub passed : Bool

abbrev pub is_error : Severity → Bool
is_error error = true
is_error warning = false

abbrev pub mismatch_severity : PinMode → Severity
mismatch_severity strict = error
mismatch_severity warn = warning

abbrev fingerprint_text : Option String → String
fingerprint_text none = "undefined"
fingerprint_text (some f) = f

-- A fingerprint that is there, not empty and another than the pinned one.
abbrev pub differs : Option String → String → Bool
differs none pinned = false
differs (some f) pinned = not (f == "") && not (f == pinned)

-- What is wrong with one bound server, given its pin.
unfoldable pub server_violations : Option TrustMcpServer → BindingsServer → List AuditViolation
server_violations none server =
    record {
      violation_type = unpinned_server;
      severity = warning;
      message = concat "MCP server not pinned: " server.name;
      details = ("url", text server.url) ∷ [];
    }
    ∷ []
server_violations (some pinned) server =
    if differs server.pinned_fingerprint pinned.fingerprint
    then record {
      violation_type = fingerprint_mismatch;
      severity = mismatch_severity pinned.pin_mode;
      message = concat "Fingerprint mismatch for server: " server.name;
      details =
          ("expected", text pinned.fingerprint)
          ∷ ("actual", text (fingerprint_text server.pinned_fingerprint))
          ∷ [];
    }
      ∷ []
    else if not (truthy server.pinned_fingerprint) && not (pinned.fingerprint == "")
    then record {
      violation_type = unpinned_server;
      severity = warning;
      message =
          concat "Server binding has no pinned fingerprint but trust policy expects one: "
            server.name;
      details = ("url", text server.url) ∷ ("expected_fingerprint", text pinned.fingerprint) ∷ [];
    }
      ∷ []
    else []

unfoldable pub servers_violations : List TrustMcpServer → List BindingsServer → List AuditViolation
unfolding server_violations
servers_violations pins [] = []
servers_violations pins (server ∷ rest) =
    server_violations (pinned_as server.url pins) server ++ servers_violations pins rest

abbrev pub qualified_ref : BindingsServer → BindingsTool → String
qualified_ref server tool = concat server.name (concat ":" tool.tool_ref)

abbrev pub add_tools : BindingsServer → List BindingsTool → List String → List String
add_tools server [] refs = refs
add_tools server (tool ∷ tools) refs = add_tools server tools (add (qualified_ref server tool) refs)

abbrev pub add_servers : List BindingsServer → List String → List String
add_servers [] refs = refs
add_servers (server ∷ rest) refs = add_servers rest (add_tools server server.tools refs)

-- `baselineToolRefs`.
abbrev pub baseline_tool_refs : Bindings → List String
baseline_tool_refs b = add_servers b.servers []

hints : Option (List String) → List (String × Datum)
hints none = []
hints (some hs) = ("risk_hints", texts hs) ∷ []

new_tool_violation : BindingsServer → BindingsTool → AuditViolation
unfolding hints
new_tool_violation server tool = record {
  violation_type = new_tool;
  severity = warning;
  message = concat "New tool detected: " (qualified_ref server tool);
  details = ("server", text server.name) ∷ ("tool_ref", text tool.tool_ref) ∷ hints tool.risk_hints;
}

unfoldable pub new_tools : List String → BindingsServer → List BindingsTool → List AuditViolation
unfolding new_tool_violation
new_tools baseline server [] = []
new_tools baseline server (tool ∷ tools) =
    if contains (qualified_ref server tool) baseline
    then new_tools baseline server tools
    else new_tool_violation server tool ∷ new_tools baseline server tools

unfoldable pub new_tools_of : List String → List BindingsServer → List AuditViolation
unfolding new_tools
new_tools_of baseline [] = []
new_tools_of baseline (server ∷ rest) =
    new_tools baseline server server.tools ++ new_tools_of baseline rest

unfoldable pub tool_violations : Bindings → Option Bindings → List AuditViolation
unfolding new_tools_of
tool_violations bindings none = []
tool_violations bindings (some previous) =
    new_tools_of (baseline_tool_refs previous) bindings.servers

abbrev pub errors_in : List AuditViolation → List AuditViolation
errors_in vs = filter (λ v. is_error v.severity) vs

unfoldable pub audit : String → TrustPolicy → Bindings → Option Bindings → AuditReport
unfolding servers_violations tool_violations
audit now trust bindings previous =
    let found =
      servers_violations trust.mcp_servers bindings.servers ++ tool_violations bindings previous in
    record { timestamp = now; violations = found; passed = nat_eq (length (errors_in found)) 0 }
