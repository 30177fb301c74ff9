-- ===== src/Trust/Laws.antt =====
-- What the trust policy promises: a pin is what verification compares with, and the audit passes
-- when verification trusts what is pinned strictly.
use oss_agent_tools.Prelude.{
  String, ◌≡◌, ◌↔◌, not, is_some, refl, ap, ap₂, ◌∙◌, Bool, true, ◌&&◌, Option, none, some, List,
  [], ◌∷◌, ◌++◌, ◌==◌, string_key, nat_eq, contains, contains-add, filter-append, length,
  length-append, All, All-map, all, ◌||◌, if◌then◌else◌, arith, Bool-cases, Option-cases, inl, inr,
}
use oss_agent_tools.Trust.{
  PinMode, strict, warn, TrustMcpServer, TrustPolicy, BindingsTool, BindingsServer, Bindings,
}
use oss_agent_tools.Trust.Manager.{
  pinned_as, pin_server, pin_mcp_server, verify_pin, verify_mcp_server,
}
use oss_agent_tools.Trust.Auditor.{
  AuditViolation, audit, errors_in, is_error, mismatch_severity, server_violations,
  servers_violations, tool_violations, qualified_ref, add_tools, add_servers, baseline_tool_refs,
  new_tools, new_tools_of,
}

-- The pin of a url after a call of pinMCPServer.
pin_server-find :
    (url fingerprint other : String) (mode : PinMode) (pins : List TrustMcpServer)
    → pinned_as other (pin_server url fingerprint mode pins) ≡ (
        if url == other
        then some (record { url = url; fingerprint = fingerprint; pin_mode = mode })
        else pinned_as other pins)
unfolding pin_server
pin_server-find u f other mode [] = refl
pin_server-find u f other mode (s ∷ rest) = ground (
  arith,
  pin_server-find u f other mode rest,
  string_key.same_iff s.url u,
  string_key.same_iff s.url other,
  string_key.same_iff u other,
)

verify_mcp_server-other :
    (policy : TrustPolicy) (url fingerprint other current : String) (mode : PinMode)
    → verify_mcp_server (pin_mcp_server policy url fingerprint mode) other current ≡ (
        if url == other
        then verify_pin
            (some (record { url = url; fingerprint = fingerprint; pin_mode = mode }))
            current
        else verify_mcp_server policy other current)
unfolding verify_mcp_server pin_mcp_server
verify_mcp_server-other policy url f other current mode =
    rw (pin_server-find url f other mode policy.mcp_servers)
      (elim (Bool-cases (url == other)) [ inl e ↦ rw e refl | inr e ↦ rw e refl ])

-- After pinMCPServer, whether or not the url was pinned before, verifyMCPServer trusts exactly the
-- new fingerprint for that url, giving a reason for any other fingerprint and none for this one,
-- and it answers as before for every other url.
pub verify_mcp_server-pin :
    (policy : TrustPolicy) (url fingerprint other current : String) (mode : PinMode)
    → let after = pin_mcp_server policy url fingerprint mode in
      (((verify_mcp_server after url current).trusted ≡ true) ↔ (fingerprint ≡ current))
      × (is_some (verify_mcp_server after url current).reason ≡ not (fingerprint == current))
      × (verify_mcp_server after other current ≡ (
          if url == other
          then verify_mcp_server after url current
          else verify_mcp_server policy other current))
unfolding verify_pin
verify_mcp_server-pin policy url f other current mode =
    let other_url = verify_mcp_server-other policy url f other current mode in
    let same_url = verify_mcp_server-other policy url f url current mode in
    let same = string_key.same_iff f current in
    let here = string_key.same_iff url url in
    (
      (λ h. ground (arith, h, same, same_url, here), λ h. ground (arith, h, same, same_url, here)),
      ground (arith, same_url, here),
      ground (arith, other_url, same_url, here),
    )

-- Verification trusts the fingerprint that the binding carries; without one there is nothing to
-- compare.
abbrev binding_trusted : TrustPolicy → String → Option String → Bool
binding_trusted policy url none = true
binding_trusted policy url (some f) = f == "" || (verify_mcp_server policy url f).trusted

-- A pin that only warns demands nothing.
abbrev demand_mode : PinMode → Bool → Bool
demand_mode strict trusted = trusted
demand_mode warn trusted = true

abbrev demand_if_strict : Option TrustMcpServer → Bool → Bool
demand_if_strict none trusted = true
demand_if_strict (some pin) trusted = demand_mode pin.pin_mode trusted

-- What is pinned strictly is trusted.
abbrev pub strictly_trusted : TrustPolicy → BindingsServer → Bool
strictly_trusted policy server =
    demand_if_strict (pinned_as server.url policy.mcp_servers)
      (binding_trusted policy server.url server.pinned_fingerprint)

abbrev no_errors : List AuditViolation → Bool
no_errors vs = nat_eq (length (errors_in vs)) 0

no_errors-append :
    (vs ws : List AuditViolation) → no_errors (vs ++ ws) ≡ (no_errors vs && no_errors ws)
no_errors-append vs ws = ground (
  arith,
  ap length (filter-append (λ v. is_error v.severity) vs ws),
  length-append (errors_in vs) (errors_in ws),
)

no_errors-new_tools :
    (baseline : List String) (server : BindingsServer) (tools : List BindingsTool)
    → no_errors (new_tools baseline server tools) ≡ true
unfolding new_tools
no_errors-new_tools baseline server [] = refl
no_errors-new_tools baseline server (tool ∷ tools) =
    elim (Bool-cases (contains (qualified_ref server tool) baseline)) [
      | inl e ↦ rw e (no_errors-new_tools baseline server tools)
      | inr e ↦ rw e (no_errors-new_tools baseline server tools)
    ]

no_errors-new_tools_of :
    (baseline : List String) (servers : List BindingsServer)
    → no_errors (new_tools_of baseline servers) ≡ true
unfolding new_tools_of
no_errors-new_tools_of baseline [] = refl
no_errors-new_tools_of baseline (server ∷ rest) =
    no_errors-append (new_tools baseline server server.tools) (new_tools_of baseline rest)
    ∙ ap₂ (λ x y. x && y) (no_errors-new_tools baseline server server.tools)
        (no_errors-new_tools_of baseline rest)

no_errors-tool_violations :
    (b : Bindings) (previous : Option Bindings) → no_errors (tool_violations b previous) ≡ true
unfolding tool_violations
no_errors-tool_violations b none = refl
no_errors-tool_violations b (some previous) =
    no_errors-new_tools_of (baseline_tool_refs previous) b.servers

demand_mode-severity :
    (mode : PinMode) (trusted : Bool)
    → (if is_error (mismatch_severity mode) then trusted else true) ≡ demand_mode mode trusted
demand_mode-severity strict trusted = refl
demand_mode-severity warn trusted = refl

no_errors-server :
    (policy : TrustPolicy) (server : BindingsServer) (pin : Option TrustMcpServer)
    → pinned_as server.url policy.mcp_servers ≡ pin
    → no_errors (server_violations pin server)
      ≡ demand_if_strict pin (binding_trusted policy server.url server.pinned_fingerprint)
unfolding server_violations verify_mcp_server verify_pin
no_errors-server policy server none h = refl
no_errors-server policy server (some pin) h = elim (Option-cases server.pinned_fingerprint) [
  | inl e ↦ rw e (ground (arith, e, h))
  | inr (f, e) ↦
      rw (e, h)
        (ground (
          arith,
          string_key.same_iff f pin.fingerprint,
          string_key.same_iff pin.fingerprint f,
          demand_mode-severity pin.pin_mode (f == "" || (pin.fingerprint == f)),
        ))
]

no_errors-servers :
    (policy : TrustPolicy) (servers : List BindingsServer)
    → no_errors (servers_violations policy.mcp_servers servers)
      ≡ all (strictly_trusted policy) servers
unfolding servers_violations
no_errors-servers policy [] = refl
no_errors-servers policy (server ∷ rest) =
    no_errors-append (server_violations (pinned_as server.url policy.mcp_servers) server)
      (servers_violations policy.mcp_servers rest)
    ∙ ap₂ (λ x y. x && y) (no_errors-server policy server _ refl) (no_errors-servers policy rest)

-- The audit passes exactly when verifyMCPServer trusts every bound server whose pin has the mode
-- `strict` and that carries a fingerprint other than the empty text; pins of the mode `warn` and a
-- baseline of tools do not matter for it.
pub audit-passed :
    (now : String) (policy : TrustPolicy) (bindings : Bindings) (previous : Option Bindings)
    → (audit now policy bindings previous).passed ≡ all (strictly_trusted policy) bindings.servers
unfolding audit
audit-passed now policy bindings previous =
    no_errors-append (servers_violations policy.mcp_servers bindings.servers)
      (tool_violations bindings previous)
    ∙ ground (
      arith,
      no_errors-servers policy bindings.servers,
      no_errors-tool_violations bindings previous,
    )

add_tools-keeps :
    (server : BindingsServer) (tools : List BindingsTool) (refs : List String) (r : String)
    → contains r refs ≡ true
    → contains r (add_tools server tools refs) ≡ true
add_tools-keeps server [] refs r h = h
add_tools-keeps server (tool ∷ tools) refs r h =
    add_tools-keeps server tools _ r
      (ground (arith, contains-add (qualified_ref server tool) r refs))

add_tools-All :
    (server : BindingsServer) (tools : List BindingsTool) (refs : List String)
    → All (λ t. contains (qualified_ref server t) (add_tools server tools refs) ≡ true) tools
add_tools-All server [] refs = tt
add_tools-All server (tool ∷ tools) refs = (
  add_tools-keeps server tools _ (qualified_ref server tool) (
      ground (
        arith,
        contains-add (qualified_ref server tool) (qualified_ref server tool) refs,
        string_key.same_iff (qualified_ref server tool) (qualified_ref server tool),
      )),
  add_tools-All server tools _,
)

add_servers-keeps :
    (servers : List BindingsServer) (refs : List String) (r : String)
    → contains r refs ≡ true
    → contains r (add_servers servers refs) ≡ true
add_servers-keeps [] refs r h = h
add_servers-keeps (server ∷ rest) refs r h =
    add_servers-keeps rest _ r (add_tools-keeps server server.tools refs r h)

-- Every tool of the servers is in the references.
abbrev Covered : List String → List BindingsServer → Type 0
Covered refs servers =
    All (λ s. All (λ t. contains (qualified_ref s t) refs ≡ true) s.tools) servers

add_servers-Covered :
    (servers : List BindingsServer) (refs : List String)
    → Covered (add_servers servers refs) servers
add_servers-Covered [] refs = tt
add_servers-Covered (server ∷ rest) refs = (
  All-map _ _ server.tools (λ t h. add_servers-keeps rest _ (qualified_ref server t) h)
      (add_tools-All server server.tools refs),
  add_servers-Covered rest _,
)

new_tools-none :
    (refs : List String) (server : BindingsServer) (tools : List BindingsTool)
    → All (λ t. contains (qualified_ref server t) refs ≡ true) tools
    → new_tools refs server tools ≡ []
unfolding new_tools
new_tools-none refs server [] h = refl
new_tools-none refs server (tool ∷ tools) (h, hs) = rw h (new_tools-none refs server tools hs)

new_tools_of-none :
    (refs : List String) (servers : List BindingsServer)
    → Covered refs servers
    → new_tools_of refs servers ≡ []
unfolding new_tools_of
new_tools_of-none refs [] h = refl
new_tools_of-none refs (server ∷ rest) (h, hs) =
    ap₂ (λ x y. x ++ y) (new_tools-none refs server server.tools h) (new_tools_of-none refs rest hs)

-- Bindings that are audited against themselves as the baseline give the report of an audit without
-- a baseline: no tool of theirs is new.
pub audit-unchanged :
    (now : String) (policy : TrustPolicy) (bindings : Bindings)
    → audit now policy bindings (some bindings) ≡ audit now policy bindings none
unfolding audit tool_violations
audit-unchanged now policy bindings =
    rw
      (new_tools_of-none (baseline_tool_refs bindings) bindings.servers
        (add_servers-Covered bindings.servers []))
      refl
