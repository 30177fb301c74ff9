-- ===== src/Trust/Manager.antt =====
-- `TrustManager` of TasteKit/tastekit/packages/core/trust/manager.ts: its state is the policy.
use oss_agent_tools.Prelude.{
  String, Bool, true, false, Option, none, some, List, [], ◌∷◌, ◌++◌, ◌==◌, string_key, find,
  if◌then◌else◌, concat,
}
use oss_agent_tools.Trust.{
  PinMode, TrustMcpServer, SourceType, local, git, TrustSkillSource, TrustPolicy,
}

-- The first pin of the url.
abbrev pub pinned_as : String → List TrustMcpServer → Option TrustMcpServer
pinned_as url servers = find (λ s. s.url == url) servers

-- The first pin of the url is changed where it stands; a new one goes to the end.
unfoldable pub pin_server : String → String → PinMode → List TrustMcpServer → List TrustMcpServer
pin_server u f mode [] = record { url = u; fingerprint = f; pin_mode = mode } ∷ []
pin_server u f mode (s ∷ rest) =
    if s.url == u
    then record s { fingerprint = f; pin_mode = mode } ∷ rest
    else s ∷ pin_server u f mode rest

unfoldable pub pin_mcp_server : TrustPolicy → String → String → PinMode → TrustPolicy
pin_mcp_server policy url fingerprint mode = record policy {
  mcp_servers = pin_server url fingerprint mode policy.mcp_servers;
}

abbrev pub skill_source : SourceType → String → String → PinMode → TrustSkillSource
skill_source local path_or_url h mode = record {
  source_type = local;
  path = some path_or_url;
  url = none;
  commit = none;
  hash = some h;
  pin_mode = mode;
}
skill_source git path_or_url h mode = record {
  source_type = git;
  path = none;
  url = some path_or_url;
  commit = some h;
  hash = none;
  pin_mode = mode;
}

unfoldable pub pin_skill_source : TrustPolicy → SourceType → String → String → PinMode → TrustPolicy
pin_skill_source policy type path_or_url hash mode = record policy {
  skill_sources = policy.skill_sources ++ skill_source type path_or_url hash mode ∷ [];
}

pub record Verification : Type 0 where
  pub trusted : Bool
  pub reason : Option String

-- The answer about a pin that was found or not.
unfoldable pub verify_pin : Option TrustMcpServer → String → Verification
verify_pin none current = record {
  trusted = false;
  reason = some "Server not pinned in trust policy";
}
verify_pin (some pinned) current =
    if pinned.fingerprint == current then record { trusted = true; reason = none } else record {
      trusted = false;
      reason = some (
          concat "Fingerprint mismatch (expected: "
            (concat pinned.fingerprint (concat ", got: " (concat current ")"))));
    }

unfoldable pub verify_mcp_server : TrustPolicy → String → String → Verification
unfolding verify_pin
verify_mcp_server policy url current = verify_pin (pinned_as url policy.mcp_servers) current
