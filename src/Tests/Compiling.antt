-- ===== src/Tests/Compiling.antt =====
-- A compilation that breaks off at its third step, and one that takes it up again.
use oss_agent_tools.Prelude.{String, ◌≡◌, refl, Bool, true, false, not, Option, none, some, [], ◌∷◌}
use oss_agent_tools.Compile.Derivation.{
  covered, build_derivation_state, resolution, Session, DerivationState, Yaml, IsFaithful,
  can_resume, read_derivation_state, write_derivation_state,
}
use oss_agent_tools.Compile.Steps.{
  Outcome, ok, fail, Compilers, LeavesDerivation, run_step, store_artifact, atomic_write,
  read_constitution, with_constitution,
}
use oss_agent_tools.Compile.Run.{CompilationOptions, compile, start, run_steps, after_step, finish}
use oss_agent_tools.Compile.Resume.{Interrupted, compile-can_resume, compile-Interrupted}

-- What a file of the runs can hold: a derivation state, or an artifact's text.
data Content : Type 0 where
  state : DerivationState (Unit {0}) → Content
  artifact : String → Content

abbrev parse_content : Content → Option (DerivationState (Unit {0}))
parse_content (state d) = some d
parse_content (artifact s) = none

abbrev yaml : Yaml (Unit {0}) Content
yaml = record { stringify = state; parse = parse_content; is_empty = λ c. false }

abbrev as_text : Content → Outcome String
as_text (state d) = fail "not JSON"
as_text (artifact s) = ok s

-- The memory compiler fails if told to.
abbrev compilers : Bool → Compilers (Unit {0}) String Content
compilers breaks = record {
  compile_constitution = λ s v. ok (artifact "constitution");
  compile_guardrails = λ s. ok (artifact "guardrails");
  compile_memory_policy =
      λ s. elim breaks [ true ↦ fail "no memory" | false ↦ ok (artifact "memory") ];
  parse_constitution = as_text;
  compile_skills = λ files s c. (files, ok ("knowledge/skills/manifest.v1.yaml" ∷ []));
  compile_playbooks = λ files s c. (files, ok ("knowledge/playbooks/main" ∷ []));
}

abbrev session : Session (Unit {0})
session = record {
  session_id = "s1";
  domain_id = none;
  interview = some (
      record {
        dimension_id = "tone";
        status = covered;
        confidence = none;
        summary = none;
        extracted_facts = none;
        anti_signals = none;
      }
      ∷ []);
  structured_answers = tt;
}

abbrev options : Bool → CompilationOptions (Unit {0})
options resume = record { session = session; generator_version = "1.0"; resume = resume }

yaml-IsFaithful : IsFaithful yaml
yaml-IsFaithful = record { parse-stringify = λ s. refl; not_empty = λ s. refl }

compilers-LeavesDerivation : (breaks : Bool) → LeavesDerivation (compilers breaks)
compilers-LeavesDerivation breaks = record { skills = λ f s k. refl; playbooks = λ f s k. refl }

runs : Unit {0}
unfolding build_derivation_state resolution compile start run_steps after_step finish run_step
    store_artifact atomic_write read_constitution with_constitution write_derivation_state
    read_derivation_state can_resume
runs = tt

-- The broken run, and the resumed one, which writes what is missing.
broken_run :
    (compile yaml (compilers true) [] (options false) "now").1.artifacts
    ≡ "self/constitution.v1.json" ∷ "self/guardrails.v1.yaml" ∷ []
unfolding runs
broken_run = refl

resumed_run :
    (compile yaml
      (compilers false)
      (compile yaml (compilers true) [] (options false) "now").0
      (options true)
      "later").1.artifacts
    ≡ "self/constitution.v1.json" ∷ "self/guardrails.v1.yaml" ∷ "self/memory.v1.yaml"
      ∷ "knowledge/skills/manifest.v1.yaml" ∷ "knowledge/playbooks/main" ∷ []
unfolding runs
resumed_run = refl

compile-can_resume_example :
    (compile yaml (compilers true) [] (options false) "now").1.success
    ≡ not (can_resume yaml (compile yaml (compilers true) [] (options false) "now").0)
compile-can_resume_example =
    compile-can_resume yaml (compilers true) [] (options false) "now" yaml-IsFaithful
      (compilers-LeavesDerivation true)

compile-Interrupted_example :
    Interrupted yaml
      (compilers true)
      (compile yaml (compilers true) [] (options false) "now").0
      (options false)
unfolding runs
compile-Interrupted_example =
    compile-Interrupted yaml (compilers true) [] (options false) "now" yaml-IsFaithful
      (compilers-LeavesDerivation true) refl
