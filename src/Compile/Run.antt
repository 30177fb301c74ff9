-- ===== src/Compile/Run.antt =====
-- `compile` of TasteKit/tastekit/packages/core/compiler/compiler.ts: the loop over the steps, which
-- saves its progress after each, and the choice between a fresh start and a resumed one.
use mathlib.Core.Option
use oss_agent_tools.Prelude.{
  String, Bool, true, false, not, Option, none, some, List, [], ◌∷◌, ◌++◌, string_key, contains,
  if◌then◌else◌, length, is_some, ltb,
}
use oss_agent_tools.Compile.Derivation.{
  Session, DerivationState, Files, Yaml, all_steps, build_derivation_state, write_derivation_state,
  read_derivation_state,
}
use oss_agent_tools.Compile.Steps.{Outcome, ok, fail, Compilers, run_step}

pub record CompilationOptions (A : Type 0) : Type 0 where
  pub session : Session A
  pub generator_version : String
  pub resume : Bool

pub record CompilationResult : Type 0 where
  pub success : Bool
  pub artifacts : List String
  pub errors : Option (List String)
  pub resumed : Bool

-- The state of the loop when it ends: by its last step, or by the error of one.
pub record Progress (A F : Type 0) : Type 0 where
  pub files : Files F
  pub derivation : DerivationState A
  pub error : Option String

-- The derivation state with one more completed step.
abbrev pub complete_step :
    {A : Type 0} → DerivationState A → String → List String → DerivationState A
complete_step d step artifacts = record d {
  completed_steps = d.completed_steps ++ step ∷ [];
  artifacts_written = d.artifacts_written ++ artifacts;
}

-- Where a compilation starts: its files, its derivation state and whether it is resumed.
pub record Start (A F : Type 0) : Type 0 where
  pub files : Files F
  pub derivation : DerivationState A
  pub resumed : Bool

-- The result of a loop that has ended.
unfoldable pub finish : {A F : Type 0} → Bool → Progress A F → Files F × CompilationResult
finish resumed p = (
  p.files,
  record {
    success = not (is_some p.error);
    artifacts = p.derivation.artifacts_written;
    errors = Option.map (λ e. e ∷ []) p.error;
    resumed = resumed;
  },
)

module _ {A F : Type 0} (y : Yaml A F) where
  unfoldable pub fresh : Files F → Session A → String → String → Start A F
  fresh files session version now =
      let d = build_derivation_state session version now in
      record { files = write_derivation_state y files d; derivation = d; resumed = false }

  -- A saved state is taken up again if a step of it was completed.
  unfoldable pub resume_from : Option (DerivationState A) → Files F → Start A F → Start A F
  resume_from none files afresh = afresh
  resume_from (some existing) files afresh =
      if ltb 0 (length existing.completed_steps)
      then record { files = files; derivation = existing; resumed = true }
      else afresh

  unfoldable pub start : Files F → CompilationOptions A → String → Start A F
  unfolding fresh resume_from
  start files options now =
      let afresh = fresh files options.session options.generator_version now in
      if options.resume then resume_from (read_derivation_state y files) files afresh else afresh

module _ {A F : Type 0} (y : Yaml A F) where
  -- What follows the outcome of one step; `rest` is the loop over the later steps.
  unfoldable pub after_step :
      (Files F → DerivationState A → Progress A F)
      → DerivationState A
      → String
      → Files F × Outcome (List String)
      → Progress A F
  after_step rest d step (files, fail e) = record { files = files; derivation = d; error = some e }
  after_step rest d step (files, ok artifacts) =
      let d' = complete_step d step artifacts in rest (write_derivation_state y files d') d'

module _ {A C F : Type 0} (y : Yaml A F) (c : Compilers A C F) (session : Session A)
    (version : String) where
  unfoldable pub run_steps : List String → Files F → DerivationState A → Progress A F
  run_steps [] files d = record { files = files; derivation = d; error = none }
  run_steps (step ∷ steps) files d =
      let skipped = run_steps steps files d in
      if contains step d.completed_steps
      then skipped
      else after_step y (run_steps steps) d step (run_step c step files session version)

module _ {A C F : Type 0} (y : Yaml A F) (c : Compilers A C F) where
  unfoldable pub compile : Files F → CompilationOptions A → String → Files F × CompilationResult
  compile files options now =
      let s = start y files options now in
      finish s.resumed
        (run_steps y c options.session options.generator_version all_steps s.files s.derivation)
