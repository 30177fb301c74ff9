-- ===== src/Compile/Steps.antt =====
-- The steps of TasteKit/tastekit/packages/core/compiler/compiler.ts. The five compilers that a step
-- calls, with the serialiser of their result, are the record `Compilers`; a call that throws is a
-- `fail` with its message, and the files are those that it has left behind.
use text.Mathlib.TextEquality.{eq_iff}
use oss_agent_tools.Prelude.{
  String, concat, ◌≡◌, Option, none, some, List, [], ◌∷◌, ◌==◌, string_key, lookup, insert, erase,
  if◌then◌else◌, ◌≢◌, refl, arith, lookup-insert, lookup-erase,
}
use oss_agent_tools.Compile.Derivation.{Session, Files, derivation_path}

pub data Outcome (B : Type 0) : Type 0 where
  ok : B → Outcome B
  fail : String → Outcome B

-- `C` is the type of a constitution.
pub record Compilers (A C F : Type 0) : Type 0 where
  pub compile_constitution : Session A → String → Outcome F
  pub compile_guardrails : Session A → Outcome F
  pub compile_memory_policy : Session A → Outcome F
  pub parse_constitution : F → Outcome C
  pub compile_skills : Files F → Session A → C → Files F × Outcome (List String)
  pub compile_playbooks : Files F → Session A → C → Files F × Outcome (List String)

-- Write beside the target, then rename over it.
unfoldable pub atomic_write : {F : Type 0} → Files F → String → F → Files F
atomic_write files path content =
    let temp_path = concat path ".tmp" in
    erase temp_path (insert path content (insert temp_path content files))

abbrev pub constitution_path : String
constitution_path = "self/constitution.v1.json"

abbrev pub guardrails_path : String
guardrails_path = "self/guardrails.v1.yaml"

abbrev pub memory_path : String
memory_path = "self/memory.v1.yaml"

-- A compiled artifact is written and named; an error leaves the files alone.
unfoldable pub store_artifact :
    {F : Type 0} → Files F → String → Outcome F → Files F × Outcome (List String)
store_artifact files path (fail e) = (files, fail e)
store_artifact files path (ok content) = (atomic_write files path content, ok (path ∷ []))

-- Skills and playbooks are compiled from the constitution on disk.
unfoldable pub with_constitution :
    {C F : Type 0}
    → Files F
    → Outcome C
    → (C → Files F × Outcome (List String))
    → Files F × Outcome (List String)
with_constitution files (fail e) k = (files, fail e)
with_constitution files (ok constitution) k = k constitution

lookup-atomic_write :
    {F : Type 0} (files : Files F) (path key : String) (content : F)
    → path ≢ key
    → concat path ".tmp" ≢ key
    → lookup key (atomic_write files path content) ≡ lookup key files
unfolding atomic_write
lookup-atomic_write files path key content h k = ground (
  arith,
  lookup-erase (concat path ".tmp") key
      (insert path content (insert (concat path ".tmp") content files)),
  lookup-insert path key content (insert (concat path ".tmp") content files),
  lookup-insert (concat path ".tmp") key content files,
  eq_iff path key,
  eq_iff (concat path ".tmp") key,
)

store_artifact-lookup :
    {F : Type 0} (files : Files F) (path key : String) (o : Outcome F)
    → path ≢ key
    → concat path ".tmp" ≢ key
    → lookup key (store_artifact files path o).0 ≡ lookup key files
unfolding store_artifact
store_artifact-lookup files path key (fail e) h k = refl
store_artifact-lookup files path key (ok content) h k =
    lookup-atomic_write files path key content h k

with_constitution-lookup :
    {C F : Type 0} (files : Files F) (o : Outcome C) (k : C → Files F × Outcome (List String))
    (key : String)
    → ((x : C) → lookup key (k x).0 ≡ lookup key files)
    → lookup key (with_constitution files o k).0 ≡ lookup key files
unfolding with_constitution
with_constitution-lookup files (fail e) k key h = refl
with_constitution-lookup files (ok x) k key h = h x

module _ {A C F : Type 0} where
  -- `JSON.parse(readFileSync(constitutionPath))`: a missing file throws as well.
  unfoldable pub read_constitution : Compilers A C F → Option F → Outcome C
  read_constitution c none = fail "ENOENT"
  read_constitution c (some content) = c.parse_constitution content

  unfoldable pub run_step :
      Compilers A C F → String → Files F → Session A → String → Files F × Outcome (List String)
  run_step c step_id files session generator_version =
      let constitution = read_constitution c (lookup constitution_path files) in
      if step_id == "constitution"
      then store_artifact files constitution_path (c.compile_constitution session generator_version)
      else if step_id == "guardrails"
      then store_artifact files guardrails_path (c.compile_guardrails session)
      else if step_id == "memory"
      then store_artifact files memory_path (c.compile_memory_policy session)
      else if step_id == "skills"
      then with_constitution files constitution (c.compile_skills files session)
      else if step_id == "playbooks"
      then with_constitution files constitution (c.compile_playbooks files session)
      else (files, ok [])

  -- The skills and playbooks compilers write below `knowledge/` only.
  pub record LeavesDerivation (c : Compilers A C F) : Type 0 where
    pub skills :
        (files : Files F) (s : Session A) (k : C)
        → lookup derivation_path (c.compile_skills files s k).0 ≡ lookup derivation_path files
    pub playbooks :
        (files : Files F) (s : Session A) (k : C)
        → lookup derivation_path (c.compile_playbooks files s k).0 ≡ lookup derivation_path files

  -- No step touches the derivation state.
  pub run_step-derivation :
      (c : Compilers A C F) (step_id : String) (files : Files F) (s : Session A) (v : String)
      → LeavesDerivation c
      → lookup derivation_path (run_step c step_id files s v).0 ≡ lookup derivation_path files
  unfolding run_step
  run_step-derivation c step_id files s v h = ground (
    arith,
    store_artifact-lookup files constitution_path derivation_path (c.compile_constitution s v)
        (λ e. ground (arith, eq_iff constitution_path derivation_path))
        (λ e. ground (arith, eq_iff (concat constitution_path ".tmp") derivation_path)),
    store_artifact-lookup files guardrails_path derivation_path (c.compile_guardrails s)
        (λ e. ground (arith, eq_iff guardrails_path derivation_path))
        (λ e. ground (arith, eq_iff (concat guardrails_path ".tmp") derivation_path)),
    store_artifact-lookup files memory_path derivation_path (c.compile_memory_policy s)
        (λ e. ground (arith, eq_iff memory_path derivation_path))
        (λ e. ground (arith, eq_iff (concat memory_path ".tmp") derivation_path)),
    with_constitution-lookup files (read_constitution c (lookup constitution_path files))
        (c.compile_skills files s) derivation_path (h.skills files s),
    with_constitution-lookup files (read_constitution c (lookup constitution_path files))
        (c.compile_playbooks files s) derivation_path (h.playbooks files s),
  )
