-- ===== src/Compile/Derivation.antt =====
-- TasteKit/tastekit/packages/core/compiler/derivation.ts: the record of a compilation's progress
-- in `ops/derivation.v1.yaml`. The YAML library, with the schema's check, is the argument `Yaml`;
-- the time of the call is an argument. Confidences are in tenths (1.5 is 15).
use oss_agent_tools.Prelude.{
  ℕ, ap, String, ◌≡◌, Bool, false, not, Option, none, some, List, [], ◌∷◌, map, string_key,
  contains, lookup, insert, lookup-insert, all, or_else, if◌then◌else◌, arith,
}

pub data Status : Type 0 where
  covered not_covered : Status

-- An entry of `dimension_coverage`; what the interview may leave out is an `Option`.
pub record Coverage : Type 0 where
  pub dimension_id : String
  pub status : Status
  pub confidence : Option ℕ
  pub summary : Option String
  pub extracted_facts : Option (List String)
  pub anti_signals : Option (List String)

pub record Session (A : Type 0) : Type 0 where
  pub session_id : String
  pub domain_id : Option String
  pub interview : Option (List Coverage)
  pub structured_answers : A

pub record DimensionResolution : Type 0 where
  pub dimension_id : String
  pub confidence : ℕ
  pub summary : String
  pub extracted_facts : List String
  pub anti_signals : List String

pub record DerivationState (A : Type 0) : Type 0 where
  pub created_at : String
  pub session_id : String
  pub domain_id : Option String
  pub generator_version : String
  pub dimension_resolutions : List DimensionResolution
  pub structured_answers : A
  pub completed_steps : List String
  pub artifacts_written : List String
  pub vocabulary_map : Option (List (String × String))

-- The files of the workspace, by path below its root. What a file can hold is a type of its own, `F`,
-- since the compiler never looks into a text.
abbrev pub Files : Type 0 → Type 0
Files F = List (String × F)

abbrev pub derivation_path : String
derivation_path = "ops/derivation.v1.yaml"

-- `stringifyYAML` of a state, `parseYAML` with the check against `DerivationStateSchema`, and the test
-- for an empty text.
pub record Yaml (A F : Type 0) : Type 0 where
  pub stringify : DerivationState A → F
  pub parse : F → Option (DerivationState A)
  pub is_empty : F → Bool

-- The documented behaviour of the library: what is written is read back, and is not empty.
pub record IsFaithful {A F : Type 0} (y : Yaml A F) : Type 0 where
  pub parse-stringify : (s : DerivationState A) → y.parse (y.stringify s) ≡ some s
  pub not_empty : (s : DerivationState A) → y.is_empty (y.stringify s) ≡ false

abbrev pub all_steps : List String
all_steps = "constitution" ∷ "guardrails" ∷ "memory" ∷ "skills" ∷ "playbooks" ∷ []

default_confidence : Status → ℕ
default_confidence covered = 15
default_confidence not_covered = 0

unfoldable pub resolution : Coverage → DimensionResolution
unfolding default_confidence
resolution dim = record {
  dimension_id = dim.dimension_id;
  confidence = or_else dim.confidence (default_confidence dim.status);
  summary = or_else dim.summary "";
  extracted_facts = or_else dim.extracted_facts [];
  anti_signals = or_else dim.anti_signals [];
}

module _ {A : Type 0} where
  unfoldable pub build_derivation_state : Session A → String → String → DerivationState A
  build_derivation_state session generator_version now = record {
    created_at = now;
    session_id = session.session_id;
    domain_id = session.domain_id;
    generator_version = generator_version;
    dimension_resolutions = map resolution (or_else session.interview []);
    structured_answers = session.structured_answers;
    completed_steps = [];
    artifacts_written = [];
    vocabulary_map = none;
  }

module _ {A F : Type 0} (y : Yaml A F) where
  unfoldable pub write_derivation_state : Files F → DerivationState A → Files F
  write_derivation_state files state = insert derivation_path (y.stringify state) files

  -- A file that is missing or empty is no state.
  read_content : Option F → Option (DerivationState A)
  read_content none = none
  read_content (some content) = if y.is_empty content then none else y.parse content

  unfoldable pub read_derivation_state : Files F → Option (DerivationState A)
  unfolding read_content
  read_derivation_state files = read_content (lookup derivation_path files)

  -- Not every step is among the completed ones.
  pub incomplete : Option (DerivationState A) → Bool
  incomplete none = false
  incomplete (some state) = not (all (λ step. contains step state.completed_steps) all_steps)

  unfoldable pub can_resume : Files F → Bool
  unfolding incomplete
  can_resume files = incomplete (read_derivation_state files)

  -- A state that was written is the one that is read back.
  pub read-write :
      (files : Files F) (state : DerivationState A)
      → IsFaithful y
      → read_derivation_state (write_derivation_state files state) ≡ some state
  unfolding read_derivation_state write_derivation_state
  read-write files state f =
      rw (lookup-insert derivation_path derivation_path (y.stringify state) files)
        (ground (arith, f.parse-stringify state, f.not_empty state))

  -- Reading depends on the content of the one file.
  pub read-congr :
      (files other : Files F)
      → lookup derivation_path files ≡ lookup derivation_path other
      → read_derivation_state files ≡ read_derivation_state other
  unfolding read_derivation_state
  read-congr files other e = ap (read_content) e
