-- ===== src/Artifacts/Playbooks/Written.antt =====
-- What the compilation of playbooks writes.
use oss_agent_tools.Prelude.{
  String, concat, ◌≡◌, refl, ap, ◌∙◌, Bool, true, false, ◌&&◌, Option, some, List, [], ◌∷◌, map,
  contains, string_key, distinct, distinct-Distinct, Distinct, All, lookup, insert, lookup-insert,
  lookup-insert_self, if_cases, arith,
}
use oss_agent_tools.Numbers.{Arithmetic}
use oss_agent_tools.Compile.Derivation.{Files}
use oss_agent_tools.Artifacts.Playbooks.{PlaybookV1}
use oss_agent_tools.Artifacts.Playbooks.Content.{content_agent_playbooks}
use oss_agent_tools.Artifacts.Playbooks.Research.{research_agent_playbooks}
use oss_agent_tools.Artifacts.Playbooks.Sales.{sales_agent_playbooks}
use oss_agent_tools.Artifacts.Playbooks.Support.{support_agent_playbooks}
use oss_agent_tools.Artifacts.Playbooks.General.{general_agent_playbooks}
use oss_agent_tools.Artifacts.Playbooks.Compiler.{
  generic_playbook, all_playbooks, resolve_playbooks_path, filename, file_path, write_playbooks,
  compile_playbooks,
}
use oss_agent_tools.Artifacts.Playbooks.Dataflow.{all_playbooks-cases}

abbrev pub paths_of : String → List PlaybookV1 → List String
paths_of path ps = map (file_path path) ps

abbrev distinct_paths : List PlaybookV1 → Bool
distinct_paths ps =
    distinct (paths_of "knowledge/playbooks" ps) && distinct (paths_of "artifacts/playbooks" ps)

all_playbooks-distinct :
    {N : Type 0} (a : Arithmetic N) (domain_id : Option String) (autonomy_level : N)
    → distinct_paths (all_playbooks a domain_id autonomy_level) ≡ true
unfolding content_agent_playbooks research_agent_playbooks sales_agent_playbooks
    support_agent_playbooks general_agent_playbooks generic_playbook
all_playbooks-distinct a domain_id autonomy_level =
    all_playbooks-cases (λ ps. distinct_paths ps ≡ true) a domain_id autonomy_level refl refl refl
      refl refl (λ b. refl)

-- The playbooks stand in the files under their names, and no other file has changed.
abbrev pub IsWritten :
    {F : Type 0} → (PlaybookV1 → F) → String → List PlaybookV1 → Files F → Files F → Type 0
IsWritten yaml path ps files files' =
    All (λ p. lookup (file_path path p) files' ≡ some (yaml p)) ps
    × ((key : String)
        → contains key (paths_of path ps) ≡ false
        → lookup key files' ≡ lookup key files)

module _ {F : Type 0} (yaml : PlaybookV1 → F) where
  write_playbooks-IsWritten :
      (path : String) (ps : List PlaybookV1) (files : Files F)
      → Distinct (paths_of path ps)
      → IsWritten yaml path ps files (write_playbooks yaml path ps files).0
  unfolding write_playbooks
  write_playbooks-IsWritten path [] files d = (tt, λ key h. refl)
  write_playbooks-IsWritten path (p ∷ ps) files (n, d) =
      let later = insert (file_path path p) (yaml p) files in
      let (written, kept) = write_playbooks-IsWritten path ps later d in
      (
        (kept (file_path path p) n ∙ lookup-insert_self (file_path path p) (yaml p) files, written),
        λ key h. ground (arith, kept key, h, lookup-insert (file_path path p) key (yaml p) files),
      )

  write_playbooks-artifacts :
      (path : String) (ps : List PlaybookV1) (files : Files F)
      → (write_playbooks yaml path ps files).1 ≡ map (λ p. concat "playbooks/" (filename p)) ps
  unfolding write_playbooks
  write_playbooks-artifacts path [] files = refl
  write_playbooks-artifacts path (p ∷ ps) files =
      ap (◌∷◌ (concat "playbooks/" (filename p)))
        (write_playbooks-artifacts path ps (insert (file_path path p) (yaml p) files))

  -- A compilation writes every playbook of the domain, or the generic one, under its own name,
  -- leaves the other files alone, and returns the names in order.
  pub compile_playbooks-IsWritten :
      {N : Type 0} (a : Arithmetic N) (exists : String → Bool) (files : Files F)
      (domain_id : Option String) (autonomy_level : N)
      → let ps = all_playbooks a domain_id autonomy_level in
        let (files', artifacts) = compile_playbooks yaml a exists files domain_id autonomy_level in
        IsWritten yaml (resolve_playbooks_path exists) ps files files'
        × (artifacts ≡ map (λ p. concat "playbooks/" (filename p)) ps)
  unfolding compile_playbooks
  compile_playbooks-IsWritten a exists files domain_id autonomy_level =
      let ps = all_playbooks a domain_id autonomy_level in
      let path = resolve_playbooks_path exists in
      let h = all_playbooks-distinct a domain_id autonomy_level in
      let knowledge = distinct-Distinct (paths_of "knowledge/playbooks" ps) (ground (arith, h)) in
      let artifact = distinct-Distinct (paths_of "artifacts/playbooks" ps) (ground (arith, h)) in
      let D : String → Type 0 = λ p. Distinct (paths_of p ps) in
      (
        write_playbooks-IsWritten path ps files (
            if_cases D (exists "knowledge/playbooks") _ _ (λ e. knowledge)
              (λ e.
                if_cases D (exists "artifacts/playbooks") _ _ (λ e. artifact) (λ e. knowledge))),
        write_playbooks-artifacts path ps files,
      )
