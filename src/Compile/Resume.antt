-- ===== src/Compile/Resume.antt =====
-- What a compilation leaves behind, and that a resumed one goes on where the last one stopped.
use oss_agent_tools.Prelude.{
  String, ◌≡◌, inl, inr, refl, ap, sym, ◌∙◌, Bool, true, false, not, ◌&&◌, Option, none, some, List,
  [], ◌∷◌, ◌++◌, string_key, contains, contains-append, beq_refl, length, all, arith, lookup, ltb,
  ◌<◌, Bool-cases,
}
use oss_agent_tools.Compile.Derivation.{
  Session, DerivationState, Files, Yaml, IsFaithful, all_steps, write_derivation_state,
  read_derivation_state, can_resume, read-write, read-congr, derivation_path,
}
use oss_agent_tools.Compile.Steps.{
  Outcome, ok, fail, Compilers, LeavesDerivation, run_step, run_step-derivation,
}
use oss_agent_tools.Compile.Run.{
  CompilationOptions, Progress, Start, complete_step, finish, resume_from, start, after_step,
  run_steps, compile,
}

contains-append_self : (k : String) (xs : List String) → contains k (xs ++ k ∷ []) ≡ true
contains-append_self k xs = ground (arith, contains-append k xs (k ∷ []), beq_refl k)

all-append : (p : String → Bool) (xs ys : List String) → all p (xs ++ ys) ≡ (all p xs && all p ys)
all-append p [] ys = refl
all-append p (x ∷ xs) ys = ground (arith, all-append p xs ys)

all-false :
    (before : List String) (step : String) (after done : List String)
    → all_steps ≡ before ++ step ∷ after
    → contains step done ≡ false
    → all (λ s. contains s done) all_steps ≡ false
all-false before step after done split absent =
    ap (all (λ s. contains s done)) split
    ∙ all-append (λ s. contains s done) before (step ∷ after)
    ∙ ground arith

module _ {A C F : Type 0} (y : Yaml A F) (c : Compilers A C F) (session : Session A)
    (version : String) where
  -- The three ways in which the loop takes a step.
  step_cases {ℓ} :
      (P : Progress A F → Type ℓ) (step : String) (steps : List String) (files : Files F)
      (d : DerivationState A)
      → (contains step d.completed_steps ≡ true → P (run_steps y c session version steps files d))
      → ((fs : Files F) (e : String)
          → contains step d.completed_steps ≡ false
          → run_step c step files session version ≡ (fs, fail e)
          → P (record { files = fs; derivation = d; error = some e }))
      → ((fs : Files F) (artifacts : List String)
          → contains step d.completed_steps ≡ false
          → run_step c step files session version ≡ (fs, ok artifacts)
          → let d' = complete_step d step artifacts in
            P (run_steps y c session version steps (write_derivation_state y fs d') d'))
      → P (run_steps y c session version (step ∷ steps) files d)
  unfolding run_steps after_step
  step_cases P step steps files d skip broken done =
      elim (Bool-cases (contains step d.completed_steps)) [
        | inl old ↦ rw old (skip old)
        | inr new ↦ rw new (go (run_step c step files session version) refl new)
      ]
    where
      go :
          (r : Files F × Outcome (List String))
          → run_step c step files session version ≡ r
          → contains step d.completed_steps ≡ false
          → P (after_step y (run_steps y c session version steps) d step r)
      go (fs, fail e) eq new = broken fs e new eq
      go (fs, ok artifacts) eq new = done fs artifacts new eq

  -- A step that was complete stays complete.
  completed-run_steps :
      (done : String) (steps : List String) (files : Files F) (d : DerivationState A)
      → contains done d.completed_steps ≡ true
      → contains done (run_steps y c session version steps files d).derivation.completed_steps
        ≡ true
  unfolding run_steps
  completed-run_steps done [] files d h = h
  completed-run_steps done (step ∷ steps) files d h =
      step_cases (λ p. contains done p.derivation.completed_steps ≡ true) step steps files d
        (λ _. completed-run_steps done steps files d h) (λ _ _ _ _. h)
        (λ fs artifacts _ _.
          completed-run_steps done steps _ (complete_step d step artifacts)
            (rw (contains-append done d.completed_steps (step ∷ []), h)))

  -- The state on disk is the one in memory, whether the loop ends or breaks off.
  pub read-run_steps :
      (steps : List String) (files : Files F) (d : DerivationState A)
      → IsFaithful y
      → LeavesDerivation c
      → read_derivation_state y files ≡ some d
      → let p = run_steps y c session version steps files d in
        read_derivation_state y p.files ≡ some p.derivation
  unfolding run_steps
  read-run_steps [] files d f l h = h
  read-run_steps (step ∷ steps) files d f l h =
      step_cases (λ p. read_derivation_state y p.files ≡ some p.derivation) step steps files d
        (λ _. read-run_steps steps files d f l h)
        (λ fs e _ eq.
          read-congr y fs files (
            ap (λ r. lookup derivation_path r.0) (sym eq)
            ∙ run_step-derivation c step files session version l)
          ∙ h)
        (λ fs artifacts _ _.
          read-run_steps steps _ (complete_step d step artifacts) f l
            (read-write y fs (complete_step d step artifacts) f))

  -- How a loop over `steps` has ended: all are complete, or it broke off at a step that is not,
  -- every step before it is, and a second run from there goes on with that step.
  pub data Ended (steps : List String) (p : Progress A F) : Type 0 where
    whole :
        p.error ≡ none
        → all (λ step. contains step p.derivation.completed_steps) steps ≡ true
        → Ended steps p
    broken :
        (before : List String) (step : String) (after : List String) (e : String)
        → p.error ≡ some e
        → steps ≡ before ++ step ∷ after
        → contains step p.derivation.completed_steps ≡ false
        → all (λ s. contains s p.derivation.completed_steps) before ≡ true
        → run_steps y c session version steps p.files p.derivation
          ≡ run_steps y c session version (step ∷ after) p.files p.derivation
        → Ended steps p

  Ended-cons :
      (step : String) (steps : List String) (p : Progress A F)
      → contains step p.derivation.completed_steps ≡ true
      → Ended steps p
      → Ended (step ∷ steps) p
  unfolding run_steps
  Ended-cons step steps p h (whole e a) = whole e (rw (h, a))
  Ended-cons step steps p h (broken before s after e err split absent a again) =
      broken (step ∷ before) s after e err (ap (◌∷◌ step) split) absent (rw (h, a)) (rw h again)

  pub run_steps-Ended :
      (steps : List String) (files : Files F) (d : DerivationState A)
      → Ended steps (run_steps y c session version steps files d)
  unfolding run_steps
  run_steps-Ended [] files d = whole refl refl
  run_steps-Ended (step ∷ steps) files d =
      step_cases (λ p. Ended (step ∷ steps) p) step steps files d
        (λ old.
          Ended-cons step steps _ (completed-run_steps step steps files d old)
            (run_steps-Ended steps files d))
        (λ fs e new eq. broken [] step steps e refl refl new refl refl)
        (λ fs artifacts new eq.
          Ended-cons step steps _
            (completed-run_steps step steps _ (complete_step d step artifacts)
              (contains-append_self step d.completed_steps))
            (run_steps-Ended steps _ (complete_step d step artifacts)))

module _ {A C F : Type 0} (y : Yaml A F) (c : Compilers A C F) where
  resume_from-read :
      (o : Option (DerivationState A)) (files : Files F) (afresh : Start A F)
      → read_derivation_state y files ≡ o
      → read_derivation_state y afresh.files ≡ some afresh.derivation
      → let s = resume_from y o files afresh in read_derivation_state y s.files ≡ some s.derivation
  unfolding resume_from
  resume_from-read none files afresh e h = h
  resume_from-read (some existing) files afresh e h =
      elim (Bool-cases (ltb 0 (length existing.completed_steps))) [
        | inl some_done ↦ rw some_done e
        | inr nothing ↦ rw nothing h
      ]

  start-read :
      (files : Files F) (options : CompilationOptions A) (now : String)
      → IsFaithful y
      → let s = start y files options now in read_derivation_state y s.files ≡ some s.derivation
  unfolding start
  start-read files options now f = elim (Bool-cases options.resume) [
    | inl on ↦ rw on (resume_from-read _ files _ refl (read-write y files _ f))
    | inr off ↦ rw off (read-write y files _ f)
  ]

  Ended-success :
      (session : Session A) (version : String) (files : Files F) (p : Progress A F) (resumed : Bool)
      → Ended y c session version all_steps p
      → read_derivation_state y p.files ≡ some p.derivation
      → (finish resumed p).1.success ≡ not (can_resume y (finish resumed p).0)
  unfolding finish can_resume
  Ended-success session version files p resumed (whole e a) h = rw (e, h, a)
  Ended-success session version files p resumed
        (broken before step after e err split absent a again) h =
      rw (err, h)
        (sym (
          ap (λ b. not (not b))
            (all-false before step after p.derivation.completed_steps split absent)))

  -- A compilation succeeds exactly when it leaves no derivation state that can be resumed.
  pub compile-can_resume :
      (files : Files F) (options : CompilationOptions A) (now : String)
      → IsFaithful y
      → LeavesDerivation c
      → (compile y c files options now).1.success
        ≡ not (can_resume y (compile y c files options now).0)
  unfolding compile
  compile-can_resume files options now f l =
      let s = start y files options now in
      Ended-success options.session options.generator_version files _ s.resumed
        (run_steps-Ended y c options.session options.generator_version all_steps s.files
          s.derivation)
        (read-run_steps y c options.session options.generator_version all_steps s.files s.derivation
          f l (start-read files options now f))

  -- What a compilation that failed has saved, and how the next one takes it up.
  pub record Interrupted (files : Files F) (options : CompilationOptions A) : Type 0 where
    pub saved : DerivationState A
    pub before : List String
    pub step : String
    pub after : List String
    pub on_disk : read_derivation_state y files ≡ some saved
    pub split : all_steps ≡ before ++ step ∷ after
    pub pending : contains step saved.completed_steps ≡ false
    pub finished : all (λ s. contains s saved.completed_steps) before ≡ true
    pub resumes :
        (now : String)
        → 0 < length saved.completed_steps
        → compile y c files (record options { resume = true }) now
          ≡ finish true
              (run_steps y c options.session options.generator_version (step ∷ after) files saved)

  start-resume :
      (files : Files F) (options : CompilationOptions A) (now : String) (d : DerivationState A)
      → options.resume ≡ true
      → read_derivation_state y files ≡ some d
      → 0 < length d.completed_steps
      → start y files options now ≡ record { files = files; derivation = d; resumed = true }
  unfolding start resume_from
  start-resume files options now d on e h = rw (on, e) (ground arith)

  compile-resume :
      (files : Files F) (options : CompilationOptions A) (now : String) (d : DerivationState A)
      → options.resume ≡ true
      → read_derivation_state y files ≡ some d
      → 0 < length d.completed_steps
      → compile y c files options now
        ≡ finish true (run_steps y c options.session options.generator_version all_steps files d)
  unfolding compile
  compile-resume files options now d on e h = rw (start-resume files options now d on e h)

  Ended-Interrupted :
      (options : CompilationOptions A) (p : Progress A F) (resumed : Bool)
      → Ended y c options.session options.generator_version all_steps p
      → read_derivation_state y p.files ≡ some p.derivation
      → (finish resumed p).1.success ≡ false
      → Interrupted p.files options
  unfolding finish
  Ended-Interrupted options p resumed (whole e a) h fails = absurd (ground arith)
  Ended-Interrupted options p resumed (broken before step after e err split absent a again) h
        fails =
      record {
        saved = p.derivation;
        before = before;
        step = step;
        after = after;
        on_disk = h;
        split = split;
        pending = absent;
        finished = a;
        resumes = λ now some_done.
            compile-resume p.files (record options { resume = true }) now p.derivation refl h
              some_done
            ∙ ap (finish true) again;
      }

  -- A compilation that fails has its state on disk, broken off before the first step that is not
  -- complete; a resumed compilation skips the steps before it and runs from that step on.
  pub compile-Interrupted :
      (files : Files F) (options : CompilationOptions A) (now : String)
      → IsFaithful y
      → LeavesDerivation c
      → (compile y c files options now).1.success ≡ false
      → Interrupted (compile y c files options now).0 options
  unfolding compile finish
  compile-Interrupted files options now f l fails =
      let s = start y files options now in
      Ended-Interrupted options _ s.resumed
        (run_steps-Ended y c options.session options.generator_version all_steps s.files
          s.derivation)
        (read-run_steps y c options.session options.generator_version all_steps s.files s.derivation
          f l (start-read files options now f))
        fails
