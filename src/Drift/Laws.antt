-- ===== src/Drift/Laws.antt =====
-- What the detector promises: which signals become proposals, and what the signals count.
use oss_agent_tools.Prelude.{
  ℕ, ◌+◌, ◌≤◌, ◌<◌, String, ◌≡◌, refl, ◌↔◌, ◌⊎◌, true, false, not, Option, some, List, [], ◌∷◌,
  string_key, contains, length, All, ltb, leb, if◌then◌else◌, arith, Bool-cases, inl, inr,
}
use oss_agent_tools.AutoManage.Text.{Text}
use oss_agent_tools.Trace.{TraceEvent}
use oss_agent_tools.Drift.{DriftDetectionOptions, DriftProposal, DriftSignal, low, medium, high}
use oss_agent_tools.Drift.Signals.{used_refs, unknown_refs, detect_coverage_gaps, detect_signals}
use oss_agent_tools.Drift.Proposals.{Stamp, risk_of, create_proposal_from_signal}
use oss_agent_tools.Drift.Detect.{
  proposals_from, since_filtered, skill_filtered, detect_from_events,
}
use oss_agent_tools.Drift.Counts.{named_by, contains-used_refs, contains-filter}

-- A proposal that was seen often enough, with its frequency as evidence and rated by it.
abbrev pub IsRated : DriftProposal → Type 0
IsRated p =
    (3 ≤ p.frequency)
    × (p.evidence.occurrences ≡ some p.frequency)
    × ((10 < p.frequency) × (p.risk_rating ≡ high)
        ⊎ (5 < p.frequency) × (p.frequency ≤ 10) × (p.risk_rating ≡ medium)
        ⊎ (p.frequency ≤ 5) × (p.risk_rating ≡ low))

risk_of-cases :
    (n : ℕ)
    → (10 < n) × (risk_of n ≡ high)
      ⊎ (5 < n) × (n ≤ 10) × (risk_of n ≡ medium)
      ⊎ (n ≤ 5) × (risk_of n ≡ low)
risk_of-cases n = elim (Bool-cases (ltb 10 n)) [
  | inl h ↦ inl (ground arith, rw h refl)
  | inr h ↦ elim (Bool-cases (ltb 5 n)) [
    | inl k ↦ inr (inl (ground arith, ground arith, rw (h, k) refl))
    | inr k ↦ inr (inr (ground arith, rw (h, k) refl))
  ]
]

module _ (show_object : ℕ → String) (stamps : ℕ → Stamp) where
  proposals_from-IsRated :
      (n : ℕ) (signals : List DriftSignal)
      → All IsRated (proposals_from show_object stamps n signals)
  unfolding proposals_from create_proposal_from_signal
  proposals_from-IsRated n [] = tt
  proposals_from-IsRated n (s ∷ ss) = elim (Bool-cases (leb 3 s.frequency)) [
    | inl h ↦
        rw h ((ground arith, refl, risk_of-cases s.frequency), proposals_from-IsRated (n + 1) ss)
    | inr h ↦ rw h (proposals_from-IsRated n ss)
  ]

  -- A proposal made of the signal under some stamp.
  abbrev pub ProposalOf : DriftSignal → DriftProposal → Type 0
  ProposalOf s p = (n : ℕ) × (p ≡ create_proposal_from_signal show_object (stamps n) s)

-- The events that the options select.
abbrev pub selected :
    (String → Option ℕ) → DriftDetectionOptions → List TraceEvent → List TraceEvent
selected time_of options events =
    skill_filtered options.skill_id (since_filtered time_of options.since events)

module _ (time_of : String → Option ℕ) (files : String → Option Text)
    (generated : Text → Option (String × ℕ)) (now : ℕ) (show_object : ℕ → String)
    (stamps : ℕ → Stamp) where
  -- Every proposal is of a signal seen at least three times, which it gives as its evidence, and
  -- its risk is high above ten occurrences, medium above five and low up to five.
  pub detect_from_events-IsRated :
      (events : List TraceEvent) (options : DriftDetectionOptions)
      → All IsRated
          (detect_from_events time_of files generated now show_object stamps events options)
  unfolding detect_from_events
  detect_from_events-IsRated events options =
      proposals_from-IsRated show_object stamps 0
        (detect_signals time_of files generated now (selected time_of options events) options)

contains_of_none : (r : String) (xs : List String) → length xs ≡ 0 → contains r xs ≡ false
contains_of_none r [] h = refl
contains_of_none r (x ∷ xs) h = absurd (omega arith)

unknown_refs-known :
    (ref : TraceEvent → Option String) (events : List TraceEvent) (known : List String)
    → length (unknown_refs ref events known) ≡ 0
    → (r : String) → named_by ref events r ≡ true
    → contains r known ≡ true
unknown_refs-known ref events known h r n = ground (
  arith,
  contains_of_none r (unknown_refs ref events known) h,
  contains-filter (λ x. not (contains x known)) r (used_refs ref events []),
  contains-used_refs ref events [] r,
)

-- A list that contains nothing is empty.
length_of_none : (xs : List String) → ((r : String) → contains r xs ≡ false) → length xs ≡ 0
length_of_none [] h = refl
length_of_none (x ∷ xs) h = absurd (ground (arith, h x, string_key.same_iff x x))

length-unknown_refs :
    (ref : TraceEvent → Option String) (events : List TraceEvent) (known : List String)
    → ((r : String) → named_by ref events r ≡ true → contains r known ≡ true)
    → length (unknown_refs ref events known) ≡ 0
length-unknown_refs ref events known h = length_of_none (unknown_refs ref events known) (λ r.
    ground (
      arith,
      h r,
      contains-filter (λ x. not (contains x known)) r (used_refs ref events []),
      contains-used_refs ref events [] r,
    ))

silent_iff : (n : ℕ) (s : DriftSignal) → ((if ltb 0 n then s ∷ [] else []) ≡ []) ↔ (n ≡ 0)
silent_iff n s = ground arith

-- The coverage check is silent exactly when every skill and every tool that the events name is
-- known.
pub detect_coverage_gaps-silent :
    (events : List TraceEvent) (skills tools : List String)
    → (detect_coverage_gaps events skills tools ≡ []) ↔ (
        ((r : String) → named_by (λ e. e.skill_id) events r ≡ true → contains r skills ≡ true)
        × ((r : String) → named_by (λ e. e.tool_ref) events r ≡ true → contains r tools ≡ true))
unfolding detect_coverage_gaps
detect_coverage_gaps-silent events skills tools = (
  λ e. (
    unknown_refs-known (λ x. x.skill_id) events skills (omega (arith, (silent_iff _ _).0 e)),
    unknown_refs-known (λ x. x.tool_ref) events tools (omega (arith, (silent_iff _ _).0 e)),
  ),
  λ k. (silent_iff _ _).1 (
      omega (
        arith,
        length-unknown_refs (λ x. x.skill_id) events skills k.0,
        length-unknown_refs (λ x. x.tool_ref) events tools k.1,
      )),
)
