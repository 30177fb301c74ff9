-- ===== src/Drift/Counts.antt =====
-- The maps that the detector counts with: after a list of keys each key has the number of its
-- occurrences, and the sets it collects are those of what the events name, each once.
use oss_agent_tools.Prelude.{
  ℕ, ◌+◌, String, ◌≡◌, refl, ap, ◌∙◌, Bool, false, ◌&&◌, ◌||◌, Option, List, [], ◌∷◌, ◌==◌,
  string_key, contains, add, lookup, lookup-insert, contains-add, add-Distinct, Distinct, filter,
  length, or_else, arith, Bool-cases, inl, inr,
}
use oss_agent_tools.Trace.{TraceEvent, Value, truthy}
use oss_agent_tools.Details.{value_key}
use oss_agent_tools.Drift.Signals.{count_reasons, reason_of, used_refs, group_tools, skill_of}

-- The number of rejections that give the reason.
abbrev pub times_given : Value → List TraceEvent → ℕ
times_given r events = length (filter (λ e. reason_of e == r) events)

abbrev pub counted : Value → List (Value × ℕ) → ℕ
counted r counts = or_else (lookup r counts) 0

pub counted-count_reasons :
    (events : List TraceEvent) (counts : List (Value × ℕ)) (r : Value)
    → counted r (count_reasons events counts) ≡ counted r counts + times_given r events
counted-count_reasons [] counts r = omega arith
counted-count_reasons (e ∷ es) counts r =
    counted-count_reasons es _ r
    ∙ ground (
      arith,
      lookup-insert (reason_of e) r (counted (reason_of e) counts + 1) counts,
      value_key.same_iff (reason_of e) r,
    )

-- Some event names the reference, and the reference is not empty.
abbrev pub named_by : (TraceEvent → Option String) → List TraceEvent → String → Bool
named_by ref [] r = false
named_by ref (e ∷ es) r = (truthy (ref e) && or_else (ref e) "" == r) || named_by ref es r

pub contains-used_refs :
    (ref : TraceEvent → Option String) (events : List TraceEvent) (used : List String) (r : String)
    → contains r (used_refs ref events used) ≡ (contains r used || named_by ref events r)
contains-used_refs ref [] used r = ground arith
contains-used_refs ref (e ∷ es) used r = elim (Bool-cases (truthy (ref e))) [
  | inl h ↦
      rw h
        (contains-used_refs ref es _ r ∙ ground (arith, contains-add (or_else (ref e) "") r used))
  | inr h ↦ rw h (contains-used_refs ref es used r)
]

pub used_refs-Distinct :
    (ref : TraceEvent → Option String) (events : List TraceEvent) (used : List String)
    → Distinct used
    → Distinct (used_refs ref events used)
used_refs-Distinct ref [] used d = d
used_refs-Distinct ref (e ∷ es) used d = elim (Bool-cases (truthy (ref e))) [
  | inl h ↦ rw h (used_refs-Distinct ref es _ (add-Distinct (or_else (ref e) "") used d))
  | inr h ↦ rw h (used_refs-Distinct ref es used d)
]

pub contains-filter :
    (p : String → Bool) (r : String) (xs : List String)
    → contains r (filter p xs) ≡ (contains r xs && p r)
contains-filter p r [] = refl
contains-filter p r (x ∷ xs) = elim (Bool-cases (x == r)) [
  | inl h ↦ ground (arith, contains-filter p r xs, ap p ((string_key.same_iff x r).0 h))
  | inr h ↦ ground (arith, contains-filter p r xs)
]

pub filter-Distinct : (p : String → Bool) (xs : List String) → Distinct xs → Distinct (filter p xs)
filter-Distinct p [] d = tt
filter-Distinct p (x ∷ xs) (n, d) = elim (Bool-cases (p x)) [
  | inl h ↦ rw h (ground (arith, contains-filter p x xs), filter-Distinct p xs d)
  | inr h ↦ rw h (filter-Distinct p xs d)
]

-- The tools of a skill after the calls.
abbrev pub tools_of : String → List (String × List String) → List String
tools_of skill groups = or_else (lookup skill groups) []

-- Some call for the skill uses the tool.
abbrev pub called_by : List TraceEvent → String → String → Bool
called_by [] skill tool = false
called_by (e ∷ es) skill tool =
    (skill_of e == skill && or_else e.tool_ref "" == tool) || called_by es skill tool

pub contains-group_tools :
    (events : List TraceEvent) (groups : List (String × List String)) (skill tool : String)
    → contains tool (tools_of skill (group_tools events groups))
      ≡ (contains tool (tools_of skill groups) || called_by events skill tool)
contains-group_tools [] groups skill tool = ground arith
contains-group_tools (e ∷ es) groups skill tool =
    contains-group_tools es _ skill tool
    ∙ rw
        (lookup-insert (skill_of e) skill
          (add (or_else e.tool_ref "") (tools_of (skill_of e) groups)) groups)
        (elim (Bool-cases (skill_of e == skill)) [
          | inl h ↦
              rw (h, (string_key.same_iff (skill_of e) skill).0 h)
                (ground (arith, contains-add (or_else e.tool_ref "") tool (tools_of skill groups)))
          | inr h ↦ rw h refl
        ])
