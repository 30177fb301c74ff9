-- ===== src/SkillGraph/Walk.antt =====
-- A walk that never returns to where it was: the loop that `getPipelinePath` and `followChain` of
-- graph.ts have in common, and that it ends by itself.
use oss_agent_tools.Prelude.{
  ℕ, zero, suc, ◌≤◌, ◌<◌, String, ◌≡◌, refl, sym, ◌∙◌, append-nil, append_assoc, true, false, not,
  Option, none, some, List, [], ◌∷◌, ◌++◌, string_key, contains, contains-append, filter, length,
  Distinct, All, arith, Option-cases, inl, inr,
}

module _ (next : List String → String → Option String) where
  -- The places after `current`, and the set of visited ones at the end.
  unfoldable pub walk : ℕ → List String → String → List String × List String
  walk zero visited current = ([], visited)
  walk (suc fuel) visited current = elim (next visited current) [
    | none ↦ ([], visited)
    | some n ↦ let (rest, visited') = walk fuel (visited ++ n ∷ []) n in (n ∷ rest, visited')
  ]

  -- Each place is the next one of the place before, and the last has no next.
  abbrev pub IsWalk : List String → String → List String → Type 0
  IsWalk visited current [] = next visited current ≡ none
  IsWalk visited current (n ∷ rest) =
      (next visited current ≡ some n) × IsWalk (visited ++ n ∷ []) n rest

-- The elements that were not visited.
abbrev pub unvisited : List String → List String → List String
unvisited ids visited = filter (λ i. not (contains i visited)) ids

unvisited-le :
    (n : String) (ids visited : List String)
    → length (unvisited ids (visited ++ n ∷ [])) ≤ length (unvisited ids visited)
unvisited-le n [] visited = omega arith
unvisited-le n (i ∷ is) visited =
    ground (arith, unvisited-le n is visited, contains-append i visited (n ∷ []))

unvisited-lt :
    (n : String) (ids visited : List String)
    → contains n ids ≡ true
    → contains n visited ≡ false
    → length (unvisited ids (visited ++ n ∷ [])) < length (unvisited ids visited)
unvisited-lt n [] visited h k = absurd (ground arith)
unvisited-lt n (i ∷ is) visited h k = ground (
  arith,
  unvisited-lt n is visited,
  unvisited-le n is visited,
  contains-append i visited (n ∷ []),
  string_key.same_iff i n,
  string_key.same_iff n i,
)

-- The next place is one of the ids, and new.
abbrev pub IsFresh : (List String → String → Option String) → List String → Type 0
IsFresh next ids =
    (visited : List String) (current n : String)
    → next visited current ≡ some n
    → (contains n ids ≡ true) × (contains n visited ≡ false)

walk-stop :
    (next : List String → String → Option String) (fuel : ℕ) (visited : List String)
    (current : String)
    → next visited current ≡ none
    → walk next (suc fuel) visited current ≡ ([], visited)
unfolding walk
walk-stop next fuel visited current e = rw (e, walk) refl

walk-step :
    (next : List String → String → Option String) (fuel : ℕ) (visited : List String)
    (current n : String)
    → next visited current ≡ some n
    → walk next (suc fuel) visited current
      ≡ (n ∷ (walk next fuel (visited ++ n ∷ []) n).0, (walk next fuel (visited ++ n ∷ []) n).1)
unfolding walk
walk-step next fuel visited current n e = rw (e, walk) refl

-- The set at the end holds what was visited and the places.
pub walk-visited :
    (next : List String → String → Option String) (fuel : ℕ) (visited : List String)
    (current : String)
    → (walk next fuel visited current).1 ≡ visited ++ (walk next fuel visited current).0
unfolding walk
walk-visited next zero visited current = sym (append-nil visited)
walk-visited next (suc fuel) visited current = elim (Option-cases (next visited current)) [
  | inl e ↦ rw (walk-stop next fuel visited current e) (sym (append-nil visited))
  | inr (n, e) ↦
      rw (walk-step next fuel visited current n e)
        (walk-visited next fuel (visited ++ n ∷ []) n ∙ append_assoc visited (n ∷ []) _)
]

pub walk-IsWalk :
    (next : List String → String → Option String) (ids : List String)
    → IsFresh next ids
    → (fuel : ℕ) (visited : List String) (current : String) → length (unvisited ids visited) < fuel
    → IsWalk next visited current (walk next fuel visited current).0
walk-IsWalk next ids fresh zero visited current h = absurd (omega arith)
walk-IsWalk next ids fresh (suc fuel) visited current h =
    elim (Option-cases (next visited current)) [
      | inl e ↦ rw (walk-stop next fuel visited current e) e
      | inr (n, e) ↦ rw (walk-step next fuel visited current n e) (
        e,
        walk-IsWalk next ids fresh fuel (visited ++ n ∷ []) n (
            omega (
              arith,
              unvisited-lt n ids visited (fresh visited current n e).0
                  (fresh visited current n e).1,
            )),
      )
    ]

-- None of the places was visited before.
abbrev New : List String → List String → Type 0
New visited = All (λ n. contains n visited ≡ false)

pub New-not_last :
    (n : String) (visited rest : List String)
    → New (visited ++ n ∷ []) rest
    → contains n rest ≡ false
New-not_last n visited [] h = refl
New-not_last n visited (m ∷ rest) (h, hs) = ground (
  arith,
  New-not_last n visited rest hs,
  contains-append m visited (n ∷ []),
  string_key.same_iff n m,
  string_key.same_iff m n,
)

New-fewer :
    (n : String) (visited rest : List String) → New (visited ++ n ∷ []) rest → New visited rest
New-fewer n visited [] h = tt
New-fewer n visited (m ∷ rest) (h, hs) =
    (ground (arith, contains-append m visited (n ∷ [])), New-fewer n visited rest hs)

-- No place of the walk is visited twice, or was before it.
pub walk-Distinct :
    (next : List String → String → Option String) (ids : List String)
    → IsFresh next ids
    → (fuel : ℕ) (visited : List String) (current : String)
    → All (λ n. contains n visited ≡ false) (walk next fuel visited current).0
      × Distinct (walk next fuel visited current).0
unfolding walk
walk-Distinct next ids fresh zero visited current = (tt, tt)
walk-Distinct next ids fresh (suc fuel) visited current =
    elim (Option-cases (next visited current)) [
      | inl e ↦ rw (walk-stop next fuel visited current e) (tt, tt)
      | inr (n, e) ↦
          let (new, distinct) = walk-Distinct next ids fresh fuel (visited ++ n ∷ []) n in
          rw (walk-step next fuel visited current n e) (
            ((fresh visited current n e).1, New-fewer n visited _ new),
            (New-not_last n visited _ new, distinct),
          )
    ]
