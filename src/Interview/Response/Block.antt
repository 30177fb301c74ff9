-- ===== src/Interview/Response/Block.antt =====
-- The coverage block goes there and back: what stands around it is the message, and what stands in
-- it is the report.
use oss_agent_tools.Prelude.{
  ℕ, ◌≡◌, refl, true, false, Option, none, some, [], ◌∷◌, ◌++◌, nat_eq, nat_eq_iff, contains,
  text_key, nat_key, arith, Bool-cases, Option-cases, inl, inr,
}
use oss_agent_tools.AutoManage.Text.{Text, trim, starts_with}
use oss_agent_tools.Interview.Response.{
  Report, block_start, block_end, skip, find_split, find_block, with_report, parse_response,
}

-- A text that does not start with the pattern does not when a character follows that the pattern
-- lacks.
starts_with-append :
    (p a : Text) (c : ℕ) (q : Text)
    → contains c p ≡ false
    → starts_with p a ≡ false
    → starts_with p (a ++ c ∷ q) ≡ false
starts_with-append [] a c q n h = absurd (ground arith)
starts_with-append (d ∷ p) [] c q n h = ground (arith, nat_eq_iff c d, nat_eq_iff d c)
starts_with-append (d ∷ p) (x ∷ a) c q n h = elim (Bool-cases (nat_eq x d)) [
  | inl e ↦ rw e (starts_with-append p a c q (ground arith) (ground (arith, e)))
  | inr e ↦ rw e refl
]

starts_with_self : (p q : Text) → (starts_with p (p ++ q) ≡ true) × (skip p (p ++ q) ≡ q)
starts_with_self [] q = (refl, refl)
starts_with_self (c ∷ p) q =
    let (s, k) = starts_with_self p q in (ground (arith, nat_eq_iff c c, s), k)

find_split_here : (c : ℕ) (p q : Text) → find_split (c ∷ p) (c ∷ (p ++ q)) ≡ some ([], q)
unfolding find_split
find_split_here c p q = let (s, k) = starts_with_self (c ∷ p) q in rw (s, k) refl

longer_starts_with :
    (c x : ℕ) (p a q : Text)
    → contains c p ≡ false
    → starts_with (c ∷ p) (x ∷ a) ≡ false
    → starts_with (c ∷ p) (x ∷ (a ++ c ∷ q)) ≡ false
longer_starts_with c x p a q n h = elim (Bool-cases (nat_eq x c)) [
  | inl e ↦ rw e (starts_with-append p a c q n (ground (arith, e)))
  | inr e ↦ rw e refl
]

-- Where a pattern does not occur, it occurs not at the start, and not later.
find_split-none :
    (p : Text) (x : ℕ) (a : Text)
    → find_split p (x ∷ a) ≡ none
    → (starts_with p (x ∷ a) ≡ false) × (find_split p a ≡ none)
unfolding find_split
find_split-none p x a h = elim (Bool-cases (starts_with p (x ∷ a))) [
  | inl e ↦ absurd (ground (arith, e))
  | inr e ↦ elim (Option-cases (find_split p a)) [
    | inl k ↦ (e, k)
    | inr (cut, k) ↦ absurd (ground (arith, e, k))
  ]
]

find_split-step :
    (p : Text) (x : ℕ) (s before after : Text)
    → starts_with p (x ∷ s) ≡ false
    → find_split p s ≡ some (before, after)
    → find_split p (x ∷ s) ≡ some (x ∷ before, after)
unfolding find_split
find_split-step p x s before after e k = rw (e, k) refl

-- A pattern whose first character does not return in it is found where it was put, if it does not
-- occur in what stands before it.
find_split-append :
    (c : ℕ) (p a q : Text)
    → contains c p ≡ false
    → find_split (c ∷ p) a ≡ none
    → find_split (c ∷ p) (a ++ c ∷ (p ++ q)) ≡ some (a, q)
find_split-append c p [] q n h = find_split_here c p q
find_split-append c p (x ∷ a) q n h =
    let (first, later) = find_split-none (c ∷ p) x a h in
    find_split-step (c ∷ p) x (a ++ c ∷ (p ++ q)) a q (longer_starts_with c x p a (p ++ q) n first)
      (find_split-append c p a q n later)

block_split :
    (before after : Text)
    → find_split block_start before ≡ none
    → find_split block_start (before ++ (block_start ++ after)) ≡ some (before, after)
block_split before after h = find_split-append 60 (skip (60 ∷ []) block_start) before after refl h

end_split :
    (body after : Text)
    → find_split block_end body ≡ none
    → find_split block_end (body ++ (block_end ++ after)) ≡ some (body, after)
end_split body after h = find_split-append 67 (skip (67 ∷ []) block_end) body after refl h

-- A reply that carries a coverage block is read as the text around the block and the report in it,
-- where neither the start of a block occurs before it nor its end within.
pub parse_response-block :
    {N : Type 0} (decode : Text → Option (Report N)) (turn : ℕ) (before body after : Text)
    → find_split block_start before ≡ none
    → find_split block_end body ≡ none
    → parse_response decode turn (before ++ (block_start ++ (body ++ (block_end ++ after))))
      ≡ with_report decode turn (trim (before ++ after)) (decode (trim body))
unfolding parse_response find_block
parse_response-block decode turn before body after h k =
    rw (block_split before (body ++ (block_end ++ after)) h, end_split body after k) refl
