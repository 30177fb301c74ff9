-- ===== src/AutoManage/Store/Rows.antt =====
-- Rows with ids: what selecting the rows of one agent, and dropping the others, leaves.
use oss_agent_tools.Prelude.{
  ℕ, suc, ◌-◌, ◌≤◌, ◌<◌, ◌≡◌, refl, ap, sym, ◌∙◌, inl, inr, Bool, true, false, not, ◌||◌, List, [],
  ◌∷◌, ◌++◌, map-append, reverse, reverse-cons, nat_key, text_key, contains, contains-append,
  Distinct, length, length-append, length-reverse, filter, take, take-append, take_of_length-le,
  take_last, All, All-map, length-map, leb, leb→le, beq_refl, Bool-cases, arith,
}
use oss_agent_tools.AutoManage.Store.{EventRow, ids}

-- Of the rows that the test selects, those that the keys keep.
pub filter-keep {ℓ} :
    {A : Type ℓ} (p c : A → Bool) (xs : List A)
    → filter p (filter (λ x. not (p x) || c x) xs) ≡ filter c (filter p xs)
filter-keep p c [] = refl
filter-keep p c (x ∷ xs) = ground (arith, filter-keep p c xs)

-- Rows that a test selects pass a weaker one.
pub filter-other {ℓ} :
    {A : Type ℓ} (p q : A → Bool) (xs : List A)
    → ((x : A) → p x ≡ true → q x ≡ true)
    → filter p (filter q xs) ≡ filter p xs
filter-other p q [] h = refl
filter-other p q (x ∷ xs) h = ground (arith, filter-other p q xs h, h x)

pub filter-All {ℓ} :
    {A : Type ℓ} (p : A → Bool) (xs : List A) → All (λ x. p x ≡ true) xs → filter p xs ≡ xs
filter-All p [] h = refl
filter-All p (x ∷ xs) (h, k) = rw (h, filter-All p xs k)

pub contains-take :
    (i : ℕ) (k : ℕ) (l : List ℕ) → contains i l ≡ false → contains i (take k l) ≡ false
contains-take i (suc k) (x ∷ l) h = ground (arith, contains-take i k l)
contains-take i _ _ h = refl

contains-reverse : (i : ℕ) (l : List ℕ) → contains i (reverse l) ≡ contains i l
contains-reverse i [] = refl
contains-reverse i (x ∷ l) =
    rw (reverse-cons x l, contains-append i (reverse l) (x ∷ []), contains-reverse i l)
      (ground arith)

ids-reverse : (rows : List EventRow) → ids (reverse rows) ≡ reverse (ids rows)
ids-reverse [] = refl
ids-reverse (r ∷ rows) = rw (
  reverse-cons r rows,
  reverse-cons r.id (ids rows),
  map-append (λ (s : EventRow). s.id) (reverse rows) (r ∷ []),
  ids-reverse rows,
)

ids-reverse-contains :
    (i : ℕ) (rows : List EventRow)
    → contains i (ids rows) ≡ true
    → contains i (ids (reverse rows)) ≡ true
ids-reverse-contains i rows h =
    ap (contains i) (ids-reverse rows) ∙ contains-reverse i (ids rows) ∙ h

own_ids : (rows : List EventRow) → All (λ r. contains r.id (ids rows) ≡ true) rows
own_ids [] = tt
own_ids (r ∷ rows) = (
  rw (beq_refl r.id),
  All-map (λ s. contains s.id (ids rows) ≡ true) (λ s. contains s.id (ids (r ∷ rows)) ≡ true) rows
      (λ s h. ground arith) (own_ids rows),
)

-- The ids of the newest `k` rows select the last `k` rows, if no id stands twice.
pub filter-newest :
    (k : ℕ) (rows : List EventRow)
    → Distinct (ids rows)
    → filter (λ r. contains r.id (take k (ids (reverse rows)))) rows ≡ take_last k rows
filter-newest k [] d = let e : 0 - k ≡ 0 = omega arith in rw e
filter-newest k (r ∷ rows) (n, d) = elim (Bool-cases (leb k (length rows))) [
  | inl e ↦ older (filter-newest k rows d) (leb→le k (length rows) e)
  | inr e ↦ whole (ground arith)
]
  where
    selected : List ℕ → List EventRow
    selected keys = filter (λ s. contains s.id keys) (r ∷ rows)

    len : length (ids (reverse rows)) ≡ length rows
    len = length-map (reverse rows) (λ (s : EventRow). s.id) ∙ length-reverse rows

    split : ids (reverse (r ∷ rows)) ≡ ids (reverse rows) ++ r.id ∷ []
    split =
        ap ids (reverse-cons r rows) ∙ map-append (λ (s : EventRow). s.id) (reverse rows) (r ∷ [])

    absent : contains r.id (take k (ids (reverse rows))) ≡ false
    absent =
        contains-take r.id k (ids (reverse rows))
          (ap (contains r.id) (ids-reverse rows) ∙ contains-reverse r.id (ids rows) ∙ n)

    older :
        filter (λ s. contains s.id (take k (ids (reverse rows)))) rows ≡ take_last k rows
        → k ≤ length rows
        → filter (λ s. contains s.id (take k (ids (reverse (r ∷ rows))))) (r ∷ rows)
          ≡ take_last k (r ∷ rows)
    older ih h =
        let e : suc (length rows) - k ≡ suc (length rows - k) = omega arith in
        let keys = ap (take k) split ∙ take-append k (ids (reverse rows)) (r.id ∷ []) (rw len h) in
        ap selected keys ∙ rw (absent, e) ih

    whole :
        length rows < k
        → filter (λ s. contains s.id (take k (ids (reverse (r ∷ rows))))) (r ∷ rows)
          ≡ take_last k (r ∷ rows)
    whole h =
        let e : suc (length rows) - k ≡ 0 = omega arith in
        let fits : length (ids (reverse rows) ++ r.id ∷ []) ≤ k =
          omega (arith, len, length-append (ids (reverse rows)) (r.id ∷ [])) in
        let keys = ap (take k) split ∙ take_of_length-le k _ fits ∙ sym split in
        ap selected keys
        ∙ filter-All _ (r ∷ rows) (
            All-map _ _ (r ∷ rows) (λ s h. ids-reverse-contains s.id (r ∷ rows) h)
              (own_ids (r ∷ rows)))
        ∙ rw e
