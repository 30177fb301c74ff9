-- ===== src/Prelude/Keys.antt =====
-- Types with an equality test, and the collections that the program keys by them: a `Set` as a list
-- without repetitions in order of insertion, a `Map` as an association list in that order.
use Prim.Native.Nat.{ℕ}
use Prim.Native.String.{String}
use mathlib.Core.Path.{◌≡◌, refl, ap, subst, ◌∙◌}
use mathlib.Core.Logic.{◌↔◌, ◌≢◌, inl, inr}
use mathlib.Core.Bool.{Bool, true, false, not, ◌&&◌, ◌||◌}
use mathlib.Core.Option.{Option, none, some}
use mathlib.Core.List.{List, [], ◌∷◌, ◌++◌}
use native.Mathlib.Omega.{arith}
use text.Mathlib.Text.{◌==◌ as str_eq}
use text.Mathlib.TextEquality.{eq_iff}
use oss_agent_tools.Prelude.Lists.{All}
use oss_agent_tools.Prelude.Tests.{nat_eq, if◌then◌else◌, Bool-cases}

pub record Key {ℓ} (A : Type ℓ) : Type ℓ where
  pub same : A → A → Bool
  pub same_iff : (a b : A) → (same a b ≡ true) ↔ (a ≡ b)

infix 50 ◌==◌
abbrev pub ◌==◌ {ℓ} : {K : Type ℓ} ⦃key : Key K⦄ → K → K → Bool
◌==◌ ⦃key⦄ j k = key.same j k

pub nat_eq_iff : (a b : ℕ) → (nat_eq a b ≡ true) ↔ (a ≡ b)
nat_eq_iff a b = ground arith

instance abbrev pub nat_key : Key ℕ
nat_key = record { same = nat_eq; same_iff = nat_eq_iff }

instance abbrev pub string_key : Key String
string_key = record { same = str_eq; same_iff = eq_iff }

abbrev pub text_eq : List ℕ → List ℕ → Bool
text_eq [] [] = true
text_eq (x ∷ xs) (y ∷ ys) = nat_eq x y && text_eq xs ys
text_eq _ _ = false

pub text_eq_iff : (a b : List ℕ) → (text_eq a b ≡ true) ↔ (a ≡ b)
text_eq_iff [] [] = ground arith
text_eq_iff [] (y ∷ ys) = ground arith
text_eq_iff (x ∷ xs) [] = ground arith
text_eq_iff (x ∷ xs) (y ∷ ys) = ground (arith, text_eq_iff xs ys)

instance abbrev pub text_key : Key (List ℕ)
text_key = record { same = text_eq; same_iff = text_eq_iff }

module _ {ℓ} {K : Type ℓ} ⦃e : Key K⦄ where
  pub beq_refl : (k : K) → (k == k) ≡ true
  beq_refl k = (e.same_iff k k).1 refl

  -- `includes`, and `Set.prototype.has`.
  abbrev pub contains : K → List K → Bool
  contains k [] = false
  contains k (x ∷ xs) = x == k || contains k xs

  -- `Set.prototype.add`.
  abbrev pub add : K → List K → List K
  add k xs = if contains k xs then xs else xs ++ k ∷ []

  module _ {κ} {V : Type κ} where
    -- `Map.prototype.get`.
    abbrev pub lookup : K → List (K × V) → Option V
    lookup k [] = none
    lookup k ((j, v) ∷ m) = if j == k then some v else lookup k m

    -- `Map.prototype.set`: an entry that is there keeps its place.
    abbrev pub insert : K → V → List (K × V) → List (K × V)
    insert k v [] = (k, v) ∷ []
    insert k v ((j, w) ∷ m) = if j == k then (j, v) ∷ m else (j, w) ∷ insert k v m

    -- `Map.prototype.delete`.
    abbrev pub erase : K → List (K × V) → List (K × V)
    erase k [] = []
    erase k ((j, w) ∷ m) = if j == k then erase k m else (j, w) ∷ erase k m

    pub lookup-insert :
        (k j : K) (v : V) (m : List (K × V))
        → lookup j (insert k v m) ≡ (if k == j then some v else lookup j m)
    lookup-insert k j v [] = refl
    lookup-insert k j v ((i, w) ∷ m) =
        ground (arith, e.same_iff k j, e.same_iff i k, e.same_iff i j, lookup-insert k j v m)

    pub lookup-insert_self : (k : K) (v : V) (m : List (K × V)) → lookup k (insert k v m) ≡ some v
    lookup-insert_self k v m = lookup-insert k k v m ∙ rw (beq_refl k)

    pub lookup-insert_ne :
        (k j : K) (v : V) (m : List (K × V)) → k ≢ j → lookup j (insert k v m) ≡ lookup j m
    lookup-insert_ne k j v m h = ground (arith, lookup-insert k j v m, e.same_iff k j)

    -- A second write to a key replaces the first.
    pub insert-insert :
        (k : K) (v w : V) (m : List (K × V)) → insert k v (insert k w m) ≡ insert k v m
    insert-insert k v w [] = rw (beq_refl k)
    insert-insert k v w ((i, u) ∷ m) = elim (Bool-cases (i == k)) [
      | inl e' ↦ rw (e', e')
      | inr e' ↦ rw (e', e') (ap (◌∷◌ (i, u)) (insert-insert k v w m))
    ]

    -- What holds of every entry holds of the one that is found.
    pub lookup-All :
        (P : K → V → Type 0) (k : K) (v : V) (m : List (K × V))
        → All (λ e. P e.0 e.1) m
        → lookup k m ≡ some v
        → P k v
    lookup-All P k v [] h f = absurd (ground arith)
    lookup-All P k v ((j, w) ∷ m) (p, ps) f = elim (Bool-cases (j == k)) [
      | inl g ↦
          let found : w ≡ v = ground (arith, g, f) in
          subst (λ i. P i v) ((e.same_iff j k).0 g) (subst (P j) found p)
      | inr g ↦ lookup-All P k v m ps (ground (arith, g, f))
    ]

    pub lookup-erase :
        (k j : K) (m : List (K × V)) → lookup j (erase k m) ≡ (if k == j then none else lookup j m)
    lookup-erase k j [] = ground arith
    lookup-erase k j ((i, w) ∷ m) =
        ground (arith, e.same_iff k j, e.same_iff i k, e.same_iff i j, lookup-erase k j m)

  pub contains-append :
      (k : K) (xs ys : List K) → contains k (xs ++ ys) ≡ (contains k xs || contains k ys)
  contains-append k [] ys = refl
  contains-append k (x ∷ xs) ys = ground (arith, contains-append k xs ys)

  pub contains-add : (k j : K) (xs : List K) → contains j (add k xs) ≡ (contains j xs || k == j)
  contains-add k j xs = ground (arith, contains-append j xs (k ∷ []), e.same_iff k j)

  -- No element stands twice.
  abbrev pub Distinct : List K → Type 0
  Distinct [] = Unit
  Distinct (x ∷ xs) = (contains x xs ≡ false) × Distinct xs

  pub Distinct-append_one :
      (k : K) (xs : List K) → contains k xs ≡ false → Distinct xs → Distinct (xs ++ k ∷ [])
  Distinct-append_one k [] h d = (refl, tt)
  Distinct-append_one k (x ∷ xs) h (n, d) = (
    ground (arith, contains-append x xs (k ∷ []), e.same_iff k x, e.same_iff x k),
    Distinct-append_one k xs (ground arith) d,
  )

  pub add-Distinct : (k : K) (xs : List K) → Distinct xs → Distinct (add k xs)
  add-Distinct k xs d = elim (Bool-cases (contains k xs)) [
    | inl old ↦ rw old d
    | inr new ↦ rw new (Distinct-append_one k xs new d)
  ]

  pub Distinct-append :
      (xs ys : List K)
      → Distinct xs
      → Distinct ys
      → ((k : K) → contains k xs ≡ true → contains k ys ≡ false)
      → Distinct (xs ++ ys)
  Distinct-append [] ys d d' apart = d'
  Distinct-append (x ∷ xs) ys (n, d) d' apart = (
    ground (arith, contains-append x xs ys, beq_refl x, apart x),
    Distinct-append xs ys d d' (λ k h. apart k (ground (arith, h))),
  )

  -- The test for it.
  abbrev pub distinct : List K → Bool
  distinct [] = true
  distinct (x ∷ xs) = not (contains x xs) && distinct xs

  pub distinct-Distinct : (xs : List K) → distinct xs ≡ true → Distinct xs
  distinct-Distinct [] h = tt
  distinct-Distinct (x ∷ xs) h = (ground arith, distinct-Distinct xs (ground arith))
