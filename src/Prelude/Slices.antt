-- ===== src/Prelude/Slices.antt =====
-- Cuts of a list at its front and at its end.
use Prim.Native.Nat.{ℕ, zero, suc, ◌-◌, ◌≤◌, ◌<◌}
use mathlib.Core.Path.{◌≡◌, refl, ap, subst, sym, ◌∙◌}
use mathlib.Core.Logic.{inl, inr}
use mathlib.Core.List.{List, [], ◌∷◌, ◌++◌, map, reverse, reverse-cons, reverse-reverse, map-append}
use native.Mathlib.Omega.{arith}
use oss_agent_tools.Prelude.Tests.{leb, leb→le, Bool-cases}
use oss_agent_tools.Prelude.Lists.{
  length, length-reverse, length-map, take, drop, take_last, take_of_length-le, All, All-append,
}

module _ {ℓ} {A : Type ℓ} where
  pub take-append : (k : ℕ) (xs ys : List A) → k ≤ length xs → take k (xs ++ ys) ≡ take k xs
  take-append (suc k) (x ∷ xs) ys h = ap (◌∷◌ x) (take-append k xs ys (omega arith))
  take-append (suc k) [] ys h = absurd (omega arith)
  take-append _ xs ys h = refl

  pub cons-injective : {x y : A} {xs ys : List A} → x ∷ xs ≡ y ∷ ys → (x ≡ y) × (xs ≡ ys)
  cons-injective e = (cc, cc)

  take-nil : (n : ℕ) → take {A = A} n [] ≡ []
  take-nil zero = refl
  take-nil (suc n) = refl

  take_last-nil : (n : ℕ) → take_last {A = A} n [] ≡ []
  take_last-nil n = let e : 0 - n ≡ 0 = omega arith in rw e

  -- The newest `n`, read from the newest on and turned round, are the last `n`.
  pub reverse-take : (n : ℕ) (xs : List A) → reverse (take n (reverse xs)) ≡ take_last n xs
  reverse-take n [] = rw (take-nil n, take_last-nil n)
  reverse-take n (x ∷ xs) = elim (Bool-cases (leb n (length xs))) [
    | inl e ↦ older (leb→le n (length xs) e) (reverse-take n xs)
    | inr e ↦ whole (ground arith)
  ]
    where
      older :
          n ≤ length xs
          → reverse (take n (reverse xs)) ≡ take_last n xs
          → reverse (take n (reverse (x ∷ xs))) ≡ take_last n (x ∷ xs)
      older h ih =
          let e : suc (length xs) - n ≡ suc (length xs - n) = omega arith in
          ap (λ l. reverse (take n l)) (reverse-cons x xs)
          ∙ ap reverse (take-append n (reverse xs) (x ∷ []) (rw (length-reverse xs) h))
          ∙ rw e ih

      whole : length xs < n → reverse (take n (reverse (x ∷ xs))) ≡ take_last n (x ∷ xs)
      whole h =
          let e : suc (length xs) - n ≡ 0 = omega arith in
          ap reverse
            (take_of_length-le n (reverse (x ∷ xs)) (omega (arith, length-reverse (x ∷ xs))))
          ∙ reverse-reverse (x ∷ xs)
          ∙ rw e

module _ {ℓ κ} {A : Type ℓ} {B : Type κ} (f : A → B) where
  pub map-drop : (n : ℕ) (xs : List A) → map f (drop n xs) ≡ drop n (map f xs)
  map-drop zero xs = refl
  map-drop (suc n) [] = refl
  map-drop (suc n) (x ∷ xs) = map-drop n xs

  pub map-take : (n : ℕ) (xs : List A) → map f (take n xs) ≡ take n (map f xs)
  map-take zero xs = refl
  map-take (suc n) [] = refl
  map-take (suc n) (x ∷ xs) = ap (◌∷◌ (f x)) (map-take n xs)

  pub map-take_last : (n : ℕ) (xs : List A) → map f (take_last n xs) ≡ take_last n (map f xs)
  map-take_last n xs =
      map-drop (length xs - n) xs ∙ ap (λ l. drop (l - n) (map f xs)) (length-map_sym xs)
    where
      length-map_sym : (ys : List A) → length ys ≡ length (map f ys)
      length-map_sym ys = omega (arith, length-map ys f)

  pub map-reverse : (xs : List A) → map f (reverse xs) ≡ reverse (map f xs)
  map-reverse [] = refl
  map-reverse (x ∷ xs) =
      ap (map f) (reverse-cons x xs)
      ∙ map-append f (reverse xs) (x ∷ [])
      ∙ ap (λ l. l ++ f x ∷ []) (map-reverse xs)
      ∙ sym (reverse-cons (f x) (map f xs))

module _ {ℓ κ} {A : Type ℓ} (P : A → Type κ) where
  pub All-take : (n : ℕ) (xs : List A) → All P xs → All P (take n xs)
  All-take zero xs h = tt
  All-take (suc n) [] h = tt
  All-take (suc n) (x ∷ xs) (h, k) = (h, All-take n xs k)

  pub All-reverse : (xs : List A) → All P xs → All P (reverse xs)
  All-reverse [] h = tt
  All-reverse (x ∷ xs) (h, k) =
      subst (All P) (sym (reverse-cons x xs))
        (All-append P (reverse xs) (x ∷ []) (All-reverse xs k) (h, tt))
