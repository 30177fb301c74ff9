-- ===== src/AutoManage/Text.antt =====
-- Texts as lists of UTF-16 code units, with the operations of `String` that autoManage calls.
use oss_agent_tools.Prelude.{
  ℕ, ◌≡◌, refl, sym, ap, ap₂, subst, ◌↔◌, ◌≢◌, inl, inr, Bool, true, false, not, ◌&&◌, ◌||◌, List,
  [], ◌∷◌, ◌++◌, reverse, map, map-append, leb, nat_eq, filter, filter-append, if◌then◌else◌,
  Bool-cases, arith, All,
}

abbrev pub Text : Type 0
Text = List ℕ

abbrev pub newline : ℕ
newline = 10

-- The white space and line terminators of ECMAScript.
unfoldable pub is_space : ℕ → Bool
is_space c =
    (leb 9 c && leb c 13)
    || nat_eq c 32
    || nat_eq c 160
    || nat_eq c 0x1680
    || (leb 0x2000 c && leb c 0x200a)
    || nat_eq c 0x2028
    || nat_eq c 0x2029
    || nat_eq c 0x202f
    || nat_eq c 0x205f
    || nat_eq c 0x3000
    || nat_eq c 0xfeff

unfoldable pub trim_start : Text → Text
trim_start [] = []
trim_start (c ∷ s) = let rest = trim_start s in if is_space c then rest else c ∷ s

unfoldable pub trim : Text → Text
unfolding trim_start is_space
trim s = reverse (trim_start (reverse (trim_start s)))

abbrev pub is_empty : Text → Bool
is_empty [] = true
is_empty (c ∷ s) = false

abbrev pub starts_with : Text → Text → Bool
starts_with [] s = true
starts_with (p ∷ ps) [] = false
starts_with (p ∷ ps) (c ∷ s) = nat_eq c p && starts_with ps s

-- `String.prototype.includes`, with the pattern first.
abbrev pub includes : Text → Text → Bool
includes p [] = starts_with p []
includes p (c ∷ s) = starts_with p (c ∷ s) || includes p s

-- The first segment gets one more character in front.
abbrev pub push_first : ℕ → List Text → List Text
push_first c [] = (c ∷ []) ∷ []
push_first c (l ∷ ls) = (c ∷ l) ∷ ls

-- `split('\n')`.
unfoldable pub split_lines : Text → List Text
split_lines [] = [] ∷ []
split_lines (c ∷ s) =
    let rest = split_lines s in if nat_eq c newline then [] ∷ rest else push_first c rest

-- `endsWith('\n')`.
unfoldable pub ends_with_newline : Text → Bool
ends_with_newline [] = false
ends_with_newline (c ∷ []) = nat_eq c newline
ends_with_newline (c ∷ d ∷ s) = ends_with_newline (d ∷ s)

-- What `pop` leaves, and what it returns (`''` from the empty list).
abbrev pub init : List Text → List Text
init [] = []
init (l ∷ []) = []
init (l ∷ m ∷ ls) = l ∷ init (m ∷ ls)

abbrev pub last : List Text → Text
last [] = []
last (l ∷ []) = l
last (l ∷ m ∷ ls) = last (m ∷ ls)

-- `map(trim)` and the filter on what is left.
unfoldable pub clean : List Text → List Text
clean ls = filter (λ l. not (is_empty l)) (map trim ls)

pub clean-append : (xs ys : List Text) → clean (xs ++ ys) ≡ clean xs ++ clean ys
unfolding clean
clean-append xs ys = rw (map-append trim xs ys) (filter-append _ (map trim xs) (map trim ys))

pub clean_blank : clean ([] ∷ []) ≡ []
unfolding clean trim
clean_blank = refl

-- There is always a last segment.
pub split_lines-ne : (s : Text) → split_lines s ≢ []
unfolding split_lines
split_lines-ne [] = λ e. cc
split_lines-ne (c ∷ s) = ground (arith, split_lines-ne s)

init-last : (ls : List Text) → ls ≢ [] → init ls ++ last ls ∷ [] ≡ ls
init-last [] h = absurd (h refl)
init-last (l ∷ []) h = refl
init-last (l ∷ m ∷ ls) h = ap (◌∷◌ l) (init-last (m ∷ ls) (λ e. cc))

pub split_lines-init-last :
    (s : Text) → init (split_lines s) ++ last (split_lines s) ∷ [] ≡ split_lines s
split_lines-init-last s = init-last (split_lines s) (split_lines-ne s)

-- A text cut in two splits as its first part does, up to the last segment, which goes on.
init_cons : (l : Text) (ls : List Text) → ls ≢ [] → init (l ∷ ls) ≡ l ∷ init ls
init_cons l [] h = absurd (h refl)
init_cons l (m ∷ ls) h = refl

last_cons : (l : Text) (ls : List Text) → ls ≢ [] → last (l ∷ ls) ≡ last ls
last_cons l [] h = absurd (h refl)
last_cons l (m ∷ ls) h = refl

push_first-split :
    (c : ℕ) (b : Text) (ls : List Text)
    → nat_eq c newline ≡ false
    → ls ≢ []
    → push_first c (init ls ++ split_lines (last ls ++ b))
      ≡ init (push_first c ls) ++ split_lines (last (push_first c ls) ++ b)
unfolding split_lines
push_first-split c b [] h k = absurd (k refl)
push_first-split c b (l ∷ []) h k = rw h
push_first-split c b (l ∷ m ∷ ls) h k = refl

pub split_lines-append :
    (a b : Text)
    → split_lines (a ++ b) ≡ init (split_lines a) ++ split_lines (last (split_lines a) ++ b)
unfolding split_lines
split_lines-append [] b = refl
split_lines-append (c ∷ a) b = elim (Bool-cases (nat_eq c newline)) [
  | inl e ↦
      rw
        (
          e,
          init_cons [] (split_lines a) (split_lines-ne a),
          last_cons [] (split_lines a) (split_lines-ne a),
        )
        (ap (◌∷◌ []) (split_lines-append a b))
  | inr e ↦
      rw (e, split_lines-append a b) (push_first-split c b (split_lines a) e (split_lines-ne a))
]

-- A text that ends with a line break has two segments at least, and the last is empty.
ends-split :
    (s : Text)
    → ends_with_newline s ≡ true
    → (l m : Text) × (ls : List Text) × (split_lines s ≡ l ∷ m ∷ ls) × (last (m ∷ ls) ≡ [])
unfolding split_lines ends_with_newline
ends-split [] h = cc
ends-split (c ∷ []) h = ([], [], [], rw h, refl)
ends-split (c ∷ d ∷ s) h =
    let (l, m, ls, e, z) = ends-split (d ∷ s) h in
    elim (Bool-cases (nat_eq c newline)) [
      | inl here ↦ ([], l, m ∷ ls, rw here (ap (◌∷◌ []) e), z)
      | inr other ↦ (c ∷ l, m, ls, rw other (ap (push_first c) e), z)
    ]

pub last_of_ends : (s : Text) → ends_with_newline s ≡ true → last (split_lines s) ≡ []
last_of_ends s h = let (l, m, ls, e, z) = ends-split s h in rw e z

-- Nothing that was trimmed and kept is empty.
pub clean-ne : (ls : List Text) → All (λ l. l ≢ []) (clean ls)
unfolding clean
clean-ne [] = tt
clean-ne (l ∷ ls) = elim (Bool-cases (is_empty (trim l))) [
  | inl e ↦ rw e (clean-ne ls)
  | inr e ↦ rw e (λ z. not_empty z e, clean-ne ls)
]
  where
    not_empty : trim l ≡ [] → is_empty (trim l) ≡ false → ⊥
    not_empty z e = ground arith

pub init-append : (xs ys : List Text) → ys ≢ [] → init (xs ++ ys) ≡ xs ++ init ys
init-append [] ys h = refl
init-append (x ∷ []) [] h = absurd (h refl)
init-append (x ∷ []) (y ∷ ys) h = refl
init-append (x ∷ z ∷ xs) ys h = ap (◌∷◌ x) (init-append (z ∷ xs) ys h)

pub last-append : (xs ys : List Text) → ys ≢ [] → last (xs ++ ys) ≡ last ys
last-append [] ys h = refl
last-append (x ∷ []) [] h = absurd (h refl)
last-append (x ∷ []) (y ∷ ys) h = refl
last-append (x ∷ z ∷ xs) ys h = last-append (z ∷ xs) ys h

starts_with-prefix : (p s : Text) → starts_with p s ≡ true → (after : Text) × (s ≡ p ++ after)
starts_with-prefix [] s h = (s, refl)
starts_with-prefix (d ∷ p) [] h = absurd (ground arith)
starts_with-prefix (d ∷ p) (c ∷ s) h =
    let (after, e) = starts_with-prefix p s (ground (arith, h)) in
    (after, ap₂ ◌∷◌ (ground (arith, h)) e)

prefix-starts_with : (p after : Text) → starts_with p (p ++ after) ≡ true
prefix-starts_with [] after = refl
prefix-starts_with (d ∷ p) after = ground (arith, prefix-starts_with p after)

-- A text includes a pattern exactly where it can be cut around it.
pub includes_iff :
    (p s : Text)
    → (includes p s ≡ true) ↔ ((before : Text) × (after : Text) × (s ≡ before ++ (p ++ after)))
includes_iff p s =
    (found s, λ (before, after, e). subst (λ t. includes p t ≡ true) (sym e) (cut before after))
  where
    found :
        (s : Text)
        → includes p s ≡ true
        → (before : Text) × (after : Text) × (s ≡ before ++ (p ++ after))
    found [] h = let (after, e) = starts_with-prefix p [] h in ([], after, e)
    found (c ∷ s) h = elim (Bool-cases (starts_with p (c ∷ s))) [
      | inl e ↦ let (after, e') = starts_with-prefix p (c ∷ s) e in ([], after, e')
      | inr e ↦
          let (before, after, e') = found s (ground (arith, e, h)) in
          (c ∷ before, after, ap (◌∷◌ c) e')
    ]

    cut_first : (t : Text) → starts_with p t ≡ true → includes p t ≡ true
    cut_first [] h = h
    cut_first (c ∷ t) h = ground (arith, h)

    cut : (before after : Text) → includes p (before ++ (p ++ after)) ≡ true
    cut [] after = cut_first (p ++ after) (prefix-starts_with p after)
    cut (c ∷ before) after = ground (arith, cut before after)
