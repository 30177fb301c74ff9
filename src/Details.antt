-- ===== src/Details.antt =====
-- The open records (`Record<string, unknown>`) that reports carry beside their fixed fields:
-- `details` of TasteKit/tastekit/packages/core/trust/auditor.ts and `context` of
-- TasteKit/tastekit/packages/core/drift/detector.ts.
use oss_agent_tools.Prelude.{
  ℕ, zero, suc, ◌/◌, ◌%◌, String, ◌≡◌, refl, ap, ap₂, sym, ◌∙◌, ◌↔◌, Bool, true, false, not, ◌&&◌,
  Option, none, some, List, [], ◌∷◌, map, ◌==◌, Key, nat_key, string_key, arith, nat_eq, nat_eq_iff,
  ltb, if◌then◌else◌, concat,
}
use oss_agent_tools.Trace.{Value, null, bool, number, str, reference}

-- A value that is a number, a single value or an array.
pub data Datum : Type 0 where
  count : ℕ → Datum
  one : Value → Datum
  many : List Value → Datum

abbrev pub Details : Type 0
Details = List (String × Datum)

abbrev pub text : String → Datum
text s = one (str s)

abbrev pub texts : List String → Datum
texts ss = many (map str ss)

-- The case of a value, its text and its number, from which it can be had again.
abbrev value_index : Value → ℕ
value_index null = 0
value_index (bool b) = if b then 2 else 1
value_index (number t) = 3
value_index (str s) = 4
value_index (reference n) = 5

abbrev value_text : Value → String
value_text (number t) = t
value_text (str s) = s
value_text _ = ""

abbrev value_id : Value → ℕ
value_id (reference n) = n
value_id _ = 0

abbrev value_at : ℕ → String → ℕ → Value
value_at i s n =
    if nat_eq i 0
    then null
    else if nat_eq i 1
    then bool false
    else if nat_eq i 2
    then bool true
    else if nat_eq i 3
    then number s
    else if nat_eq i 4
    then str s
    else reference n

value_at-index : (v : Value) → value_at (value_index v) (value_text v) (value_id v) ≡ v
value_at-index null = refl
value_at-index (bool true) = refl
value_at-index (bool false) = refl
value_at-index (number t) = refl
value_at-index (str s) = refl
value_at-index (reference n) = refl

-- `===` on values, except that NaN, which is no value of a JSON text, is left out.
abbrev pub value_eq : Value → Value → Bool
value_eq a b =
    nat_eq (value_index a) (value_index b)
    && value_text a == value_text b
    && nat_eq (value_id a) (value_id b)

value_eq-true :
    (a b : Value)
    → (value_eq a b ≡ true) ↔ (
        (value_index a ≡ value_index b) × (value_text a ≡ value_text b) × (value_id a ≡ value_id b))
value_eq-true a b = ground (
  arith,
  nat_eq_iff (value_index a) (value_index b),
  string_key.same_iff (value_text a) (value_text b),
  nat_eq_iff (value_id a) (value_id b),
)

pub value_eq_iff : (a b : Value) → (value_eq a b ≡ true) ↔ (a ≡ b)
value_eq_iff a b = (
  λ e.
      let (i, s, n) = (value_eq-true a b).0 e in
      sym (value_at-index a)
      ∙ ap (λ k. value_at k (value_text a) (value_id a)) i
      ∙ ap₂ (value_at (value_index b)) s n
      ∙ value_at-index b,
  λ e. (value_eq-true a b).1 (ap value_index e, ap value_text e, ap value_id e),
)

instance abbrev pub value_key : Key Value
value_key = record { same = value_eq; same_iff = value_eq_iff }

abbrev pub truthy_value : Value → Bool
truthy_value null = false
truthy_value (bool b) = b
truthy_value (number t) = not (t == "0")
truthy_value (str s) = not (s == "")
truthy_value (reference n) = true

-- The value of `v || d`.
abbrev pub falsy_or : Option Value → Value → Value
falsy_or none d = d
falsy_or (some v) d = if truthy_value v then v else d

-- The value of `v ?? d`.
abbrev pub nullish_or : Option Value → Value → Value
nullish_or none d = d
nullish_or (some null) d = d
nullish_or (some v) d = v

abbrev digit : ℕ → String
digit d =
    if nat_eq d 0
    then "0"
    else if nat_eq d 1
    then "1"
    else if nat_eq d 2
    then "2"
    else if nat_eq d 3
    then "3"
    else if nat_eq d 4
    then "4"
    else if nat_eq d 5
    then "5"
    else if nat_eq d 6
    then "6"
    else if nat_eq d 7
    then "7"
    else if nat_eq d 8
    then "8"
    else "9"

digits : ℕ → ℕ → String → String
digits zero n rest = rest
digits (suc fuel) n rest =
    let more = digits fuel (n / 10) (concat (digit (n % 10)) rest) in
    if ltb n 10 then concat (digit n) rest else more

-- The decimal text of a number; it has no more digits than its value and one.
unfoldable pub decimal : ℕ → String
unfolding digits
decimal n = digits (suc n) n ""

-- `Array.prototype.join(', ')` on texts.
abbrev pub join : List String → String
join [] = ""
join (s ∷ []) = s
join (s ∷ t ∷ ts) = concat s (concat ", " (join (t ∷ ts)))

decimal_test : decimal 907 ≡ "907"
unfolding decimal
decimal_test = refl
