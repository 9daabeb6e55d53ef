-- ===== src/Base/Text.antt =====
-- Python's text of numbers, `"sep".join(parts)`, and the order of texts that `sorted` uses.
use Prim.Native.Nat.{ℕ, zero, suc, ◌/◌, ◌%◌, Ordering}
use Prim.Native.String
use Prim.Native.String.{String, compare}
use mathlib.Core.Bool.{Bool, true, false}
pub use text.Mathlib.Text.{◌==◌ as str_eq}
use mathlib.Core.List.{List, [], ◌∷◌}
use polyserve.Base.Tests.{ltb, ◌==◌, if◌then◌else◌}

infixr 65 ◌<>◌
abbrev pub ◌<>◌ : String → String → String
a <> b = String.◌++◌ a b

digit : ℕ → String
digit d =
    if d == 0
    then "0"
    else if d == 1
    then "1"
    else if d == 2
    then "2"
    else if d == 3
    then "3"
    else if d == 4
    then "4"
    else if d == 5
    then "5"
    else if d == 6
    then "6"
    else if d == 7
    then "7"
    else if d == 8
    then "8"
    else "9"

-- The digits of `n` before `acc`. A number has fewer digits than its value, so `suc n` is enough fuel.
show_from : ℕ → ℕ → String → String
show_from zero n acc = acc
show_from (suc fuel) n acc = elim (ltb n 10) [
  | true ↦ digit n <> acc
  | false ↦ show_from fuel (n / 10) (digit (n % 10) <> acc)
]

-- `str(n)` for a natural number.
unfoldable pub show_ℕ : ℕ → String
unfolding show_from digit
show_ℕ n = show_from (suc n) n ""

unfoldable pub join : String → List String → String
join sep [] = ""
join sep (x ∷ []) = x
join sep (x ∷ y ∷ rest) = x <> sep <> join sep (y ∷ rest)

-- `a < b` on texts: by code points, the order of `sorted`.
abbrev pub str_ltb : String → String → Bool
str_ltb a b = elim (compare a b) [ Ordering.lt ↦ true | _ ↦ false ]

-- `x or ""`-style truth of a text: not empty.
abbrev pub is_text : String → Bool
is_text s = elim (str_eq s "") [ true ↦ false | false ↦ true ]
