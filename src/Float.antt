-- ===== src/Float.antt =====
-- Python's floats. The language gives no exact model of them here, so the programs take the type of
-- floats and its operations as an instance argument; what a theorem needs of the arithmetic is a
-- named hypothesis. `Float/Decimals` is a concrete instance that meets the hypotheses.
pub mod Decimals
pub mod Laws
pub mod Lex
use polyserve.Base.{ℕ, List, String, Bool, not, ◌&&◌, if◌then◌else◌}

pub record Float (W : Type 0) : Type 0 where
  -- `a <= b`; false when one of them is NaN.
  pub le : W → W → Bool
  -- The literal n * 10^-k, and `float(n)` at k = 0.
  pub decimal : (n k : ℕ) → W
  -- `math.inf`, and `math.isfinite`.
  pub infinity : W
  pub is_finite : W → Bool
  pub neg : W → W
  pub add : W → W → W
  pub sub : W → W → W
  pub mul : W → W → W
  pub div : W → W → W
  -- `sum(xs)`.
  pub sum : List W → W
  -- `int(x)` and `math.ceil(x)` of a value that is not negative.
  pub trunc : W → ℕ
  pub ceil : W → ℕ
  -- `int(round(x))` of a value that is not negative.
  pub nearest : W → ℕ
  -- `round(x, 2)`.
  pub round2 : W → W
  -- f"{x:.0%}" and f"{x:+.1f}".
  pub percent : W → String
  pub signed : W → String
  -- f"{x:.{digits}f}".
  pub fixed : (digits : ℕ) → W → String

module _ {W : Type 0} ⦃f : Float W⦄ where
  abbrev pub nought : W
  nought = f.decimal 0 0

  abbrev pub from_ℕ : ℕ → W
  from_ℕ n = f.decimal n 0

  abbrev pub at_most : W → W → Bool
  at_most a b = f.le a b

  -- `a < b` and `a == b`.
  abbrev pub below : W → W → Bool
  below a b = f.le a b && not (f.le b a)

  abbrev pub same : W → W → Bool
  same a b = f.le a b && f.le b a

  -- `max(a, b)` and `min(a, b)`: the first of two equals.
  abbrev pub larger : W → W → W
  larger a b = if below a b then b else a

  abbrev pub smaller : W → W → W
  smaller a b = if below b a then b else a

  -- `abs(a)`.
  abbrev pub magnitude : W → W
  magnitude a = if below a nought then f.neg a else a
