-- ===== src/Float/Decimals.antt =====
-- A concrete instance of the float operations that meets the laws: decimals with three places, and
-- two infinities. It serves to run the programs on inputs; it is not a model of IEEE rounding.
use polyserve.Base.{
  suc, String, ◌<>◌, ◌-◌, ◌%◌, ◌==◌, if◌then◌else◌, ℕ, List, [], ◌∷◌, ◌+◌, ◌*◌, ◌/◌, ◌^◌, Bool,
  true, false, leb, show_ℕ, refl, ◌≡◌, arith, ◌⊎◌, ◌≤◌,
}
use polyserve.Base.Int.{ℤ, pos, negsuc, pos_part, neg_part, sub_ℕ}
use polyserve.Float.{Float}
use polyserve.Float.Laws.{IsOrdered, RespectsSign, RoundsWithin}

-- `finite z` is z / 1000.
pub data Decimal : Type 0 where
  minus_infinity plus_infinity : Decimal
  finite : ℤ → Decimal

abbrev int_leb : ℤ → ℤ → Bool
int_leb a b = leb (pos_part a + neg_part b) (pos_part b + neg_part a)

abbrev decimal_le : Decimal → Decimal → Bool
decimal_le minus_infinity b = true
decimal_le (finite a) minus_infinity = false
decimal_le (finite a) (finite b) = int_leb a b
decimal_le (finite a) plus_infinity = true
decimal_le plus_infinity plus_infinity = true
decimal_le plus_infinity _ = false

abbrev decimal_is_finite : Decimal → Bool
decimal_is_finite (finite a) = true
decimal_is_finite _ = false

abbrev decimal_neg : Decimal → Decimal
decimal_neg minus_infinity = plus_infinity
decimal_neg plus_infinity = minus_infinity
decimal_neg (finite a) = finite (sub_ℕ (neg_part a) (pos_part a))

abbrev decimal_add : Decimal → Decimal → Decimal
decimal_add (finite a) (finite b) =
    finite (sub_ℕ (pos_part a + pos_part b) (neg_part a + neg_part b))
decimal_add (finite a) b = b
decimal_add a _ = a

abbrev decimal_sub : Decimal → Decimal → Decimal
decimal_sub (finite a) (finite b) =
    finite (sub_ℕ (pos_part a + neg_part b) (neg_part a + pos_part b))
decimal_sub (finite a) b = decimal_neg b
decimal_sub minus_infinity _ = minus_infinity
decimal_sub plus_infinity plus_infinity = finite (pos 0)
decimal_sub plus_infinity _ = plus_infinity

abbrev decimal_mul : Decimal → Decimal → Decimal
decimal_mul (finite a) (finite b) = finite (
    sub_ℕ ((pos_part a * pos_part b + neg_part a * neg_part b) / 1000)
      ((pos_part a * neg_part b + neg_part a * pos_part b) / 1000))
decimal_mul (finite a) b = b
decimal_mul a _ = a

abbrev decimal_div : Decimal → Decimal → Decimal
decimal_div (finite a) (finite b) = finite (
    sub_ℕ (pos_part a * 1000 / (pos_part b + neg_part b))
      (neg_part a * 1000 / (pos_part b + neg_part b)))
decimal_div a _ = a

abbrev whole_part : Decimal → ℕ
whole_part (finite a) = pos_part a / 1000
whole_part _ = 0

abbrev decimal_sum : List Decimal → Decimal
decimal_sum [] = finite (pos 0)
decimal_sum (x ∷ xs) = decimal_add x (decimal_sum xs)

-- The thousandths as a text with `digits` places, at most 3, rounded half up.
abbrev after_first : String → String
after_first String.[] = ""
after_first (String.◌∷◌ c s) = s

abbrev show_thousandths : ℕ → ℕ → String
show_thousandths digits n =
    let q = (n + 10 ^ (3 - digits) / 2) / 10 ^ (3 - digits) in
    if digits == 0
    then show_ℕ q
    else show_ℕ (q / 10 ^ digits) <> "." <> after_first (show_ℕ (10 ^ digits + q % 10 ^ digits))

abbrev decimal_fixed : ℕ → Decimal → String
decimal_fixed digits minus_infinity = "-inf"
decimal_fixed digits plus_infinity = "inf"
decimal_fixed digits (finite (pos n)) = show_thousandths digits n
decimal_fixed digits (finite (negsuc n)) = "-" <> show_thousandths digits (suc n)

abbrev decimal_nearest : Decimal → ℕ
decimal_nearest (finite a) = (pos_part a + 500) / 1000
decimal_nearest _ = 0

instance abbrev pub decimal_float : Float Decimal
decimal_float = record {
  le = decimal_le;
  decimal = λ n k. finite (pos (n * 1000 / 10 ^ k));
  infinity = plus_infinity;
  is_finite = decimal_is_finite;
  neg = decimal_neg;
  add = decimal_add;
  sub = decimal_sub;
  mul = decimal_mul;
  div = decimal_div;
  sum = decimal_sum;
  trunc = whole_part;
  ceil = λ x. elim x [ finite a ↦ (pos_part a + 999) / 1000 | _ ↦ 0 ];
  nearest = decimal_nearest;
  round2 = λ x. elim x [
    | finite a ↦ finite (sub_ℕ ((pos_part a + 5) / 10 * 10) ((neg_part a + 5) / 10 * 10))
    | other ↦ other
  ];
  percent = λ x. decimal_fixed 0 (decimal_mul (finite (pos 100000)) x) <> "%";
  signed =
      λ x. if decimal_le (finite (pos 0)) x then "+" <> decimal_fixed 1 x else decimal_fixed 1 x;
  fixed = decimal_fixed;
}

decimal_le_refl : (x : Decimal) → decimal_le x x ≡ true
decimal_le_refl x = ground arith

decimal_le_trans :
    (x y z : Decimal) → decimal_le x y ≡ true → decimal_le y z ≡ true → decimal_le x z ≡ true
decimal_le_trans x y z h k = ground arith

decimal_le_total : (x y : Decimal) → (decimal_le x y ≡ true) ⊎ (decimal_le y x ≡ true)
decimal_le_total x y = ground arith

pub Decimal-IsOrdered : IsOrdered Decimal
Decimal-IsOrdered = record {
  le_refl = decimal_le_refl;
  le_trans = decimal_le_trans;
  le_total = decimal_le_total;
}

decimal_within :
    (n m : ℕ) (x : Decimal)
    → decimal_le (finite (pos (n * 1000 / 10 ^ 0))) x ≡ true
    → decimal_le x (finite (pos (m * 1000 / 10 ^ 0))) ≡ true
    → (n ≤ decimal_nearest x) × (decimal_nearest x ≤ m)
decimal_within n m minus_infinity h k = cc
decimal_within n m plus_infinity h k = cc
decimal_within n m (finite a) h k = ground arith

pub Decimal-RoundsWithin : RoundsWithin Decimal
Decimal-RoundsWithin = record { within = decimal_within }

pub Decimal-RespectsSign : RespectsSign Decimal
Decimal-RespectsSign = record {
  sub_nonpos = λ a b h. ground arith;
  add_nought = refl;
  neg_antitone = λ a b h. ground arith;
}
