-- ===== src/Base/Lists.antt =====
-- Lists measured and indexed by native numbers, predicates on all members, and filters by a test.
use Prim.Native.Nat.{ℕ, zero, suc, ◌+◌, ◌<◌}
use mathlib.Core.Path.{◌≡◌, refl, sym, ap, subst}
use mathlib.Core.Logic.{inl, inr, ◌≢◌}
use mathlib.Core.Bool.{Bool, true, false, ◌&&◌, ◌||◌}
use mathlib.Core.Option.{Option, none, some, some-injective}
use mathlib.Core.List.{List, [], ◌∷◌, ◌++◌, map, Memᴰ}
use native.Mathlib.Omega.{arith}
use polyserve.Base.Tests.{if◌then◌else◌, Bool-cases}

module _ {ℓ} {A : Type ℓ} where
  abbrev pub length : List A → ℕ
  length [] = 0
  length (x ∷ xs) = suc (length xs)

  abbrev pub get_elem? : List A → ℕ → Option A
  get_elem? [] i = none
  get_elem? (x ∷ xs) zero = some x
  get_elem? (x ∷ xs) (suc i) = get_elem? xs i

  -- A write out of bounds changes nothing.
  abbrev pub set : List A → ℕ → A → List A
  set [] i v = []
  set (x ∷ xs) zero v = v ∷ xs
  set (x ∷ xs) (suc i) v = x ∷ set xs i v

  abbrev pub take : ℕ → List A → List A
  take zero xs = []
  take (suc n) [] = []
  take (suc n) (x ∷ xs) = x ∷ take n xs

  abbrev pub drop : ℕ → List A → List A
  drop zero xs = xs
  drop (suc n) [] = []
  drop (suc n) (x ∷ xs) = drop n xs

  abbrev pub replicate : ℕ → A → List A
  replicate zero a = []
  replicate (suc n) a = a ∷ replicate n a

  -- `[x for x in xs if test(x)]`
  abbrev pub keep_if : (A → Bool) → List A → List A
  keep_if test [] = []
  keep_if test (x ∷ xs) = if test x then x ∷ keep_if test xs else keep_if test xs

  -- `any(test(x) for x in xs)` and `all(…)`
  abbrev pub any : (A → Bool) → List A → Bool
  any test [] = false
  any test (x ∷ xs) = test x || any test xs

  abbrev pub all : (A → Bool) → List A → Bool
  all test [] = true
  all test (x ∷ xs) = test x && all test xs

  -- `next((x for x in xs if test(x)), None)`
  abbrev pub find_first : (A → Bool) → List A → Option A
  find_first test [] = none
  find_first test (x ∷ xs) = if test x then some x else find_first test xs

  -- `xs or d`
  abbrev pub or_list : List A → List A → List A
  or_list [] d = d
  or_list (x ∷ xs) d = x ∷ xs

  abbrev pub head_or : A → List A → A
  head_or d [] = d
  head_or d (x ∷ xs) = x

  pub length-append : (xs ys : List A) → length (xs ++ ys) ≡ length xs + length ys
  length-append [] ys = omega arith
  length-append (x ∷ xs) ys = omega (arith, length-append xs ys)

  pub length-set : (xs : List A) (i : ℕ) (v : A) → length (set xs i v) ≡ length xs
  length-set [] i v = refl
  length-set (x ∷ xs) zero v = refl
  length-set (x ∷ xs) (suc i) v = omega (arith, length-set xs i v)

module _ {ℓ κ} {A : Type ℓ} where
  abbrev pub All : (A → Type κ) → List A → Type κ
  All P [] = Unit
  All P (x ∷ xs) = P x × All P xs

  pub All-append : (P : A → Type κ) (xs ys : List A) → All P xs → All P ys → All P (xs ++ ys)
  All-append P [] ys hx hy = hy
  All-append P (x ∷ xs) ys hx hy = (hx.0, All-append P xs ys hx.1 hy)

  pub All-keep_if :
      (P : A → Type κ) (test : A → Bool) (xs : List A) → All P xs → All P (keep_if test xs)
  All-keep_if P test [] h = tt
  All-keep_if P test (x ∷ xs) h = ground (arith, All-keep_if P test xs h.1)

  pub All-or_list : (P : A → Type κ) (xs ys : List A) → All P xs → All P ys → All P (or_list xs ys)
  All-or_list P [] ys hx hy = hy
  All-or_list P (x ∷ xs) ys hx hy = hx

  pub All-take : (P : A → Type κ) (n : ℕ) (xs : List A) → All P xs → All P (take n xs)
  All-take P zero xs h = tt
  All-take P (suc n) [] h = tt
  All-take P (suc n) (x ∷ xs) h = (h.0, All-take P n xs h.1)

-- Every kept member passes the test.
pub keep_if-passes {ℓ} :
    {A : Type ℓ} (test : A → Bool) (xs : List A) → All (λ x. test x ≡ true) (keep_if test xs)
keep_if-passes test [] = tt
keep_if-passes test (x ∷ xs) = ground (arith, keep_if-passes test xs)

module _ {ℓ} {A : Type ℓ} where
  pub Memᴰ-map {κ} :
      {B : Type κ} {a : A} (g : A → B) (xs : List A) → Memᴰ a xs → Memᴰ (g a) (map g xs)
  Memᴰ-map g [] m = elim m [ ]
  Memᴰ-map g (x ∷ xs) (Memᴰ.head p) = Memᴰ.head (ap g p)
  Memᴰ-map g (x ∷ xs) (Memᴰ.tail m) = Memᴰ.tail (Memᴰ-map g xs m)

  pub Memᴰ-keep_if :
      {a : A} (test : A → Bool) (xs : List A) → test a ≡ true → Memᴰ a xs → Memᴰ a (keep_if test xs)
  Memᴰ-keep_if test [] e m = elim m [ ]
  Memᴰ-keep_if test (x ∷ xs) e (Memᴰ.head p) =
      let hit : test x ≡ true = subst (λ y. test y ≡ true) p e in rw hit (Memᴰ.head p)
  Memᴰ-keep_if test (x ∷ xs) e (Memᴰ.tail m) = elim (Bool-cases (test x)) [
    | inl h ↦ rw h (Memᴰ.tail (Memᴰ-keep_if test xs e m))
    | inr h ↦ rw h (Memᴰ-keep_if test xs e m)
  ]

  pub All-of_Memᴰ {κ} : {a : A} (P : A → Type κ) (xs : List A) → All P xs → Memᴰ a xs → P a
  All-of_Memᴰ P [] h m = elim m [ ]
  All-of_Memᴰ P (x ∷ xs) h (Memᴰ.head p) = subst P (sym p) h.0
  All-of_Memᴰ P (x ∷ xs) h (Memᴰ.tail m) = All-of_Memᴰ P xs h.1 m

  pub All-imp {κ μ} :
      (P : A → Type κ) (Q : A → Type μ)
      → ((x : A) → P x → Q x)
      → (xs : List A) → All P xs
      → All Q xs
  All-imp P Q i [] h = tt
  All-imp P Q i (x ∷ xs) h = (i x h.0, All-imp P Q i xs h.1)

  pub All-both {κ μ ν} :
      (P : A → Type κ) (Q : A → Type μ) (R : A → Type ν)
      → ((x : A) → P x → Q x → R x)
      → (xs : List A) → All P xs
      → All Q xs
      → All R xs
  All-both P Q R i [] h k = tt
  All-both P Q R i (x ∷ xs) h k = (i x h.0 k.0, All-both P Q R i xs h.1 k.1)

  pub Memᴰ-append_left : {a : A} (xs ys : List A) → Memᴰ a xs → Memᴰ a (xs ++ ys)
  Memᴰ-append_left [] ys m = elim m [ ]
  Memᴰ-append_left (x ∷ xs) ys (Memᴰ.head p) = Memᴰ.head p
  Memᴰ-append_left (x ∷ xs) ys (Memᴰ.tail m) = Memᴰ.tail (Memᴰ-append_left xs ys m)

  pub Memᴰ-append_right : {a : A} (xs ys : List A) → Memᴰ a ys → Memᴰ a (xs ++ ys)
  Memᴰ-append_right [] ys m = m
  Memᴰ-append_right (x ∷ xs) ys m = Memᴰ.tail (Memᴰ-append_right xs ys m)

module _ {ℓ} {A : Type ℓ} where
  -- `xs[i] = g(xs[i])`; nothing changes out of range.
  abbrev pub modify : (A → A) → ℕ → List A → List A
  modify g i [] = []
  modify g zero (x ∷ xs) = g x ∷ xs
  modify g (suc i) (x ∷ xs) = x ∷ modify g i xs

  pub length-modify : (g : A → A) (i : ℕ) (xs : List A) → length (modify g i xs) ≡ length xs
  length-modify g zero [] = refl
  length-modify g (suc i) [] = refl
  length-modify g zero (x ∷ xs) = refl
  length-modify g (suc i) (x ∷ xs) = omega (arith, length-modify g i xs)

  pub get_elem?-modify_self :
      (g : A → A) (i : ℕ) (xs : List A) {x : A}
      → get_elem? xs i ≡ some x
      → get_elem? (modify g i xs) i ≡ some (g x)
  get_elem?-modify_self g zero [] e = cc
  get_elem?-modify_self g (suc i) [] e = cc
  get_elem?-modify_self g zero (y ∷ xs) e = cc
  get_elem?-modify_self g (suc i) (y ∷ xs) e = get_elem?-modify_self g i xs e

  pub get_elem?-modify_ne :
      (g : A → A) (i j : ℕ) (xs : List A) → i ≢ j → get_elem? (modify g i xs) j ≡ get_elem? xs j
  get_elem?-modify_ne g zero j [] h = refl
  get_elem?-modify_ne g (suc i) j [] h = refl
  get_elem?-modify_ne g zero zero (y ∷ xs) h = absurd (h refl)
  get_elem?-modify_ne g zero (suc j) (y ∷ xs) h = refl
  get_elem?-modify_ne g (suc i) zero (y ∷ xs) h = refl
  get_elem?-modify_ne g (suc i) (suc j) (y ∷ xs) h =
      get_elem?-modify_ne g i j xs (λ e. h (ap suc e))

  pub get_elem?-lt : (xs : List A) (i : ℕ) {x : A} → get_elem? xs i ≡ some x → i < length xs
  get_elem?-lt [] zero e = cc
  get_elem?-lt [] (suc i) e = cc
  get_elem?-lt (y ∷ xs) zero e = omega arith
  get_elem?-lt (y ∷ xs) (suc i) e = omega (arith, get_elem?-lt xs i e)

  pub get_elem?_total : (xs : List A) (i : ℕ) → i < length xs → (x : A) × (get_elem? xs i ≡ some x)
  get_elem?_total [] i h = absurd (omega arith)
  get_elem?_total (y ∷ xs) zero h = (y, refl)
  get_elem?_total (y ∷ xs) (suc i) h = get_elem?_total xs i (omega arith)

  pub All-get_elem? {κ} :
      (P : A → Type κ) (xs : List A) (i : ℕ) {x : A} → All P xs → get_elem? xs i ≡ some x → P x
  All-get_elem? P [] zero h e = cc
  All-get_elem? P [] (suc i) h e = cc
  All-get_elem? P (y ∷ xs) zero h e = subst P (some-injective _ _ e) h.0
  All-get_elem? P (y ∷ xs) (suc i) h e = All-get_elem? P xs i h.1 e

module _ {ℓ κ} {A : Type ℓ} {B : Type κ} where
  -- `[y for x in xs for y in f(x)]`
  unfoldable pub concat_map : (A → List B) → List A → List B
  concat_map f [] = []
  concat_map f (x ∷ xs) = f x ++ concat_map f xs

  module _ {μ} (P : B → Type μ) (f : A → List B) where
    pub All-concat_map : (xs : List A) → All (λ x. All P (f x)) xs → All P (concat_map f xs)
    unfolding concat_map
    All-concat_map [] h = tt
    All-concat_map (x ∷ xs) h = All-append P (f x) (concat_map f xs) h.0 (All-concat_map xs h.1)

pub All-of_members :
    {A : Type 0} (P : A → Type 0) (xs : List A) → ((a : A) → Memᴰ a xs → P a) → All P xs
All-of_members P [] h = tt
All-of_members P (x ∷ xs) h = (h x (Memᴰ.head refl), All-of_members P xs (λ a m. h a (Memᴰ.tail m)))

pub All-map :
    {A B : Type 0} (P : A → Type 0) (Q : B → Type 0) (g : A → B)
    → ((x : A) → P x → Q (g x))
    → (xs : List A) → All P xs
    → All Q (map g xs)
All-map P Q g i [] h = tt
All-map P Q g i (x ∷ xs) h = (i x h.0, All-map P Q g i xs h.1)
