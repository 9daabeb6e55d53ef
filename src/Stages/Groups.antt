-- ===== src/Stages/Groups.antt =====
-- polyserve/calibrate/search.py: the groups of configurations by engine and precision, and the
-- medians of a group.
use polyserve.Base.{
  ℕ, ◌+◌, ◌-◌, ◌/◌, String, Bool, true, false, ◌&&◌, ◌||◌, Option, none, some, List, [], ◌∷◌, ◌++◌,
  if◌then◌else◌, str_eq, ltb, ◌==◌, length, get_elem?, get_or_default, any,
}
use polyserve.Base.Sort.{sort}
use polyserve.Models.{Config}
use polyserve.Objectives.Score.{Objective, throughput, balanced}

abbrev pub Group : Type 0
Group = String × String

abbrev pub same_group : Group → Group → Bool
same_group a b = str_eq a.0 b.0 && str_eq a.1 b.1

abbrev pub group_of : {W : Type 0} → Config W → Group
group_of c = (c.backend, c.quant)

-- `sorted(set(xs))`.
abbrev pub distinct_ℕ : List ℕ → List ℕ
distinct_ℕ [] = []
distinct_ℕ (x ∷ xs) = let rest = distinct_ℕ xs in if any (λ y. x == y) rest then rest else x ∷ rest

abbrev pub middle_of : List ℕ → ℕ
middle_of xs =
    let ordered = sort ltb (distinct_ℕ xs) in
    get_or_default 0 (get_elem? ordered (length ordered / 2))

abbrev pub gap : ℕ → ℕ → ℕ
gap a b = (a - b) + (b - a)

-- `min(xs, key=lambda b: (abs(b - batch), b))`: `best` is the nearest so far.
abbrev pub nearest_to : ℕ → ℕ → List ℕ → ℕ
nearest_to batch best [] = best
nearest_to batch best (b ∷ bs) =
    nearest_to batch
      (if ltb (gap b batch) (gap best batch) || (gap b batch == gap best batch && ltb b best)
        then b
        else best)
      bs

-- `groups.setdefault(key, []).append(c)`.
unfoldable pub add_to {ℓ} : {A : Type ℓ} → Group → A → List (Group × List A) → List (Group × List A)
add_to k a [] = (k, a ∷ []) ∷ []
add_to k a ((j, xs) ∷ groups) =
    if same_group j k then (j, xs ++ a ∷ []) ∷ groups else (j, xs) ∷ add_to k a groups

unfoldable pub grouped_from :
    {W : Type 0} → List (Group × List (Config W)) → List (Config W) → List (Group × List (Config W))
grouped_from groups [] = groups
grouped_from groups (c ∷ cs) = grouped_from (add_to (group_of c) c groups) cs

-- `xs[0]`, if there is one.
abbrev pub head_of {ℓ} : {A : Type ℓ} → List A → Option A
head_of [] = none
head_of (c ∷ cs) = some c

abbrev pub speed_matters : Objective → Bool
speed_matters throughput = true
speed_matters balanced = true
speed_matters _ = false
