-- ===== src/Power/Points/Valid.antt =====
-- Every setting of `candidate_points` is one that the card takes, and none comes twice.
use polyserve.Base.{
  ℕ, ◌≤◌, ◌<◌, ◌≡◌, refl, sym, subst, inl, inr, String, str_eq, true, false, not, ◌&&◌, ◌||◌, some,
  List, [], ◌∷◌, ◌++◌, ◌==◌, ltb, ltb→lt, Memᴰ, All, All-imp, All-append, any, head_or, Bool-cases,
  arith,
}
use mathlib.Core.Option.{some-injective}
use polyserve.Float.{Float, from_ℕ, smaller, larger}
use polyserve.Float.Laws.{IsOrdered, RoundsWithin}
use polyserve.Power.Settings.{PowerSetting, default_setting}
use polyserve.Power.Points.{
  Capabilities, or_else, same_setting, distinct, cap_to, clock_to, modes, nearer, snap, cap_at,
  cap_points, clock_points, caps_of, clocks_of, clocks_from, candidate_points,
}

-- The clock that the fractions are taken of.
abbrev pub top_clock : Capabilities → ℕ
top_clock caps = or_else caps.sm_clock_max_mhz (head_or 0 caps.sm_clocks_mhz)

-- The least and the greatest limit that the card takes, as the settings have them: 1 W and the default
-- limit where the card does not say.
abbrev pub least_limit : Capabilities → ℕ
least_limit caps = or_else caps.power_limit_min_w 1

abbrev pub most_limit : Capabilities → ℕ
most_limit caps = or_else caps.power_limit_max_w (or_else caps.power_limit_default_w 0)

-- A cap is one that the card takes, below its default; a clock is a supported one below the top.
pub data IsPoint (caps : Capabilities) : PowerSetting → Type 0 where
  unchanged : IsPoint caps default_setting
  capped :
      (w : ℕ)
      → least_limit caps ≤ w
      → w ≤ most_limit caps
      → w < or_else caps.power_limit_default_w 0
      → IsPoint caps (cap_to w)
  clocked :
      (mhz : ℕ) → Memᴰ mhz caps.sm_clocks_mhz → mhz < top_clock caps → IsPoint caps (clock_to mhz)

abbrev IsNew : List PowerSetting → PowerSetting → Type 0
IsNew seen p = any (same_setting p) seen ≡ false

-- No setting comes twice.
abbrev pub AreDistinct : List PowerSetting → Type 0
AreDistinct [] = Unit
AreDistinct (p ∷ ps) = All (λ q. same_setting q p ≡ false) ps × AreDistinct ps

distinct-IsNew : (seen ps : List PowerSetting) → All (IsNew seen) (distinct seen ps)
unfolding distinct
distinct-IsNew seen [] = tt
distinct-IsNew seen (p ∷ ps) = elim (Bool-cases (any (same_setting p) seen)) [
  | inl e ↦ rw (e, distinct) (distinct-IsNew seen ps)
  | inr e ↦
      rw (e, distinct)
        (e, All-imp _ (IsNew seen) (λ q h. ground arith) _ (distinct-IsNew (p ∷ seen) ps))
]

distinct-AreDistinct : (seen ps : List PowerSetting) → AreDistinct (distinct seen ps)
unfolding distinct
distinct-AreDistinct seen [] = tt
distinct-AreDistinct seen (p ∷ ps) = elim (Bool-cases (any (same_setting p) seen)) [
  | inl e ↦ rw (e, distinct) (distinct-AreDistinct seen ps)
  | inr e ↦
      rw (e, distinct)
        (
          All-imp _ (λ q. same_setting q p ≡ false) (λ q h. ground arith) _
              (distinct-IsNew (p ∷ seen) ps),
          distinct-AreDistinct (p ∷ seen) ps,
        )
]

All-distinct :
    (P : PowerSetting → Type 0) (seen ps : List PowerSetting) → All P ps → All P (distinct seen ps)
unfolding distinct
All-distinct P seen [] h = tt
All-distinct P seen (p ∷ ps) h = elim (Bool-cases (any (same_setting p) seen)) [
  | inl e ↦ rw (e, distinct) (All-distinct P seen ps h.1)
  | inr e ↦ rw (e, distinct) (h.0, All-distinct P (p ∷ seen) ps h.1)
]

All-self {ℓ} : {A : Type ℓ} (xs : List A) → All (λ x. Memᴰ x xs) xs
All-self [] = tt
All-self (x ∷ xs) =
    (Memᴰ.head refl, All-imp _ (λ y. Memᴰ y (x ∷ xs)) (λ y m. Memᴰ.tail m) xs (All-self xs))

head_distinct :
    (p : PowerSetting) (ps : List PowerSetting)
    → (rest : List PowerSetting) × (distinct [] (p ∷ ps) ≡ p ∷ rest)
unfolding distinct
head_distinct p ps = (distinct (p ∷ []) ps, refl)

module _ {W : Type 0} ⦃f : Float W⦄ where
  Memᴰ-snap :
      (target : W) (c : ℕ) (cs : List ℕ) (all : List ℕ)
      → Memᴰ c all
      → All (λ x. Memᴰ x all) cs
      → Memᴰ (snap target c cs) all
  unfolding snap
  Memᴰ-snap target c [] all m h = m
  Memᴰ-snap target c (x ∷ cs) all m h = elim (Bool-cases (nearer target x c)) [
    | inl e ↦ rw (e, snap) (Memᴰ-snap target x cs all h.0 h.1)
    | inr e ↦ rw (e, snap) (Memᴰ-snap target c cs all m h.1)
  ]

  -- A value that is clamped between two whole numbers is rounded to one between them.
  clamped-within :
      (o : IsOrdered W) (r : RoundsWithin W) (lo hi : ℕ) (y : W)
      → f.le (from_ℕ lo) (from_ℕ {W = W} hi) ≡ true
      → let x = smaller (from_ℕ hi) (larger (from_ℕ lo) y) in
        (lo ≤ f.nearest x) × (f.nearest x ≤ hi)
  clamped-within o r lo hi y h =
      r.within lo hi (smaller (from_ℕ hi) (larger (from_ℕ lo) y))
        (ground (arith, o.le_refl (from_ℕ lo), o.le_total (from_ℕ lo) y))
        (ground (arith, o.le_refl (from_ℕ hi)))

  module _ (o : IsOrdered W) (r : RoundsWithin W) (caps : Capabilities)
      (ranged : f.le (from_ℕ (least_limit caps)) (from_ℕ {W = W} (most_limit caps)) ≡ true) where
    cap_points-ArePoints :
        (xs : List W)
        → All (IsPoint caps) (cap_points caps (or_else caps.power_limit_default_w 0) xs)
    unfolding cap_points
    cap_points-ArePoints [] = tt
    cap_points-ArePoints (x ∷ xs) =
        elim (Bool-cases (
          ltb (cap_at caps (or_else caps.power_limit_default_w 0) x)
            (or_else caps.power_limit_default_w 0))) [
              | inl e ↦
                  rw (e, cap_points)
                    (
                      IsPoint.capped _ (clamped-within o r _ _ _ ranged).0
                          (clamped-within o r _ _ _ ranged).1 (ltb→lt _ _ e),
                      cap_points-ArePoints xs,
                    )
              | inr e ↦ rw (e, cap_points) (cap_points-ArePoints xs)
            ]

    clock_points-ArePoints :
        (top c : ℕ) (cs : List ℕ) (xs : List W)
        → top ≡ top_clock caps
        → Memᴰ c caps.sm_clocks_mhz
        → All (λ x. Memᴰ x caps.sm_clocks_mhz) cs
        → All (IsPoint caps) (clock_points top c cs xs)
    unfolding clock_points
    clock_points-ArePoints top c cs [] t m h = tt
    clock_points-ArePoints top c cs (x ∷ xs) t m h =
        elim (Bool-cases (ltb (snap (f.mul (from_ℕ top) x) c cs) top)) [
          | inl e ↦
              rw (e, clock_points)
                (
                  IsPoint.clocked _ (Memᴰ-snap _ c cs _ m h)
                      (subst (λ n. snap (f.mul (from_ℕ top) x) c cs < n) t (ltb→lt _ _ e)),
                  clock_points-ArePoints top c cs xs t m h,
                )
          | inr e ↦ rw (e, clock_points) (clock_points-ArePoints top c cs xs t m h)
        ]

    clocks_from-ArePoints :
        (xs : List W) (clocks : List ℕ)
        → caps.sm_clocks_mhz ≡ clocks
        → All (IsPoint caps) (clocks_from caps.sm_clock_max_mhz clocks xs)
    clocks_from-ArePoints xs [] e = tt
    clocks_from-ArePoints xs (c ∷ cs) e =
        let here : All (λ x. Memᴰ x caps.sm_clocks_mhz) (c ∷ cs) =
          subst (λ l. All (λ x. Memᴰ x l) (c ∷ cs)) (sym e) (All-self (c ∷ cs)) in
        clock_points-ArePoints _ c cs xs (rw e refl) here.0 here.1

    clocks_of-ArePoints :
        (mode : String) (xs : List W) → All (IsPoint caps) (clocks_of caps mode xs)
    clocks_of-ArePoints mode xs =
        elim (Bool-cases ((str_eq mode "clock" || str_eq mode "both") && caps.can_lock)) [
          | inl e ↦ rw e (clocks_from-ArePoints xs caps.sm_clocks_mhz refl)
          | inr e ↦ rw e tt
        ]

    caps_of-ArePoints : (mode : String) (xs : List W) → All (IsPoint caps) (caps_of caps mode xs)
    caps_of-ArePoints mode xs =
        elim (Bool-cases (
          (str_eq mode "cap" || str_eq mode "both")
          && (caps.can_cap && not (or_else caps.power_limit_default_w 0 == 0)))) [
            | inl e ↦ rw e (cap_points-ArePoints xs)
            | inr e ↦ rw e tt
          ]

    -- On a card whose least limit is at most its greatest, and in a known mode, the settings to measure
    -- start with the unchanged default; the others are caps from the least to the greatest limit and below
    -- the default one, and supported clocks below the top one; none comes twice.
    pub candidate_points-AreValid :
        (mode : String) (xs : List W) (points : List PowerSetting)
        → candidate_points caps mode xs ≡ some points
        → ((rest : List PowerSetting) × (points ≡ default_setting ∷ rest))
          × (All (IsPoint caps) points × AreDistinct points)
    unfolding candidate_points
    candidate_points-AreValid mode xs points h = elim (Bool-cases (any (str_eq mode) modes)) [
      | inl e ↦
          let all = default_setting ∷ (caps_of caps mode xs ++ clocks_of caps mode xs) in
          let same : distinct [] all ≡ points =
            some-injective _ _ (rw (e, candidate_points) at h) in
          let (rest, first) =
            head_distinct default_setting (caps_of caps mode xs ++ clocks_of caps mode xs) in
          subst
            (λ l.
              ((rest : List PowerSetting) × (l ≡ default_setting ∷ rest))
              × (All (IsPoint caps) l × AreDistinct l))
            same
            (
              (rest, first),
              (
                All-distinct (IsPoint caps) [] all (
                  IsPoint.unchanged,
                  All-append _ _ _ (caps_of-ArePoints mode xs) (clocks_of-ArePoints mode xs),
                ),
                distinct-AreDistinct [] all,
              ),
            )
      | inr e ↦ cc (rw (e, candidate_points) at h)
    ]
