-- ===== src/Layouts/Shapes.antt =====
-- About `tp_candidates` of polyserve/layout.py.
use polyserve.Base.{
  ℕ, ◌*◌, ◌≤◌, ◌≡◌, refl, inl, inr, Bool, true, false, Option, none, some, All, Bool-cases, arith,
  if◌then◌else◌, ltb,
}
use polyserve.Float.{Float, smaller, below, at_most}
use polyserve.Float.Laws.{IsOrdered}
use polyserve.Models.{Config}
use polyserve.Layouts.{tp_most, at_tp_most, covering, tp_candidates}

-- A prefill budget covers the batch.
abbrev pub CoversBatch : ℕ → Option ℕ → Type 0
CoversBatch batch none = Unit
CoversBatch batch (some budget) = batch ≤ budget

covering-CoversBatch : (batch : ℕ) (budget : Option ℕ) → CoversBatch batch (covering batch budget)
covering-CoversBatch batch none = tt
covering-CoversBatch batch (some b) = go (ltb b batch) refl
  where
    go : (e : Bool) → ltb b batch ≡ e → CoversBatch batch (if e then none else some b)
    go true e = tt
    go false e = ground arith

module _ {W : Type 0} ⦃f : Float W⦄ where
  abbrev AtMost : Option W → Type 0
  AtMost none = Unit
  AtMost (some gmu) = at_most gmu tp_most ≡ true

  abbrev pub Covers : Config W → Type 0
  Covers c = CoversBatch c.batch c.prefill_budget

  pub record IsShape (n : ℕ) (c : Config W) : Type 0 where
    pub sharded : c.tp ≡ n
    pub uncapped : (c.power_limit_w ≡ none) × (c.sm_clock_mhz ≡ none)
    pub roomy : AtMost c.gpu_memory_utilization
    pub covered : Covers c

  smaller-at_most : (o : IsOrdered W) (gmu : W) → at_most (smaller gmu tp_most) tp_most ≡ true
  smaller-at_most o gmu = elim (Bool-cases (below tp_most gmu)) [
    | inl e ↦ rw e (o.le_refl tp_most)
    | inr e ↦ rw e (elim (o.le_total gmu tp_most) [ inl h ↦ h | inr h ↦ ground arith ])
  ]

  at_tp_most-AtMost : (o : IsOrdered W) (gmu : Option W) → AtMost (at_tp_most gmu)
  at_tp_most-AtMost o none = tt
  at_tp_most-AtMost o (some gmu) = smaller-at_most o gmu

  -- Each shape of a configuration whose prefill budget, if it has one, covers its batch is sharded `n`
  -- ways, carries no power setting, reserves at most 90% of each card, and has no prefill budget that
  -- does not cover its batch.
  pub tp_candidates-AreShapes :
      (o : IsOrdered W) (cfg : Config W) (n : ℕ)
      → Covers cfg
      → All (IsShape n) (tp_candidates cfg n)
  unfolding tp_candidates
  tp_candidates-AreShapes o cfg n covered = (
    record {
      sharded = refl;
      uncapped = (refl, refl);
      roomy = at_tp_most-AtMost o cfg.gpu_memory_utilization;
      covered = covered;
    },
    (
      record {
        sharded = refl;
        uncapped = (refl, refl);
        roomy = at_tp_most-AtMost o cfg.gpu_memory_utilization;
        covered = covering-CoversBatch (cfg.batch * 2) cfg.prefill_budget;
      },
      tt,
    ),
  )
