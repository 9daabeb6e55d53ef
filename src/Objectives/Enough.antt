-- ===== src/Objectives/Enough.antt =====
-- Measuring levels highest first: `enough_level` stops only at a level that meets every constraint.
use polyserve.Base.{
  ◌≡◌, refl, sym, subst, inl, inr, Bool, true, false, not, ◌||◌, Option, none, some, List, [],
  if◌then◌else◌, arith, Bool-cases,
}
use mathlib.Core.Option.{some-injective}
use polyserve.Float.{Float, same, below, larger, nought, at_most}
use polyserve.Float.Laws.{IsOrdered, RespectsSign}
use polyserve.Models.{LevelMetrics, TrialResult, level_ok}
use polyserve.Objectives.Score.{
  Objective, throughput, latency, balanced, efficiency, Constraints, phase_violation, violation,
  enough_at, score, enough_level, finite_or,
}
use polyserve.Objectives.Rank.{before, ranked_at}

module _ {W : Type 0} ⦃f : Float W⦄ (order : IsOrdered W) (exact : RespectsSign W) where
  -- `max(0.0, x)` that is not positive is 0.0 itself.
  larger-nought : (x : W) → below nought (larger nought x) ≡ false → larger nought x ≡ nought
  larger-nought x h = elim (Bool-cases (below nought x)) [
    | inl e ↦ ground arith
    | inr e ↦ ground arith
  ]

  larger_sub : (a b : W) → f.le a b ≡ true → larger nought (f.sub a b) ≡ nought
  larger_sub a b h = ground (arith, exact.sub_nonpos a b h)

  abbrev within : Option W → W → Bool
  within none tpot = true
  within (some ceiling) tpot = at_most tpot ceiling

  -- No violation of the phase's constraint, and a decode time within its ceiling, add up to none.
  sum_violation :
      (t : Option W) (phase tpot : W)
      → phase ≡ nought
      → within t tpot ≡ true
      → same
          (elim t as (λ _. W) [
            | none ↦ phase
            | some ceiling ↦ f.add phase (larger nought (f.sub tpot ceiling))
          ])
          nought
        ≡ true
  sum_violation none phase tpot e h = rw e (ground (arith, order.le_refl nought))
  sum_violation (some c) phase tpot e h = rw (e, larger_sub tpot c h) exact.add_nought

  open_tests :
      (valid broken : Bool) (t : Option W) (tpot : W)
      → (if not valid || broken
          then false
          else elim t as (λ _. Bool) [ none ↦ true | some ceiling ↦ at_most tpot ceiling ])
        ≡ true
      → (valid ≡ true) × (broken ≡ false) × (within t tpot ≡ true)
  open_tests valid broken none tpot h = ground arith
  open_tests valid broken (some c) tpot h = ground arith

  enough_at-facts :
      (o : Objective) (cons : Constraints W) (m : LevelMetrics W)
      → enough_at o cons m ≡ true
      → (level_ok m ≡ true)
        × (below nought (phase_violation o cons [] m) ≡ false)
        × (within cons.tpot_ceiling_ms (finite_or nought m.tpot_ms) ≡ true)
  unfolding enough_at
  enough_at-facts o cons m h =
      open_tests (level_ok m) (below nought (phase_violation o cons [] m)) cons.tpot_ceiling_ms
        (finite_or nought m.tpot_ms) h

  enough_at_no_violation :
      (o : Objective) (cons : Constraints W) (results : List (TrialResult W)) (m : LevelMetrics W)
      → phase_violation o cons results m ≡ nought
      → enough_at o cons m ≡ true
      → (level_ok m ≡ true) × (same (violation o cons results m) nought ≡ true)
  unfolding violation
  enough_at_no_violation o cons results m e h =
      let (valid, _, decode) = enough_at-facts o cons m h in
      (valid, sum_violation cons.tpot_ceiling_ms _ (finite_or nought m.tpot_ms) e decode)

  module _ (cons : Constraints W) (results : List (TrialResult W)) (m : LevelMetrics W)
      (e : LevelMetrics W → Bool) where
    -- A level that is enough is a valid measurement and violates no constraint.
    enough-no_violation :
        (o : Objective)
        → enough_level o cons ≡ some e
        → e m ≡ true
        → (level_ok m ≡ true) × (same (violation o cons results m) nought ≡ true)
    unfolding enough_level
    enough-no_violation throughput h k =
        enough_at_no_violation throughput cons results m (unfold phase_violation in refl)
          (subst (λ g. g m ≡ true) (sym (some-injective _ _ h)) k)
    enough-no_violation balanced h k =
        let here = subst (λ g. g m ≡ true) (sym (some-injective _ _ h)) k in
        enough_at_no_violation balanced cons results m
          (unfold phase_violation in larger-nought _ (enough_at-facts balanced cons m here).1) here
    enough-no_violation latency h k = cc
    enough-no_violation efficiency h k = cc

    -- And no other level of the trial with at most its throughput comes before it in the sort.
    pub enough-unbeaten :
        (o : Objective) (r : TrialResult W) (n : LevelMetrics W)
        → enough_level o cons ≡ some e
        → e m ≡ true
        → f.le n.tok_s m.tok_s ≡ true
        → before (ranked_at o cons results r n) (ranked_at o cons results r m) ≡ false
    unfolding before ranked_at score enough_level
    enough-unbeaten throughput r n h k slower =
        ground
          (arith, (enough-no_violation throughput h k).1, exact.neg_antitone n.tok_s m.tok_s slower)
    enough-unbeaten balanced r n h k slower =
        ground
          (arith, (enough-no_violation balanced h k).1, exact.neg_antitone n.tok_s m.tok_s slower)
    enough-unbeaten latency r n h k slower = cc
    enough-unbeaten efficiency r n h k slower = cc
