-- ===== src/Objectives/Tests.antt =====
-- The ranking on four trials, and the theorems about it applied there.
use polyserve.Base.{◌≡◌, refl, true, false, [], ◌∷◌, map, Perm, keep_if, Memᴰ}
use polyserve.Float.{same, nought}
use polyserve.Float.Decimals.{Decimal, decimal_float, Decimal-IsOrdered, Decimal-RespectsSign}
use polyserve.Models.{ok, base_key}
use polyserve.Models.Samples.{trials, late_trial, prompt_trial, tied_trial, steady, level}
use polyserve.Objectives.Score.{
  balanced, default_constraints, levels, violation, enough_at, enough_level, Constraints, score,
}
use polyserve.Objectives.Rank.{Ranked, rank, before, ranked_at, best_level, joins, preferred}
use polyserve.Objectives.Members.{rank-perm}
use polyserve.Objectives.Feasible.{Leads, leader_meets_constraints}
use polyserve.Objectives.Ties.{FirstByTies, rank-FirstByTies}
use polyserve.Objectives.Enough.{enough-unbeaten}

abbrev cons : Constraints Decimal
cons = default_constraints

-- What evaluation of `rank` unfolds.
program : Unit {0}
unfolding rank best_level before base_key ok levels violation score joins preferred
program = tt

rank-trials :
    map (λ x. x.result) (rank trials balanced cons) ≡ prompt_trial ∷ tied_trial ∷ late_trial ∷ []
unfolding program
rank-trials = refl

-- The winner runs at its level with 4 users, where its time to first token is under the ceiling.
leader_level : map (λ x. x.metrics.concurrency) (rank trials balanced cons) ≡ 4 ∷ 4 ∷ 16 ∷ []
unfolding program
leader_level = refl

rank-perm_example : Perm (map (λ x. x.result) (rank trials balanced cons)) (keep_if ok trials)
rank-perm_example = rank-perm trials balanced cons

leader_meets_constraints_example :
    (w : Ranked Decimal) × Leads trials balanced cons w
    × (same (violation balanced cons (keep_if ok trials) w.metrics) nought ≡ true)
unfolding ok levels violation
leader_meets_constraints_example =
    leader_meets_constraints Decimal-IsOrdered trials balanced cons prompt_trial steady
      (Memᴰ.tail (Memᴰ.tail (Memᴰ.tail (Memᴰ.head refl)))) refl (Memᴰ.tail (Memᴰ.head refl)) refl

rank-FirstByTies_example :
    (lead : Ranked Decimal) × FirstByTies cons lead
      (best_level balanced cons (keep_if ok trials) prompt_trial)
      (rank trials balanced cons)
unfolding program
rank-FirstByTies_example = rank-FirstByTies Decimal-IsOrdered trials balanced cons _ _ refl

enough-unbeaten_example :
    before
      (ranked_at balanced cons trials prompt_trial (level 450 200 1))
      (ranked_at balanced cons trials prompt_trial steady)
    ≡ false
unfolding enough_level
enough-unbeaten_example =
    enough-unbeaten Decimal-IsOrdered Decimal-RespectsSign cons trials steady
      (enough_at balanced cons) balanced prompt_trial (level 450 200 1) refl refl refl
