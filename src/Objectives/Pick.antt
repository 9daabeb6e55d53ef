-- ===== src/Objectives/Pick.antt =====
-- polyserve/calibrate/objectives.py: `pick`. A text that formats an absent time to first token raises
-- TypeError in Python; that outcome is `none`.
use polyserve.Base.{
  String, Option, none, some, List, [], ◌∷◌, ◌++◌, if◌then◌else◌, is_some, ◌<>◌, show_ℕ,
}
use polyserve.Float.{Float, same, nought}
use polyserve.Models.{LevelMetrics, TrialResult}
use polyserve.Objectives.Score.{Objective, throughput, latency, balanced, efficiency, Constraints}
use polyserve.Objectives.Rank.{Ranked, rank}

abbrev pub objective_name : Objective → String
objective_name throughput = "throughput"
objective_name latency = "latency"
objective_name balanced = "balanced"
objective_name efficiency = "efficiency"

module _ {W : Type 0} ⦃f : Float W⦄ where
  abbrev pub relaxed_note : Objective → Ranked W → List String
  relaxed_note o top =
      if top.feasible
      then []
      else ("no config satisfied the "
          <> objective_name o
          <> " constraint; picked the least-violating one (violation "
          <> f.fixed 1 top.violation
          <> ")")
        ∷ []

  abbrev pub energy_note : Objective → Ranked W → List String
  energy_note efficiency top =
      if is_some top.metrics.joules_per_token
      then []
      else "no energy telemetry available; efficiency objective fell back to tok/s ordering" ∷ []
  energy_note _ top = []

  abbrev pub level_note : LevelMetrics W → W → String
  level_note m ttft =
      "winner scored at concurrency "
      <> show_ℕ m.concurrency
      <> ": "
      <> f.fixed 1 m.tok_s
      <> " tok/s, TTFT "
      <> f.fixed 0 ttft
      <> " ms"
      <> (elim m.ttft_p95_ms [ none ↦ "" | some t ↦ " (p95 " <> f.fixed 0 t <> ")" ])
      <> (elim m.joules_per_token [
        | none ↦ ""
        | some j ↦ if same j nought then "" else ", " <> f.fixed 3 j <> " J/tok"
      ])

  unfoldable pub pick :
      List (TrialResult W)
      → Objective
      → Constraints W
      → Option (Option (TrialResult W) × List String)
  unfolding show_ℕ
  pick results o cons = elim (rank results o cons) [
    | [] ↦ some (none, "no successful trials" ∷ [])
    | top ∷ rest ↦ elim top.metrics.ttft_ms [
      | none ↦ none
      | some t ↦ some (
        some top.result,
        relaxed_note o top ++ (energy_note o top ++ level_note top.metrics t ∷ []),
      )
    ]
  ]

  -- The trial that `pick` returns.
  unfoldable pub leader : List (TrialResult W) → Objective → Constraints W → Option (TrialResult W)
  leader results o cons = elim (rank results o cons) [ [] ↦ none | top ∷ rest ↦ some top.result ]
