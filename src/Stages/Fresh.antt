-- ===== src/Stages/Fresh.antt =====
-- Trials that a search of polyserve/calibrate/search.py has on record, and those put on record since a
-- given state.
use polyserve.Base.{ℕ, sym, ◌≡◌, ◌++◌, subst, List, All, Memᴰ, All-imp}
use polyserve.Float.{Float}
use polyserve.Models.{Config, TrialResult}
use polyserve.Search.{Search}
use polyserve.Stages.Triples.{IsFine}
use polyserve.Base.{Memᴰ-append_left, Memᴰ-append_right}
use polyserve.Stages.Triples.{Extends, Appends-trans, grows}

module _ {W X : Type 0} ⦃f : Float W⦄ (n : ℕ) (feasible : List (Config W)) where
  -- A fine trial that is on record.
  abbrev pub On : Search W X → TrialResult W → Type 0
  On t r = IsFine n feasible r × Memᴰ r t.results

  pub On-later :
      (s t : Search W X)
      → Extends n feasible s t
      → (rs : List (TrialResult W)) → All (On s) rs
      → All (On t) rs
  On-later s t e rs = All-imp (On s) (On t) (λ r q. (q.0, grows n feasible s t e.appends r q.1)) rs

  -- A fine trial that was put on record between `b` and `t`.
  abbrev pub Fresh : Search W X → Search W X → TrialResult W → Type 0
  Fresh b t r =
      IsFine n feasible r
      × (added : List (TrialResult W)) × (t.results ≡ b.results ++ added)
      × Memᴰ r added

  pub Fresh-On : (b t : Search W X) (r : TrialResult W) → Fresh b t r → On t r
  Fresh-On b t r (fine, added, e, m) =
      (fine, subst (Memᴰ r) (sym e) (Memᴰ-append_right b.results added m))

  pub Fresh-later :
      (b s t : Search W X)
      → Extends n feasible s t
      → (rs : List (TrialResult W)) → All (Fresh b s) rs
      → All (Fresh b t) rs
  Fresh-later b s t e rs =
      All-imp (Fresh b s) (Fresh b t)
        (λ r q.
          let (fine, added, g, m) = q in
          let (more, g') = Appends-trans n feasible b s t (added, g) e.appends in
          (fine, added ++ e.appends.0, g', Memᴰ-append_left added e.appends.0 m))
        rs

  abbrev pub RunsOn : Search W X → Search W X → List (Config W × List (TrialResult W)) → Type 0
  RunsOn b t runs = All (λ cr. All (Fresh b t) cr.1) runs
