-- ===== src/Search/Memo.antt =====
-- What `_run` remembers: each key is measured once, and each measurement is on record once.
use polyserve.Base.{
  ℕ, zero, suc, String, ◌≡◌, sym, ◌∙◌, ap, subst, none, some, [], ◌∷◌, ◌++◌, map, arith,
}
use polyserve.Float.{Float}
use polyserve.Models.{Config, TrialResult, key, lookup}
use polyserve.Search.Ran.{Ran, run-Ran, opened}
use polyserve.Search.{Env, Settings, Search, over_budget, measure, recorded, run}
use polyserve.Search.Keys.{AreKeys, AreKeys-append, map-append}

module _ {W X : Type 0} ⦃f : Float W⦄ (env : Env W X) (opts : Settings W) where
  -- The measurements on record are those remembered, in their order, under distinct keys.
  pub record IsConsistent (s : Search W X) : Type 0 where
    pub on_record : s.results ≡ map (λ e. e.1) s.done
    pub distinct : AreKeys s.done

  -- A look at the clock.
  pub over_budget-same :
      (s : Search W X)
      → ((over_budget env opts s).1.results ≡ s.results)
        × ((over_budget env opts s).1.done ≡ s.done)
  unfolding over_budget
  over_budget-same s = ground arith

  pub over_budget-IsConsistent :
      (s : Search W X) → IsConsistent s → IsConsistent (over_budget env opts s).1
  over_budget-IsConsistent s c =
      let (r, d) = over_budget-same s in
      record {
        on_record = r ∙ (c.on_record ∙ ap (map (λ e. e.1)) (sym d));
        distinct = subst AreKeys (sym d) c.distinct;
      }

  -- A trial that is measured and put on record.
  pub unseen :
      (cfg : Config W) (s : Search W X)
      → lookup (key cfg) s.done ≡ none
      → lookup (key cfg) (over_budget env opts s).1.done ≡ none
  unseen cfg s e = ap (lookup (key cfg)) (over_budget-same s).1 ∙ e

  pub measure-IsConsistent :
      (cfg : Config W) (stage : String) (s : Search W X)
      → lookup (key cfg) s.done ≡ none
      → IsConsistent s
      → IsConsistent (recorded (measure env opts cfg stage s).0 (measure env opts cfg stage s).1)
  unfolding measure
  measure-IsConsistent cfg stage s e c = record {
    on_record =
        ap (λ l. l ++ (measure env opts cfg stage s).0 ∷ []) c.on_record
        ∙ sym (map-append (λ e. e.1) s.done _);
    distinct = AreKeys-append (key cfg) _ s.done e c.distinct;
  }

  Ran-IsConsistent :
      (fuel : ℕ) (cfg : Config W) (stage : String) (s t : Search W X) (r : TrialResult W)
      → ((retry : Config W) (u : Search W X)
          → run env opts fuel retry stage u ≡ some (r, t)
          → IsConsistent u
          → IsConsistent t)
      → Ran env opts fuel cfg stage s r t
      → IsConsistent s
      → IsConsistent t
  Ran-IsConsistent fuel cfg stage s t r again (Ran.known res e) c = c
  Ran-IsConsistent fuel cfg stage s t r again (Ran.skips e over) c =
      let o = over_budget-IsConsistent s c in
      record { on_record = o.on_record; distinct = o.distinct }
  Ran-IsConsistent fuel cfg stage s t r again (Ran.finishes e under stays) c =
      measure-IsConsistent cfg stage (opened env opts fuel cfg stage s) (unseen cfg s e)
        (over_budget-IsConsistent s c)
  Ran-IsConsistent fuel cfg stage s t r again (Ran.retries retry r' t' e under goes h) c =
      let m =
        measure-IsConsistent cfg stage (opened env opts fuel cfg stage s) (unseen cfg s e)
          (over_budget-IsConsistent s c) in
      again retry _ h (record { on_record = m.on_record; distinct = m.distinct })

  -- Every run leaves each measurement on record exactly once, in the order of measuring, and never
  -- measures two configurations of the same key.
  pub run-IsConsistent :
      (fuel : ℕ) (cfg : Config W) (stage : String) (s t : Search W X) (r : TrialResult W)
      → run env opts fuel cfg stage s ≡ some (r, t)
      → IsConsistent s
      → IsConsistent t
  unfolding run
  run-IsConsistent zero cfg stage s t r h c = cc
  run-IsConsistent (suc fuel) cfg stage s t r h c =
      Ran-IsConsistent fuel cfg stage s t r (λ retry u. run-IsConsistent fuel retry stage u t r)
        (run-Ran env opts fuel cfg stage s r t h) c
