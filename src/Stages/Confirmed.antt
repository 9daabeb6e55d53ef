-- ===== src/Stages/Confirmed.antt =====
-- About `_remeasure` and `stage_confirm` of polyserve/calibrate/search.py.
use polyserve.Base.{
  All-map, ℕ, zero, suc, refl, sym, ap, ◌≡◌, ◌++◌, true, subst, inl, inr, Option, none, some, List,
  [], ◌∷◌, All, All-append, Memᴰ, All-imp, Bool-cases, map, all, str_eq,
}
use polyserve.Float.{Float}
use polyserve.Models.{Config, TrialResult, ok, key}
use polyserve.Search.{Env, Settings, Search}
use polyserve.Stages.{Strategy, pure}
use polyserve.Stages.Triples.{
  IsSound, IsFine, Holds, Ensures, pure-Ensures, modify-Ensures, get-Ensures, bind-Ensures,
}
use polyserve.Stages.Given.{IsRunner}
use polyserve.Stages.Start.{AllSome, AllSome-of}
use polyserve.Base.{get_elem?, length, ◌/◌, All-get_elem?, Memᴰ-append_left, Memᴰ-append_right, max}
use polyserve.Objectives.Rank.{Ranked}
use polyserve.Search.{over_budget, with_skip}
use polyserve.Search.Memo.{over_budget-same}
use polyserve.Stages.Triples.{every, Extends, Extends-trans, Appends, Appends-same, Appends-trans}
use polyserve.Stages.Picks.{pick_of-Ensures}
use polyserve.Stages.Sound.{over_budget-Holds}
use polyserve.Stages.Fine.{rank-All}
use polyserve.Stages.Confirm.{
  shortlist, add_run, fresh_trial, remeasure, one_round, rounds, median_run, representative,
  representatives, confirmed, confirm_list, stage_confirm,
}
use polyserve.Stages.Fresh.{Fresh, Fresh-later, RunsOn}
use polyserve.Stages.Shortlist.{shortlist-All}

cons_some :
    {A : Type 0} (P : A → Type 0) (o : Option A) (xs : List A)
    → AllSome P o
    → All P xs
    → All P (elim o [ none ↦ xs | some a ↦ a ∷ xs ])
cons_some P none xs q h = h
cons_some P (some a) xs q h = (q, h)

module _ {W X : Type 0} ⦃f : Float W⦄ (env : Env W X) (opts : Settings W) (n : ℕ)
    (feasible : List (Config W)) (runner : IsRunner n feasible env) (st : Strategy W X)
    (b : Search W X) where
  remeasure-Ensures :
      (c : Config W) (s : Search W X)
      → IsSound n feasible c
      → Holds n feasible s
      → Appends n feasible b s
      → Ensures n feasible
          (remeasure st env opts (suc n) c)
          s
          (λ o t. AllSome (Fresh n feasible b t) o)
  unfolding remeasure fresh_trial
  remeasure-Ensures c s sound h since = elim (Bool-cases (over_budget env opts s).0) [
    | inl over ↦
        let kept = over_budget-Holds env opts n feasible runner s h in
        record {
          value = none;
          after = with_skip c "confirm" (over_budget env opts s).1;
          runs = rw (over, remeasure) refl;
          extends = record {
            holds = record { fine = kept.fine; memo = kept.memo };
            appends =
                Appends-same n feasible s (with_skip c "confirm" (over_budget env opts s).1)
                  (over_budget-same env opts s).0;
          };
          result = tt;
        }
    | inr under ↦
        let o = (over_budget env opts s).1 in
        let kept = over_budget-Holds env opts n feasible runner s h in
        let p = fresh_trial st env opts (suc n) c o in
        let x = (env.now o.world).1 in
        let fine : IsFine n feasible p.0 = (
          subst (IsSound n feasible) (sym (runner.given c "confirm" x)) sound,
          runner.timed c "confirm" x,
        ) in
        let one_more : Appends n feasible s p.1 =
          (p.0 ∷ [], ap (λ l. l ++ p.0 ∷ []) (over_budget-same env opts s).0) in
        record {
          value = some p.0;
          after = p.1;
          runs = rw (under, remeasure) refl;
          extends = record {
            holds = record {
              fine = All-append (IsFine n feasible) o.results (p.0 ∷ []) kept.fine (fine, tt);
              memo = λ k r e. Memᴰ-append_left _ _ (kept.memo k r e);
            };
            appends = one_more;
          };
          result =
              let (all, e) = Appends-trans n feasible b s p.1 since one_more in
              (fine, all, e, Memᴰ-append_right since.0 (p.0 ∷ []) (Memᴰ.head refl));
        }
  ]

  add_run-On :
      (t : Search W X) (c : Config W) (r : TrialResult W)
      (runs : List (Config W × List (TrialResult W)))
      → Fresh n feasible b t r
      → RunsOn n feasible b t runs
      → RunsOn n feasible b t (add_run st c r runs)
  unfolding add_run
  add_run-On t c r [] q h = tt
  add_run-On t c r ((d, rs) ∷ runs) q h = elim (Bool-cases (str_eq (key d) (key c))) [
    | inl e ↦ rw (e, add_run) (All-append (Fresh n feasible b t) rs (r ∷ []) h.0 (q, tt), h.1)
    | inr e ↦ rw (e, add_run) (h.0, add_run-On t c r runs q h.1)
  ]

  runs-later :
      (s t : Search W X) (runs : List (Config W × List (TrialResult W)))
      → Extends n feasible s t
      → RunsOn n feasible b s runs
      → RunsOn n feasible b t runs
  runs-later s t runs e = All-imp _ _ (λ cr. Fresh-later n feasible b s t e cr.1) runs

  continue :
      (cs : List (Config W)) (c : Config W) (runs : List (Config W × List (TrialResult W)))
      (o : Option (TrialResult W)) (t : Search W X)
      → All (IsSound n feasible) cs
      → RunsOn n feasible b t runs
      → AllSome (Fresh n feasible b t) o
      → Holds n feasible t
      → Appends n feasible b t
      → ((a : List (Config W × List (TrialResult W))) (v : Search W X)
          → Holds n feasible v
          → Appends n feasible b v
          → RunsOn n feasible b v a
          → Ensures n feasible
              (one_round st env opts (suc n) cs a)
              v
              (λ a u. RunsOn n feasible b u a))
      → Ensures n feasible
          (elim o [
            | none ↦ pure runs
            | some res ↦ one_round st env opts (suc n) cs (add_run st c res runs)
          ])
          t
          (λ a u. RunsOn n feasible b u a)
  continue cs c runs none t sound q on h since next = pure-Ensures n feasible runs t _ h q
  continue cs c runs (some r) t sound q on h since next =
      next (add_run st c r runs) t h since (add_run-On t c r runs on q)

  one_round-Ensures :
      (cs : List (Config W)) (runs : List (Config W × List (TrialResult W))) (s : Search W X)
      → All (IsSound n feasible) cs
      → RunsOn n feasible b s runs
      → Holds n feasible s
      → Appends n feasible b s
      → Ensures n feasible
          (one_round st env opts (suc n) cs runs)
          s
          (λ a t. RunsOn n feasible b t a)
  unfolding one_round
  one_round-Ensures [] runs s sound q h since = pure-Ensures n feasible runs s _ h q
  one_round-Ensures (c ∷ cs) runs s sound q h since =
      bind-Ensures n feasible _ _ s (λ o t. AllSome (Fresh n feasible b t) o) _
        (remeasure-Ensures c s sound.0 h since)
        (λ o t x on.
          continue cs c runs o t sound.1 (runs-later s t runs x q) on x.holds
            (Appends-trans n feasible b s t since x.appends)
            (λ a v y since' g. one_round-Ensures cs a v sound.1 g y since'))

  rounds-Ensures :
      (k : ℕ) (cs : List (Config W)) (runs : List (Config W × List (TrialResult W)))
      (s : Search W X)
      → All (IsSound n feasible) cs
      → RunsOn n feasible b s runs
      → Holds n feasible s
      → Appends n feasible b s
      → Ensures n feasible (rounds st env opts (suc n) k cs runs) s (λ a t. RunsOn n feasible b t a)
  unfolding rounds
  rounds-Ensures zero cs runs s sound q h since = pure-Ensures n feasible runs s _ h q
  rounds-Ensures (suc k) cs runs s sound q h since =
      bind-Ensures n feasible _ _ s (λ a t. RunsOn n feasible b t a) _
        (one_round-Ensures cs runs s sound q h since)
        (λ a t x g.
          rounds-Ensures k cs a t sound g x.holds (Appends-trans n feasible b s t since x.appends))

  of_ranked :
      (P : TrialResult W → Type 0) (o : Option (Ranked W))
      → AllSome (λ x. P x.result) o
      → AllSome P (elim o [ none ↦ none | some x ↦ some x.result ])
  of_ranked P none q = tt
  of_ranked P (some x) q = q

  median_run-All :
      (P : TrialResult W → Type 0) (xs : List (Ranked W))
      → All (λ x. P x.result) xs
      → AllSome P (median_run st env opts (suc n) xs)
  median_run-All P xs h = of_ranked P (get_elem? xs (length xs / 2)) (
      AllSome-of (λ x. P x.result) _
        (λ x e. All-get_elem? (λ y. P y.result) xs (length xs / 2) h e))

  representatives-On :
      (t : Search W X) (runs : List (Config W × List (TrialResult W)))
      → RunsOn n feasible b t runs
      → All (Fresh n feasible b t) (representatives st env opts (suc n) runs)
  unfolding representatives
  representatives-On t [] h = tt
  representatives-On t ((c, rs) ∷ runs) h =
      cons_some (Fresh n feasible b t) (representative st env opts (suc n) rs) _
        (median_run-All (Fresh n feasible b t) _
          (rank-All (Fresh n feasible b t) rs st.objective st.constraints h.0))
        (representatives-On t runs h.1)

  confirmed-Ensures :
      (k : ℕ) (reps : List (TrialResult W)) (s : Search W X)
      → All (Fresh n feasible b s) reps
      → Holds n feasible s
      → Ensures n feasible
          (confirmed st env opts (suc n) k reps)
          s
          (λ o t. AllSome (All (Fresh n feasible b t)) o)
  confirmed-Ensures k [] s q h = pure-Ensures n feasible none s _ h tt
  confirmed-Ensures k (r ∷ reps) s q h =
      bind-Ensures n feasible _ _ s (λ o t. AllSome (λ r. Fresh n feasible b s r × (ok r ≡ true)) o)
        _
        (pick_of-Ensures env opts n feasible st (Fresh n feasible b s) (λ r g. g.0.1) (r ∷ reps) s q
          h)
        (λ o t x w.
          bind-Ensures n feasible _ _ t (λ u v. Unit) _
            (modify-Ensures n feasible _ t refl refl x.holds)
            (λ u v y z.
              pure-Ensures n feasible (some (r ∷ reps)) v _ y.holds
                (Fresh-later n feasible b s v (Extends-trans n feasible s t v x y) (r ∷ reps) q)))

  confirm_list-Ensures :
      (cs : List (Config W)) (s : Search W X)
      → All (IsSound n feasible) cs
      → Holds n feasible s
      → Appends n feasible b s
      → Ensures n feasible
          (confirm_list st env opts (suc n) cs)
          s
          (λ o t. AllSome (All (Fresh n feasible b t)) o)
  confirm_list-Ensures cs s sound h since =
      bind-Ensures n feasible _ _ s (λ a t. RunsOn n feasible b t a) _
        (rounds-Ensures (max 1 st.confirm_rounds) cs (map (λ c. (c, [])) cs) s sound
          (All-map (λ c. Unit) (λ cr. All (Fresh n feasible b s) cr.1) (λ c. (c, [])) (λ c u. tt) cs
            (every cs))
          h since)
        (λ runs t x q.
          bind-Ensures n feasible _ _ t (λ u v. Unit) _
            (modify-Ensures n feasible _ t refl refl x.holds)
            (λ u v y z.
              confirmed-Ensures (length cs) _ v
                (representatives-On v runs (runs-later t v runs y q)) y.holds))

module _ {W X : Type 0} ⦃f : Float W⦄ (env : Env W X) (opts : Settings W) (n : ℕ)
    (feasible : List (Config W)) (runner : IsRunner n feasible env) (st : Strategy W X) where
  -- From any state of the invariant, the confirmation comes to a result, keeps the invariant and every
  -- trial on record, and each run that it hands on, if any, is fine and among the trials that were put on
  -- record since the confirmation began: none is handed on from before.
  pub stage_confirm-Ensures :
      (s : Search W X)
      → Holds n feasible s
      → Ensures n feasible
          (stage_confirm st env opts (suc n))
          s
          (λ o t. AllSome (All (Fresh n feasible s t)) o)
  unfolding stage_confirm
  stage_confirm-Ensures s h = get-Ensures n feasible _ s _ (
      confirm_list-Ensures env opts n feasible runner st s (shortlist st s) s
        (shortlist-All env opts n feasible runner st s h) h (Appends-same n feasible s s refl))
