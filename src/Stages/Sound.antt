-- ===== src/Stages/Sound.antt =====
-- What the proofs about the stages of polyserve/calibrate/search.py suppose of the runner and of the
-- variant functions, and one trial (`StagedSearch._run`) as a stage meets it.
use polyserve.Base.{
  Option-cases, All-of_Memᴰ, ℕ, zero, suc, String, ◌≡◌, refl, sym, ◌∙◌, ap, subst, inl, inr, true,
  some, List, [], ◌∷◌, ◌++◌, All, All-append, Memᴰ, Memᴰ-append_left, Memᴰ-append_right, Bool-cases,
  arith,
}
use polyserve.Float.{Float}
use polyserve.Models.{Config, TrialResult, ok, key, lookup}
use polyserve.Search.{
  Env, Settings, Search, run, measure, over_budget, recorded, with_retry, with_skip, not_run,
  headroom_retry,
}
use polyserve.Search.Memo.{over_budget-same}
use polyserve.Search.Ran.{opened, measured}
use polyserve.Search.Retry.{ends_within, retry_from-closer, retry_from-same, ends_within-more}
use polyserve.Stages.{Strategy, trial, trial_only}
use polyserve.Stages.Triples.{
  IsSound, IsFine, Holds, Ensures, Extends-refl, bind-Ensures, pure-Ensures, Appends, Appends-same,
  Appends-trans,
}
use polyserve.Stages.Given.{lookup-append_cases, group_same, IsRunner}

module _ {W X : Type 0} ⦃f : Float W⦄ (env : Env W X) (opts : Settings W) (n : ℕ)
    (feasible : List (Config W)) (runner : IsRunner n feasible env) where
  pub over_budget-Holds :
      (s : Search W X) → Holds n feasible s → Holds n feasible (over_budget env opts s).1
  over_budget-Holds s h =
      let (r, d) = over_budget-same env opts s in
      record {
        fine = subst (All (IsFine n feasible)) (sym r) h.fine;
        memo = λ k x e. subst (Memᴰ x) (sym r) (h.memo k x (ap (lookup k) (sym d) ∙ e));
      }

  -- A trial that is measured and put on record.
  recorded-Holds :
      (c : Config W) (stage : String) (s : Search W X)
      → IsSound n feasible c
      → Holds n feasible s
      → IsFine n feasible (measure env opts c stage s).0
        × Holds n feasible (recorded (measure env opts c stage s).0 (measure env opts c stage s).1)
  unfolding measure
  recorded-Holds c stage s sound h =
      let x = (env.now s.world).1 in
      let res = (env.run_trial c stage x).0 in
      let fine : IsFine n feasible res =
        (subst (IsSound n feasible) (sym (runner.given c stage x)) sound, runner.timed c stage x) in
      (
        fine,
        record {
          fine = All-append _ s.results (res ∷ []) h.fine (fine, tt);
          memo = λ k r e. elim (lookup-append_cases k (key c) res r s.done e) [
            | inl old ↦ Memᴰ-append_left s.results (res ∷ []) (h.memo k r old)
            | inr new ↦ Memᴰ-append_right s.results (res ∷ []) (Memᴰ.head (sym new))
          ];
        },
      )

  -- What a trial guarantees: its result is fine, and on record when it succeeded.
  abbrev pub Tried : TrialResult W → Search W X → Type 0
  Tried r t = IsFine n feasible r × (ok r ≡ true → Memᴰ r t.results)

  retry-IsSound :
      (c retry : Config W) (res : TrialResult W) (s : Search W X)
      → IsSound n feasible c
      → headroom_retry env opts c res s ≡ some retry
      → IsSound n feasible retry
  unfolding headroom_retry
  retry-IsSound c retry res s sound goes =
      let (m, eq, closer) =
        retry_from-closer env opts n c.gpu_memory_utilization c retry res s sound.ends goes in
      let (b, q) = retry_from-same env opts c.gpu_memory_utilization c retry res s goes in
      let (d, mem, same) = sound.planned in
      record {
        ends =
            subst (λ k. ends_within k retry.gpu_memory_utilization ≡ true) (sym eq)
              (ends_within-more m retry.gpu_memory_utilization closer);
        planned = (d, mem, same ∙ group_same c retry b q);
      }

  abbrev Trying : ℕ → Config W → String → Search W X → Type 0
  Trying fuel c stage s = Ensures n feasible (run env opts fuel c stage) s Tried

  not_run-IsFine :
      (c : Config W) (stage : String) → IsSound n feasible c → IsFine n feasible (not_run c stage)
  unfolding ok
  not_run-IsFine c stage sound = (sound, record { timed = λ e. cc })

  not_run-Tried :
      (c : Config W) (stage : String) (t : Search W X)
      → ok (not_run c stage) ≡ true
      → Memᴰ (not_run c stage) t.results
  unfolding ok
  not_run-Tried c stage t g = absurd (ground arith)

  -- A trial that is put on record.
  tried_once : Config W → String → Search W X → Search W X
  tried_once c stage s =
      recorded (measure env opts c stage (over_budget env opts s).1).0
        (measure env opts c stage (over_budget env opts s).1).1

  tried_once-Appends :
      (c : Config W) (stage : String) (s : Search W X) → Appends n feasible s (tried_once c stage s)
  unfolding tried_once measure
  tried_once-Appends c stage s = (
    (measure env opts c stage (over_budget env opts s).1).0 ∷ [],
    ap (λ l. l ++ (measure env opts c stage (over_budget env opts s).1).0 ∷ [])
        (over_budget-same env opts s).0,
  )

  one_trial :
      (k : ℕ) (c : Config W) (stage : String) (s : Search W X)
      → IsSound n feasible c
      → Holds n feasible s
      → ends_within k c.gpu_memory_utilization ≡ true
      → ((retry : Config W) (u : Search W X) (m : ℕ)
          → k ≡ suc m
          → IsSound n feasible retry
          → Holds n feasible u
          → ends_within m retry.gpu_memory_utilization ≡ true
          → Trying k retry stage u)
      → Trying (suc k) c stage s
  unfolding run headroom_retry tried_once
  one_trial k c stage s sound h e again =
      let o = opened env opts k c stage s in
      let m = measured env opts k c stage s in
      let (fine, held) = recorded-Holds c stage o sound (over_budget-Holds s h) in
      elim (Option-cases (lookup (key c) s.done)) [
        | inr (res, known) ↦
            let on_record = h.memo (key c) res known in
            record {
              value = res;
              after = s;
              runs = rw (known, run) refl;
              extends = Extends-refl n feasible s h;
              result = (All-of_Memᴰ (IsFine n feasible) s.results h.fine on_record, λ g. on_record);
            }
        | inl new ↦ elim (Bool-cases (over_budget env opts s).0) [
          | inl over ↦
              let kept = over_budget-Holds s h in
              record {
                value = not_run c stage;
                after = with_skip c stage o;
                runs = rw (new, over, run) refl;
                extends = record {
                  holds = record { fine = kept.fine; memo = kept.memo };
                  appends =
                      Appends-same n feasible s (with_skip c stage o)
                        (over_budget-same env opts s).0;
                };
                result =
                    (not_run-IsFine c stage sound, not_run-Tried c stage (with_skip c stage o));
              }
          | inr under ↦ elim (Option-cases (headroom_retry env opts c m.0 m.1)) [
            | inl last ↦ record {
              value = m.0;
              after = recorded m.0 m.1;
              runs = rw (new, under, last, run) refl;
              extends = record { holds = held; appends = tried_once-Appends c stage s };
              result = (fine, λ g. Memᴰ-append_right _ _ (Memᴰ.head refl));
            }
            | inr (retry, goes) ↦
                let (j, eq, closer) =
                  retry_from-closer env opts k c.gpu_memory_utilization c retry m.0 m.1 e goes in
                let rest =
                  again retry (with_retry c retry m.0 m.1) j eq
                    (retry-IsSound c retry m.0 m.1 sound goes)
                    (record { fine = held.fine; memo = held.memo }) closer in
                record {
                  value = rest.value;
                  after = rest.after;
                  runs = rw (new, under, goes, run) rest.runs;
                  extends = record {
                    holds = rest.extends.holds;
                    appends =
                        Appends-trans n feasible s (with_retry c retry m.0 m.1) rest.after
                          (tried_once-Appends c stage s) rest.extends.appends;
                  };
                  result = rest.result;
                }
          ]
        ]
      ]

  -- With fuel for the steps down to the floor, and one more, a trial comes to a result that is fine.
  tried :
      (k : ℕ) (c : Config W) (stage : String) (s : Search W X)
      → IsSound n feasible c
      → Holds n feasible s
      → ends_within k c.gpu_memory_utilization ≡ true
      → Trying (suc k) c stage s
  tried zero c stage s sound h e =
      one_trial zero c stage s sound h e (λ retry u m eq ok held closer. absurd (omega arith))
  tried (suc k) c stage s sound h e =
      one_trial (suc k) c stage s sound h e (λ retry u m eq good held closer.
        let fewer : m ≡ k = omega arith in
        tried k retry stage u good held
          (subst (λ j. ends_within j retry.gpu_memory_utilization ≡ true) fewer closer))

  pub trial-Ensures :
      (st : Strategy W X) (c : Config W) (stage : String) (s : Search W X)
      → IsSound n feasible c
      → Holds n feasible s
      → Ensures n feasible (trial env opts st (suc n) c stage) s Tried
  trial-Ensures st c stage s sound h = tried n c stage s sound h sound.ends

  pub trial_only-Ensures :
      (st : Strategy W X) (stage : String) (c : Config W) (s : Search W X)
      → IsSound n feasible c
      → Holds n feasible s
      → Ensures n feasible (trial_only env opts st (suc n) stage c) s (λ u t. Unit)
  trial_only-Ensures st stage c s sound h =
      bind-Ensures n feasible _ _ s Tried (λ u t. Unit) (trial-Ensures st c stage s sound h)
        (λ r t x q. pure-Ensures n feasible tt t (λ u v. Unit) x.holds tt)
