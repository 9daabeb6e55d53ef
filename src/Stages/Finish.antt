-- ===== src/Stages/Finish.antt =====
-- About `stage_power` of polyserve/calibrate/search.py.
use polyserve.Base.{
  ℕ, suc, String, ◌≡◌, refl, sym, ◌⊎◌, subst, inl, inr, Option, none, some, List, [], ◌∷◌, All,
  All-append, Memᴰ, All-imp, Bool-cases, not, is_some, any,
}
use polyserve.Float.{Float}
use polyserve.Models.{Config, TrialResult, lookup, key}
use polyserve.Search.{Env, Settings, Search}
use polyserve.Stages.{Strategy}
use polyserve.Stages.Triples.{IsSound, IsFine, Holds, Goes, pure-Ensures, if-Ensures}
use polyserve.Stages.Sound.{trial_only-Ensures}
use polyserve.Stages.Triples.{Appends-same}
use polyserve.Stages.Given.{IsRunner}
use polyserve.Base.{Memᴰ-append_left, Memᴰ-append_right}
use polyserve.Power.Settings.{PowerSetting, with_power, is_default}
use polyserve.Stages.Triples.{Extends, Extends-refl, Extends-trans, each-Goes}
use polyserve.Stages.Triples.{Appends-same}
use polyserve.Stages.Given.{lookup-append_cases}
use polyserve.Stages.Tuning.{like-IsSound}
use polyserve.Stages.Confirm.{set_default, swept, add_swept, power_with, stage_power}

module _ {W X : Type 0} ⦃f : Float W⦄ (env : Env W X) (opts : Settings W) (n : ℕ)
    (feasible : List (Config W)) (runner : IsRunner n feasible env) (st : Strategy W X) where
  set_default_cases :
      (k j : String) (v w : TrialResult W) (es : List (String × TrialResult W))
      → lookup k (set_default st env opts (suc n) j v es) ≡ some w
      → (lookup k es ≡ some w) ⊎ (v ≡ w)
  set_default_cases k j v w es h = elim (Bool-cases (is_some (lookup j es))) [
    | inl e ↦ inl (rw e at h)
    | inr e ↦ lookup-append_cases k j v w es (rw e at h)
  ]

  swept-Extends :
      (r : TrialResult W) (s : Search W X)
      → IsFine n feasible r
      → Holds n feasible s
      → Extends n feasible s (swept st env opts (suc n) r s)
  swept-Extends r s fine h = record {
    holds = record {
      fine = All-append (IsFine n feasible) s.results (r ∷ []) h.fine (fine, tt);
      memo = λ k x e. elim (set_default_cases k (key r.config) r x s.done e) [
        | inl old ↦ Memᴰ-append_left s.results (r ∷ []) (h.memo k x old)
        | inr new ↦ Memᴰ-append_right s.results (r ∷ []) (Memᴰ.head (sym new))
      ];
    };
    appends = (r ∷ [], refl);
  }

  add_swept-Extends :
      (rs : List (TrialResult W)) (s : Search W X)
      → All (IsFine n feasible) rs
      → Holds n feasible s
      → Extends n feasible s (add_swept st env opts (suc n) rs s)
  unfolding add_swept
  add_swept-Extends [] s q h = Extends-refl n feasible s h
  add_swept-Extends (r ∷ rs) s q h =
      let first = swept-Extends r s q.0 h in
      Extends-trans n feasible s (swept st env opts (suc n) r s) _ first
        (add_swept-Extends rs _ q.1 first.holds)

  power_with-Goes :
      (base : Config W)
      (o : Option (Config W → List PowerSetting → String → X → List (TrialResult W) × X))
      (s : Search W X)
      → env.sweep ≡ o
      → IsSound n feasible base
      → Holds n feasible s
      → Goes n feasible (power_with st env opts (suc n) base o) s
  power_with-Goes base none s e sound h =
      each-Goes n feasible _ st.power_points s
        (λ p t x.
          if-Ensures n feasible (is_default p) _ _ t _ (λ d. pure-Ensures n feasible tt t _ x tt)
            (λ d.
              trial_only-Ensures env opts n feasible runner st "power" (with_power base p) t
                (like-IsSound n feasible base (with_power base p) sound refl refl refl) x))
        h
  power_with-Goes base (some sweep) s e sound h =
      let s' : Search W X = record s { world = (sweep base st.power_points "power" s.world).1 } in
      let rs = (sweep base st.power_points "power" s.world).0 in
      let fine : All (IsFine n feasible) rs =
        All-imp _ (IsFine n feasible)
          (λ r q. (
            subst (IsSound n feasible) (sym q.0.1)
                (like-IsSound n feasible base (with_power base q.0.0) sound refl refl refl),
            q.1,
          ))
          rs (runner.swept sweep e base st.power_points "power" s.world) in
      record {
        value = tt;
        after = add_swept st env opts (suc n) rs s';
        runs = refl;
        extends =
            Extends-trans n feasible s s' _
              (record {
                holds = record { fine = h.fine; memo = h.memo };
                appends = Appends-same n feasible s s' refl;
              })
              (add_swept-Extends rs s' fine (record { fine = h.fine; memo = h.memo }));
        result = tt;
      }

  pub stage_power-Goes :
      (base : Config W) (s : Search W X)
      → IsSound n feasible base
      → Holds n feasible s
      → Goes n feasible (stage_power st env opts (suc n) base) s
  unfolding stage_power
  stage_power-Goes base s sound h =
      if-Ensures n feasible (any (λ p. not (is_default p)) st.power_points) _ _ s _
        (λ e. power_with-Goes base env.sweep s refl sound h)
        (λ e. pure-Ensures n feasible tt s _ h tt)
