-- ===== src/Stages/Early.antt =====
-- About `stage_quant` of polyserve/calibrate/search.py.
use polyserve.Base.{
  All-map, ℕ, suc, String, ◌≡◌, refl, inl, inr, Option, none, some, List, [], ◌∷◌, ◌++◌, All,
  All-append, Memᴰ, All-keep_if, All-take, Bool-cases, Option-cases, keep_if, not, is_some,
}
use polyserve.Float.{Float}
use polyserve.Models.{Config, TrialResult, ok, lookup}
use polyserve.Search.{Env, Settings, Search}
use polyserve.Stages.{Strategy, note, for_each}
use polyserve.Stages.Quant.{
  far_below, best_predicted, prune_text, skip_text, quality_notes, predictions, prune,
  first_launched, Measured, after_trial, measure_groups, kept_groups, stage_quant,
}
use polyserve.Stages.Groups.{Group, same_group, group_of, add_to, grouped_from}
use polyserve.Stages.Triples.{
  IsSound, IsFine, Holds, Goes, Yields, pure-Ensures, modify-Ensures, bind-Ensures, then-Ensures,
  bind-Yields, each-Goes, if-Ensures,
}
use polyserve.Stages.Sound.{Tried, trial-Ensures}
use polyserve.Stages.Given.{IsRunner}
use polyserve.Stages.Fine.{rank-All}
use polyserve.Stages.Start.{AllSome, Starts, baseline-All, baseline_candidates-All}

abbrev pub Groups : Type 0 → Type 0
Groups W = List (Group × List (Config W))

module _ {W : Type 0} ⦃f : Float W⦄ (P : Config W → Type 0) where
  -- A group that is not empty, and whose members are all `P`.
  abbrev pub IsGroup : Group × List (Config W) → Type 0
  IsGroup g = Starts g.1 × All P g.1

  append-Starts : (xs : List (Config W)) (c : Config W) → Starts (xs ++ c ∷ [])
  append-Starts [] c = (c, [], refl)
  append-Starts (x ∷ xs) c = (x, xs ++ c ∷ [], refl)

  add_to-All :
      (k : Group) (c : Config W) (groups : Groups W)
      → P c
      → All IsGroup groups
      → All IsGroup (add_to k c groups)
  unfolding add_to
  add_to-All k c [] p h = (((c, [], refl), (p, tt)), tt)
  add_to-All k c ((j, xs) ∷ groups) p h = elim (Bool-cases (same_group j k)) [
    | inl e ↦ rw (e, add_to) ((append-Starts xs c, All-append P xs (c ∷ []) h.0.1 (p, tt)), h.1)
    | inr e ↦ rw (e, add_to) (h.0, add_to-All k c groups p h.1)
  ]

  grouped_from-All :
      (cs : List (Config W)) (groups : Groups W)
      → All P cs
      → All IsGroup groups
      → All IsGroup (grouped_from groups cs)
  unfolding grouped_from
  grouped_from-All [] groups p h = h
  grouped_from-All (c ∷ cs) groups p h =
      grouped_from-All cs (add_to (group_of c) c groups) p.1
        (add_to-All (group_of c) c groups p.0 h)

module _ {W X : Type 0} ⦃f : Float W⦄ (st : Strategy W X) where
  predictions_total :
      (P : Config W → Type 0) (groups : Groups W)
      → All (IsGroup P) groups
      → (ps : List (Group × W)) × (predictions st groups ≡ some ps)
  unfolding predictions
  predictions_total P [] h = ([], refl)
  predictions_total P ((k, group) ∷ groups) h =
      let (c, (e, p)) = baseline-All P group h.0.0 h.0.1 in
      let (ps, rest) = predictions_total P groups h.1 in
      elim (Option-cases (st.predicted c)) [
        | inl q ↦ (ps, rw (e, rest, q, predictions) refl)
        | inr (w, q) ↦ ((k, w) ∷ ps, rw (e, rest, q, predictions) refl)
      ]

module _ {W X : Type 0} ⦃f : Float W⦄ (n : ℕ) (feasible : List (Config W)) where
  pub note-Goes :
      (text : String) (s : Search W X) → Holds n feasible s → Goes n feasible (note text) s
  note-Goes text s h = modify-Ensures n feasible _ s refl refl h

  prune-Yields :
      (st : Strategy W X) (P : Config W → Type 0) (ps : List (Group × W)) (groups : Groups W)
      (s : Search W X)
      → All (IsGroup P) groups
      → Holds n feasible s
      → Yields n feasible (All (IsGroup P)) (prune st ps groups) s
  prune-Yields st P [] groups s g h = pure-Ensures n feasible groups s _ h g
  prune-Yields st P ((k, p) ∷ ps) groups s g h =
      let best = best_predicted st p ps in
      let far = keep_if (far_below st best) ((k, p) ∷ ps) in
      then-Ensures n feasible (for_each (λ kp. note (prune_text st best kp)) far) _ s
        (λ a t. All (IsGroup P) a)
        (each-Goes n feasible (λ kp. note (prune_text st best kp)) far s
          (λ kp t. note-Goes (prune_text st best kp) t) h)
        (λ t x. pure-Ensures n feasible _ t _ x (All-keep_if (IsGroup P) _ groups g))

-- What the precision stage keeps: the engine and precision of a planned configuration.
pub record IsPlanned {W : Type 0} (feasible : List (Config W)) (k : Group) : Type 0 where
  pub config : Config W
  pub given : Memᴰ config feasible
  pub group : group_of config ≡ k

module _ {W : Type 0} ⦃f : Float W⦄ (n : ℕ) (feasible : List (Config W)) where
  pub group_of-IsPlanned : (c : Config W) → IsSound n feasible c → IsPlanned feasible (group_of c)
  group_of-IsPlanned c sound =
      let (d, m, e) = sound.planned in record { config = d; given = m; group = e }

module _ {W X : Type 0} ⦃f : Float W⦄ (env : Env W X) (opts : Settings W) (n : ℕ)
    (feasible : List (Config W)) (runner : IsRunner n feasible env) (st : Strategy W X) where
  abbrev Good : Measured st env opts (suc n) → Type 0
  Good m = All (IsFine n feasible) m.0

  first_launched-Yields :
      (cs : List (Config W)) (s : Search W X)
      → All (IsSound n feasible) cs
      → Holds n feasible s
      → Yields n feasible (AllSome (IsFine n feasible)) (first_launched st env opts (suc n) cs) s
  unfolding first_launched
  first_launched-Yields [] s all h = pure-Ensures n feasible none s _ h tt
  first_launched-Yields (c ∷ []) s all h =
      bind-Ensures n feasible _ _ s (Tried env opts n feasible runner) _
        (trial-Ensures env opts n feasible runner st c "quant" s all.0 h)
        (λ r t x q. pure-Ensures n feasible (some r) t _ x.holds q.0)
  first_launched-Yields (c ∷ d ∷ cs) s all h =
      bind-Ensures n feasible _ _ s (Tried env opts n feasible runner) _
        (trial-Ensures env opts n feasible runner st c "quant" s all.0 h)
        (λ r t x q.
          if-Ensures n feasible r.launched _ _ t _
            (λ e. pure-Ensures n feasible (some r) t _ x.holds q.0)
            (λ e. first_launched-Yields (d ∷ cs) t all.1 x.holds))

  after_trial-Good :
      (m : Measured st env opts (suc n)) (r : Option (TrialResult W))
      → Good m
      → AllSome (IsFine n feasible) r
      → Good (after_trial st env opts (suc n) m r)
  after_trial-Good m none g q = g
  after_trial-Good m (some r) g q = All-append (IsFine n feasible) m.0 (r ∷ []) g (q, tt)

  measure_groups-Yields :
      (groups : Groups W) (m : Measured st env opts (suc n)) (s : Search W X)
      → All (IsGroup (IsSound n feasible)) groups
      → Good m
      → Holds n feasible s
      → Yields n feasible Good (measure_groups st env opts (suc n) groups m) s
  unfolding measure_groups
  measure_groups-Yields [] m s gs g h = pure-Ensures n feasible m s _ h g
  measure_groups-Yields ((k, group) ∷ groups) m s gs g h = elim (Option-cases (lookup k.0 m.1)) [
    | inr (why, e) ↦
        rw (e, measure_groups)
          (then-Ensures n feasible (note (skip_text st k why)) _ s (λ a t. Good a)
            (note-Goes n feasible (skip_text st k why) s h)
            (λ t x. measure_groups-Yields groups m t gs.1 g x))
    | inl e ↦
        rw (e, measure_groups)
          (bind-Yields n feasible (AllSome (IsFine n feasible)) Good _ _ s
            (first_launched-Yields _ s
              (All-take (IsSound n feasible) st.max_memory_trials_per_quant _
                (baseline_candidates-All (IsSound n feasible) group gs.0.1))
              h)
            (λ r t q x. measure_groups-Yields groups _ t gs.1 (after_trial-Good m r g q) x))
  ]

  kept_groups-All :
      (m : Measured st env opts (suc n))
      → Good m
      → All (IsPlanned feasible) (kept_groups st env opts (suc n) m)
  kept_groups-All m g = All-take (IsPlanned feasible) st.top_quants _ (
      All-map (λ x. IsFine n feasible x.result) (IsPlanned feasible) (λ x. group_of x.result.config)
        (λ x q. group_of-IsPlanned n feasible x.result.config q.0) _
        (All-keep_if (λ x. IsFine n feasible x.result)
          (λ x. not (is_some (lookup x.result.config.backend m.1))) _
          (rank-All (IsFine n feasible) _ st.objective st.constraints
            (All-keep_if (IsFine n feasible) ok m.0 g))))

  quality-Goes :
      (q : Option (X → List String)) (s : Search W X)
      → Holds n feasible s
      → Goes n feasible (quality_notes st env opts (suc n) q) s
  quality-Goes none s h = pure-Ensures n feasible tt s _ h tt
  quality-Goes (some summary) s h = modify-Ensures n feasible _ s refl refl h

  -- From any state of the invariant, with planned configurations whose retries end, the precision
  -- stage comes to a result, keeps the invariant and every trial on record, and the engines and
  -- precisions that it keeps are those of planned configurations.
  pub stage_quant-Yields :
      (s : Search W X)
      → All (IsSound n feasible) feasible
      → Holds n feasible s
      → Yields n feasible (All (IsPlanned feasible)) (stage_quant st env opts (suc n) feasible) s
  unfolding stage_quant
  stage_quant-Yields s sound h =
      let gs = grouped_from-All (IsSound n feasible) feasible [] sound tt in
      let (ps, e) = predictions_total st (IsSound n feasible) (grouped_from [] feasible) gs in
      rw (e, stage_quant)
        (bind-Yields n feasible (All (IsGroup (IsSound n feasible))) (All (IsPlanned feasible)) _ _
          s (prune-Yields n feasible st (IsSound n feasible) ps _ s gs h)
          (λ left t q x.
            bind-Yields n feasible Good (All (IsPlanned feasible)) _ _ t
              (measure_groups-Yields left ([], []) t q tt x)
              (λ m u g y.
                then-Ensures n feasible _ _ u (λ a v. All (IsPlanned feasible) a)
                  (quality-Goes st.quality_summary u y)
                  (λ v z. pure-Ensures n feasible _ v _ z (kept_groups-All m g)))))
