-- ===== src/Stages/Tuned.antt =====
-- About `_contenders`, `_outpaced` and `_tune` of polyserve/calibrate/search.py.
use polyserve.Base.{
  All-of_members, ℕ, suc, String, ◌≡◌, refl, sym, subst, inl, inr, Bool, true, false, Option, none,
  some, List, [], ◌∷◌, All, Memᴰ, All-keep_if, Bool-cases, arith, not, find_first, any, all, str_eq,
  ◌&&◌, ◌||◌,
}
use polyserve.Float.{Float, at_most, nought}
use polyserve.Models.{Config, TrialResult}
use polyserve.Search.{Env, Settings, Search}
use polyserve.Search.Keys.{same_text}
use polyserve.Stages.{Strategy, Variants, Spec, any_spec, only, modify}
use polyserve.Stages.Triples.{
  IsSound, IsFine, Holds, Goes, Yields, pure-Ensures, modify-Ensures, get-Ensures, bind-Ensures,
  then-Ensures, bind-Yields, each-Ensures, if-Ensures,
}
use polyserve.Stages.Given.{IsRunner, IsStrategy, Proposes}
use polyserve.Stages.Start.{AllSome}
use polyserve.Stages.Early.{note-Goes}
use polyserve.Objectives.Rank.{Ranked}
use polyserve.Stages.Contenders.{
  is_offer, offers_more, ranking, engine, behind, outpaced_by, outpaced_in, outpaced, relative_gap,
  note_contender, contends, extra_offer, contenders_in, contenders_from, contenders, run_stages,
  maybe_combine, is_spec, tune_plain, tune_start, tune_settings, tune_spec_first, tune,
  tune_unless_outpaced,
}
use polyserve.Stages.Middle.{stage_prefill-Goes}
use polyserve.Stages.Fine.{rank-All, eligible-All, ranking-Fine}
use polyserve.Stages.Triples.{each-Goes}
use polyserve.Stages.Tuning.{stage_variants-Goes, leader-Sound}
use polyserve.Stages.Combined.{stage_combinations-Goes}

find_first_total :
    {A : Type 0} {a : A} (test : A → Bool) (xs : List A)
    → Memᴰ a xs
    → test a ≡ true
    → (b : A) × (find_first test xs ≡ some b)
find_first_total test [] m e = elim m [ ]
find_first_total test (x ∷ xs) m e = elim (Bool-cases (test x)) [
  | inl hit ↦ (x, rw hit refl)
  | inr miss ↦ elim m [
    | Memᴰ.head p ↦
        (let hit : test x ≡ true = subst (λ y. test y ≡ true) p e in absurd (ground arith))
    | Memᴰ.tail k ↦ (let (b, h) = find_first_total test xs k e in (b, rw miss h))
  ]
]

module _ {W X : Type 0} ⦃f : Float W⦄ (env : Env W X) (opts : Settings W) (n : ℕ)
    (feasible : List (Config W)) (runner : IsRunner n feasible env) (st : Strategy W X) where
  noted-Goes :
      (after : String) (lead x : Ranked W) (s : Search W X)
      → Holds n feasible s
      → Goes n feasible (modify (note_contender st after lead x (extra_offer st lead x))) s
  noted-Goes after lead x s h = modify-Ensures n feasible _ s (ground arith) (ground arith) h

  contenders_in-Yields :
      (after : String) (lead : Ranked W) (seen : List String) (xs : List (Ranked W))
      (s : Search W X)
      → All (λ x. IsFine n feasible x.result) xs
      → Holds n feasible s
      → Yields n feasible (All (IsSound n feasible)) (contenders_in st after lead seen xs) s
  unfolding contenders_in
  contenders_in-Yields after lead seen [] s all h = pure-Ensures n feasible [] s _ h tt
  contenders_in-Yields after lead seen (x ∷ xs) s all h =
      if-Ensures n feasible (any (str_eq (engine st x)) seen) _ _ s _
        (λ e. contenders_in-Yields after lead seen xs s all.1 h)
        (λ e.
          if-Ensures n feasible (contends st lead x) _ _ s _
            (λ c. then-Ensures n feasible _ _ s _ (noted-Goes after lead x s h) (λ t y.
              bind-Yields n feasible (All (IsSound n feasible)) (All (IsSound n feasible)) _ _ t
                (contenders_in-Yields after lead (engine st x ∷ seen) xs t all.1 y)
                (λ rest u q z. pure-Ensures n feasible _ u _ z (all.0.0, q))))
            (λ c. contenders_in-Yields after lead (engine st x ∷ seen) xs s all.1 h))

  contenders_from-Yields :
      (after : String) (xs : List (Ranked W)) (s : Search W X)
      → All (λ x. IsFine n feasible x.result) xs
      → Holds n feasible s
      → Yields n feasible (All (IsSound n feasible)) (contenders_from st after xs) s
  contenders_from-Yields after [] s all h = pure-Ensures n feasible [] s _ h tt
  contenders_from-Yields after (lead ∷ rest) s all h =
      bind-Yields n feasible (All (IsSound n feasible)) (All (IsSound n feasible)) _ _ s
        (contenders_in-Yields after lead _ rest s all.1 h)
        (λ out t q x. pure-Ensures n feasible _ t _ x (all.0.0, q))

  pub contenders-Yields :
      (after : String) (s : Search W X)
      → Holds n feasible s
      → Yields n feasible (All (IsSound n feasible)) (contenders st after) s
  unfolding contenders
  contenders-Yields after s h =
      get-Ensures n feasible _ s _
        (contenders_from-Yields after (ranking st s) s (ranking-Fine st n feasible s h) h)

  ranking-members : (s : Search W X) → All (λ x. Memᴰ x.result s.results) (ranking st s)
  unfolding ranking
  ranking-members s =
      rank-All (λ r. Memᴰ r s.results) _ st.objective st.constraints
        (eligible-All (λ r. Memᴰ r s.results) st.refused s.results
          (All-of_members (λ r. Memᴰ r s.results) s.results (λ r m. m)))

  behind-Goes :
      (base : Config W) (lead mine : Ranked W) (first : TrialResult W) (s : Search W X)
      → Holds n feasible s
      → Yields n feasible (λ b. Unit) (behind st base lead mine (some first)) s
  behind-Goes base lead mine first s h =
      if-Ensures n feasible
        (at_most (relative_gap st mine lead) st.contender_band
          || is_offer (offers_more st.variant_stages mine.result.config first.config))
        _ _ s _ (λ d. pure-Ensures n feasible false s _ h tt)
        (λ d.
          then-Ensures n feasible _ _ s _ (note-Goes n feasible _ s h)
            (λ t x. pure-Ensures n feasible true t _ x tt))

  outpaced_by-Goes :
      (base : Config W) (lead : Ranked W) (o : Option (Ranked W)) (s : Search W X)
      → Memᴰ lead.result s.results
      → Holds n feasible s
      → Yields n feasible (λ b. Unit) (outpaced_by st base lead o s) s
  outpaced_by-Goes base lead none s m h = pure-Ensures n feasible false s _ h tt
  outpaced_by-Goes base lead (some mine) s m h =
      let (first, e) =
        find_first_total (λ r. str_eq r.config.backend (engine st lead)) s.results m
          (same_text (engine st lead)) in
      if-Ensures n feasible
        (str_eq (engine st lead) base.backend || not (lead.feasible && mine.feasible)) _ _ s _
        (λ c. pure-Ensures n feasible false s _ h tt)
        (λ c.
          subst (λ o. Yields n feasible (λ b. Unit) (behind st base lead mine o) s) (sym e)
            (behind-Goes base lead mine first s h))

  outpaced_in-Goes :
      (base : Config W) (xs : List (Ranked W)) (s : Search W X)
      → All (λ x. Memᴰ x.result s.results) xs
      → Holds n feasible s
      → Yields n feasible (λ b. Unit) (outpaced_in st base xs s) s
  outpaced_in-Goes base [] s m h = pure-Ensures n feasible false s _ h tt
  outpaced_in-Goes base (lead ∷ rest) s m h =
      if-Ensures n feasible (at_most st.contender_band nought) _ _ s _
        (λ c. pure-Ensures n feasible false s _ h tt)
        (λ c.
          outpaced_by-Goes base lead
            (find_first (λ x. str_eq (engine st x) base.backend) (lead ∷ rest)) s m.0 h)

  -- The leader's engine has a trial on record, so the search for its first raises nothing.
  outpaced-Goes :
      (base : Config W) (s : Search W X)
      → Holds n feasible s
      → Yields n feasible (λ b. Unit) (outpaced st base) s
  unfolding outpaced
  outpaced-Goes base s h =
      get-Ensures n feasible _ s _ (outpaced_in-Goes base (ranking st s) s (ranking-members s) h)

  module _ (strategy : IsStrategy n feasible st) where
    variant_runs-Goes :
        (backend : Option String) (spec : Spec) (stages : List (String × Variants W))
        (s : Search W X)
        → All (λ nf. Proposes n feasible nf.1) stages
        → Holds n feasible s
        → Goes n feasible (run_stages st env opts (suc n) backend spec stages) s
    variant_runs-Goes backend spec stages s all h =
        each-Ensures n feasible (λ nf. Proposes n feasible nf.1) _ stages s all
          (λ nf t p x.
            stage_variants-Goes env opts n feasible runner st nf.0 nf.1 backend spec t p x)
          h

    maybe_combine-Goes :
        (base : Config W) (spec : Spec) (limit : Option ℕ) (s : Search W X)
        → IsSound n feasible base
        → Holds n feasible s
        → Goes n feasible (maybe_combine st env opts (suc n) base spec limit) s
    maybe_combine-Goes base spec limit s sound h =
        if-Ensures n feasible st.combine _ _ s _
          (λ e. stage_combinations-Goes env opts n feasible runner st base spec limit s sound h)
          (λ e. pure-Ensures n feasible tt s _ h tt)

    tune_plain-Goes :
        (base : Config W) (s : Search W X)
        → IsSound n feasible base
        → Holds n feasible s
        → Goes n feasible (tune_plain st env opts (suc n) base) s
    unfolding tune_plain
    tune_plain-Goes base s sound h =
        then-Ensures n feasible _ _ s _
          (then-Ensures n feasible _ _ s _
            (stage_prefill-Goes env opts n feasible runner st strategy base s sound h)
            (λ t x.
              variant_runs-Goes (some base.backend) any_spec st.variant_stages t strategy.stages x))
          (λ t x. maybe_combine-Goes base any_spec none t sound x)

    tune_start-Goes :
        (base : Config W) (limit : ℕ) (setting : Option String) (o : Option (TrialResult W))
        (s : Search W X)
        → AllSome (λ r. IsSound n feasible r.config) o
        → Holds n feasible s
        → Goes n feasible (tune_start st env opts (suc n) base limit setting o) s
    tune_start-Goes base limit setting none s q h = pure-Ensures n feasible tt s _ h tt
    tune_start-Goes base limit setting (some start) s q h =
        then-Ensures n feasible _ _ s _
          (then-Ensures n feasible _ _ s _
            (stage_prefill-Goes env opts n feasible runner st strategy start.config s q h)
            (λ t x.
              variant_runs-Goes (some base.backend) (only setting) _ t
                (All-keep_if (λ nf. Proposes n feasible nf.1)
                  (λ nf. not (is_spec st env opts (suc n) nf)) st.variant_stages strategy.stages)
                x))
          (λ t x. maybe_combine-Goes start.config (only setting) (some limit) t q x)

    tune_settings-Goes :
        (base : Config W) (settings : List (Option String)) (s : Search W X)
        → Holds n feasible s
        → Goes n feasible (tune_settings st env opts (suc n) base settings) s
    tune_settings-Goes base settings s h =
        each-Goes n feasible _ settings s
          (λ setting t x.
            bind-Ensures n feasible _ _ t (λ o u. AllSome (λ r. IsSound n feasible r.config) o) _
              (leader-Sound env opts n feasible runner st (some base.backend) (only setting) t x)
              (λ o u y q. tune_start-Goes base _ setting o u q y.holds))
          h

    tune_spec_first-Goes :
        (base : Config W) (s : Search W X)
        → Holds n feasible s
        → Goes n feasible (tune_spec_first st env opts (suc n) base) s
    unfolding tune_spec_first
    tune_spec_first-Goes base s h =
        then-Ensures n feasible _ _ s _
          (variant_runs-Goes (some base.backend) any_spec _ s
            (All-keep_if (λ nf. Proposes n feasible nf.1) (is_spec st env opts (suc n))
              st.variant_stages strategy.stages)
            h)
          (λ t x. get-Ensures n feasible _ t _ (tune_settings-Goes base _ t x))

    tune-Goes :
        (base : Config W) (s : Search W X)
        → IsSound n feasible base
        → Holds n feasible s
        → Goes n feasible (tune st env opts (suc n) base) s
    unfolding tune
    tune-Goes base s sound h =
        if-Ensures n feasible (st.spec_first && any (is_spec st env opts (suc n)) st.variant_stages)
          _ _ s _ (λ e. tune_spec_first-Goes base s h) (λ e. tune_plain-Goes base s sound h)

    pub tune_unless_outpaced-Goes :
        (base : Config W) (s : Search W X)
        → IsSound n feasible base
        → Holds n feasible s
        → Goes n feasible (tune_unless_outpaced st env opts (suc n) base) s
    unfolding tune_unless_outpaced
    tune_unless_outpaced-Goes base s sound h =
        bind-Ensures n feasible _ _ s (λ b t. Unit) _ (outpaced-Goes base s h)
          (λ out t x q.
            if-Ensures n feasible out _ _ t _ (λ e. pure-Ensures n feasible tt t _ x.holds tt)
              (λ e. tune-Goes base t sound x.holds))
