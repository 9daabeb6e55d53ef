-- ===== src/Pipeline/Answered.antt =====
-- The plan of `prepare_and_plan` of polyserve/pipeline.py, and what a step for one engine does to it.
use polyserve.Base.{
  ℕ, ◌≤◌, String, ◌≡◌, refl, sym, subst, ◌⊎◌, inl, inr, true, List, [], ◌∷◌, ◌++◌, All, All-imp,
  Memᴰ, Bool-cases, is_some, arith, str_eq, some,
}
use text.Mathlib.TextEquality.{eq_iff}
use polyserve.Float.{Float}
use polyserve.Models.{Config, PreparedModel, MemoryEstimate, lookup}
use polyserve.Search.Keys.{same_text}
use polyserve.Backends.{Backend}
use polyserve.Backends.Offered.{shares}
use polyserve.Pipeline.{PlanResult, is_in}
use polyserve.Pipeline.Plan.{put, failed, with_model, with_kept}

module _ {V : Type 0} (k : String) (v : V) where
  lookup-put : (m : List (String × V)) → lookup k (put k v m) ≡ some v
  unfolding put
  lookup-put [] = rw (same_text k) refl
  lookup-put ((j, w) ∷ m) = elim (Bool-cases (str_eq j k)) [
    | inl e ↦ rw (e, put) (rw e refl)
    | inr e ↦ rw (e, put) (rw e (lookup-put m))
  ]

  put-keeps :
      (n : String) (m : List (String × V))
      → is_some (lookup n m) ≡ true
      → is_some (lookup n (put k v m)) ≡ true
  unfolding put
  put-keeps n [] h = cc
  put-keeps n ((j, w) ∷ m) h = elim (Bool-cases (str_eq j k)) [
    | inl e ↦
        rw (e, put)
          (elim (Bool-cases (str_eq j n)) [ inl q ↦ rw q refl | inr q ↦ rw q (rw q at h) ])
    | inr e ↦
        rw (e, put)
          (elim (Bool-cases (str_eq j n)) [
            | inl q ↦ rw q refl
            | inr q ↦ rw q (put-keeps n m (rw q at h))
          ])
  ]

  All-put :
      (P : String × V → Type 0) (m : List (String × V)) → P (k, v) → All P m → All P (put k v m)
  unfolding put
  All-put P [] p h = (p, tt)
  All-put P ((j, w) ∷ m) p h = elim (Bool-cases (str_eq j k)) [
    | inl e ↦ rw (e, put) (subst (λ x. P (x, v)) (sym ((eq_iff j k).0 e)) p, h.1)
    | inr e ↦ rw (e, put) (h.0, All-put P m p h.1)
  ]

is_in-append : (n m : String) (xs : List String) → is_in n xs ≡ true → is_in n (xs ++ m ∷ []) ≡ true
is_in-append n m [] h = cc
is_in-append n m (x ∷ xs) h = ground (arith, is_in-append n m xs)

is_in-last : (n : String) (xs : List String) → is_in n (xs ++ n ∷ []) ≡ true
is_in-last n [] = rw (same_text n) refl
is_in-last n (x ∷ xs) = ground (arith, is_in-last n xs)

module _ {W : Type 0} ⦃f : Float W⦄ (min_ctx : ℕ) where
  -- A configuration that is planned for an engine: it holds the workload and the estimate says that
  -- it fits.
  pub record IsPlannedFor (name : String) (ce : Config W × MemoryEstimate) : Type 0 where
    pub engine : ce.0.backend ≡ name
    pub holds : min_ctx ≤ ce.0.ctx
    pub share : Memᴰ ce.0.gpu_memory_utilization shares
    pub fits : ce.1.feasible ≡ true

  -- Every engine with configurations is known and has a prepared model.
  pub record IsPlan (registry : List (String × Backend W)) (r : PlanResult W) : Type 0 where
    pub offers : All (λ e. All (IsPlannedFor e.0) e.1) r.feasible
    pub known : All (λ e. is_some (lookup e.0 registry) ≡ true) r.feasible
    pub ready : All (λ e. is_some (lookup e.0 r.prepared) ≡ true) r.feasible

-- An engine that failed, or that has a list of configurations.
abbrev pub IsAnswered : {W : Type 0} → PlanResult W → String → Type 0
IsAnswered r n = (is_in n r.errors ≡ true) ⊎ (is_some (lookup n r.feasible) ≡ true)

module _ {W : Type 0} ⦃f : Float W⦄ (min_ctx : ℕ) (registry : List (String × Backend W)) where
  -- What a step for one engine does: the plan stays sound, no engine is forgotten, and this one is
  -- answered.
  pub record IsDone (name : String) (before after : PlanResult W) : Type 0 where
    pub sound : IsPlan min_ctx registry after
    pub rest : (n : String) → IsAnswered before n → IsAnswered after n
    pub mine : IsAnswered after name

  failed-IsAnswered :
      (name n : String) (r : PlanResult W) → IsAnswered r n → IsAnswered (failed name r) n
  failed-IsAnswered name n r (inl h) = inl (is_in-append n name r.errors h)
  failed-IsAnswered name n r (inr h) = inr h

  pub failed-IsDone :
      (name : String) (before r : PlanResult W)
      → IsPlan min_ctx registry r
      → ((n : String) → IsAnswered before n → IsAnswered r n)
      → IsDone name before (failed name r)
  failed-IsDone name before r p k = record {
    sound = record { offers = p.offers; known = p.known; ready = p.ready };
    rest = λ n a. failed-IsAnswered name n r (k n a);
    mine = inl (is_in-last name r.errors);
  }

  pub with_model-IsPlan :
      (name : String) (model : PreparedModel) (r : PlanResult W)
      → IsPlan min_ctx registry r
      → IsPlan min_ctx registry (with_model name model r)
  with_model-IsPlan name model r p = record {
    offers = p.offers;
    known = p.known;
    ready = All-imp _ _ (λ e h. put-keeps name model e.0 r.prepared h) r.feasible p.ready;
  }

  pub with_kept-IsDone :
      (name : String) (model : PreparedModel) (kept : List (Config W × MemoryEstimate))
      (before r : PlanResult W)
      → IsPlan min_ctx registry r
      → ((n : String) → IsAnswered before n → IsAnswered r n)
      → is_some (lookup name registry) ≡ true
      → All (IsPlannedFor min_ctx name) kept
      → IsDone name before (with_kept name kept (with_model name model r))
  with_kept-IsDone name model kept before r p k found h =
      let q = with_model-IsPlan name model r p in
      record {
        sound = record {
          offers = All-put name kept _ r.feasible h q.offers;
          known =
              All-put name kept (λ e. is_some (lookup e.0 registry) ≡ true) r.feasible found
                q.known;
          ready =
              All-put name kept (λ e. is_some (lookup e.0 (put name model r.prepared)) ≡ true)
                r.feasible (rw (lookup-put name model r.prepared) refl) q.ready;
        };
        rest = λ n a. elim (k n a) [
          | inl e ↦ inl e
          | inr e ↦ inr (put-keeps name kept n r.feasible e)
        ];
        mine = inr (rw (lookup-put name kept r.feasible) refl);
      }
