-- ===== src/Stages/Triples.antt =====
-- The form of what a stage guarantees from a state that meets the invariant (polyserve/calibrate/search.py,
-- `StagedSearch`), and how it composes.
use polyserve.Base.{
  Bool, true, false, ℕ, String, ◌≡◌, refl, sym, ◌∙◌, ap, subst, true, some, List, [], ◌∷◌, All,
  ◌++◌, Memᴰ, Memᴰ-append_left, is_some, if◌then◌else◌,
}
use mathlib.Core.List.{append-nil, append_assoc}
use polyserve.Float.{Float}
use polyserve.Models.{Config, TrialResult, ok, lookup}
use polyserve.Objectives.Score.{levels}
use polyserve.Search.{Search}
use polyserve.Search.Retry.{ends_within}
use polyserve.Stages.{Action, get, pure, modify, ◌>>=◌, ◌>>◌, for_each}
use polyserve.Stages.Groups.{group_of}

pub every : {A : Type 0} (xs : List A) → All (λ x. Unit {0}) xs
every [] = tt
every (x ∷ xs) = (tt, every xs)

-- A successful trial has a time to first token at each of its levels.
module _ {W : Type 0} ⦃f : Float W⦄ where
  pub record IsTimed (r : TrialResult W) : Type 0 where
    pub timed : ok r ≡ true → All (λ m. is_some m.ttft_ms ≡ true) (levels r)

module _ {W : Type 0} ⦃f : Float W⦄ (n : ℕ) (feasible : List (Config W)) where
  -- A configuration of a planned engine and precision, whose retries end.
  pub record IsSound (c : Config W) : Type 0 where
    pub ends : ends_within n c.gpu_memory_utilization ≡ true
    pub planned : (d : Config W) × Memᴰ d feasible × (group_of d ≡ group_of c)

  abbrev pub IsFine : TrialResult W → Type 0
  IsFine r = IsSound r.config × IsTimed r

module _ {W X : Type 0} ⦃f : Float W⦄ (n : ℕ) (feasible : List (Config W)) where
  pub record Holds (s : Search W X) : Type 0 where
    pub fine : All (IsFine n feasible) s.results
    pub memo : (k : String) (r : TrialResult W) → lookup k s.done ≡ some r → Memᴰ r s.results

  -- The trials of `t` are those of `s` and some after them.
  abbrev pub Appends : Search W X → Search W X → Type 0
  Appends s t = (added : List (TrialResult W)) × (t.results ≡ s.results ++ added)

  pub Appends-same : (s t : Search W X) → t.results ≡ s.results → Appends s t
  Appends-same s t e = ([], e ∙ sym (append-nil s.results))

  abbrev pub Appends-trans : (s t u : Search W X) → Appends s t → Appends t u → Appends s u
  Appends-trans s t u (xs, e) (ys, g) =
      (xs ++ ys, g ∙ (ap (λ l. l ++ ys) e ∙ append_assoc s.results xs ys))

  pub grows :
      (s t : Search W X) → Appends s t → (r : TrialResult W) → Memᴰ r s.results → Memᴰ r t.results
  grows s t (xs, e) r m = subst (Memᴰ r) (sym e) (Memᴰ-append_left s.results xs m)

  pub record Extends (s t : Search W X) : Type 0 where
    pub holds : Holds t
    pub appends : Appends s t

  -- The action comes to a result from `s`, which extends `s` and meets `Q`.
  pub record Ensures {A : Type 0} (act : Action (Search W X) A) (s : Search W X)
      (Q : A → Search W X → Type 0) : Type 0 where
    pub value : A
    pub after : Search W X
    pub runs : act s ≡ some (value, after)
    pub extends : Extends s after
    pub result : Q value after

  pub Extends-refl : (s : Search W X) → Holds s → Extends s s
  Extends-refl s h = record { holds = h; appends = Appends-same s s refl }

  pub Extends-trans : (s t u : Search W X) → Extends s t → Extends t u → Extends s u
  Extends-trans s t u a b = record {
    holds = b.holds;
    appends = Appends-trans s t u a.appends b.appends;
  }

  pub pure-Ensures :
      {A : Type 0} (a : A) (s : Search W X) (Q : A → Search W X → Type 0)
      → Holds s
      → Q a s
      → Ensures (pure a) s Q
  pure-Ensures a s Q h q = record {
    value = a;
    after = s;
    runs = refl;
    extends = Extends-refl s h;
    result = q;
  }

  pub bind-Ensures :
      {A B : Type 0} (m : Action (Search W X) A) (k : A → Action (Search W X) B) (s : Search W X)
      (Q : A → Search W X → Type 0) (R : B → Search W X → Type 0)
      → Ensures m s Q
      → ((a : A) (t : Search W X) → Extends s t → Q a t → Ensures (k a) t R)
      → Ensures (m >>= k) s R
  unfolding ◌>>=◌
  bind-Ensures m k s Q R e next =
      let rest = next e.value e.after e.extends e.result in
      record {
        value = rest.value;
        after = rest.after;
        runs = rw (e.runs, ◌>>=◌) rest.runs;
        extends = Extends-trans s e.after rest.after e.extends rest.extends;
        result = rest.result;
      }

  -- A step that changes neither the trials nor what is remembered.
  pub modify-Ensures :
      (g : Search W X → Search W X) (s : Search W X)
      → (g s).results ≡ s.results
      → (g s).done ≡ s.done
      → Holds s
      → Ensures (modify g) s (λ u t. Unit)
  modify-Ensures g s r d h = record {
    value = tt;
    after = g s;
    runs = refl;
    extends = record {
      holds = record {
        fine = subst (All (IsFine n feasible)) (sym r) h.fine;
        memo = λ k x e. subst (Memᴰ x) (sym r) (h.memo k x (ap (lookup k) (sym d) ∙ e));
      };
      appends = Appends-same s (g s) r;
    };
    result = tt;
  }

  pub each-Ensures :
      {A : Type 0} (P : A → Type 0) (body : A → Action (Search W X) (Unit {0})) (xs : List A)
      (s : Search W X)
      → All P xs
      → ((x : A) (t : Search W X) → P x → Holds t → Ensures (body x) t (λ u v. Unit))
      → Holds s
      → Ensures (for_each body xs) s (λ u t. Unit)
  unfolding for_each
  each-Ensures P body [] s all each h = pure-Ensures tt s (λ u t. Unit) h tt
  each-Ensures P body (x ∷ xs) s all each h =
      let first = each x s all.0 h in
      let rest = each-Ensures P body xs first.after all.1 each first.extends.holds in
      record {
        value = rest.value;
        after = rest.after;
        runs = rw (first.runs, for_each) rest.runs;
        extends = Extends-trans s first.after rest.after first.extends rest.extends;
        result = tt;
      }

  pub get-Ensures :
      {B : Type 0} (k : Search W X → Action (Search W X) B) (s : Search W X)
      (R : B → Search W X → Type 0)
      → Ensures (k s) s R
      → Ensures (get >>= k) s R
  unfolding ◌>>=◌
  get-Ensures k s R e = record {
    value = e.value;
    after = e.after;
    runs = e.runs;
    extends = e.extends;
    result = e.result;
  }

  -- An action whose result is not looked at.
  abbrev pub Goes : Action (Search W X) (Unit {0}) → Search W X → Type 0
  Goes act s = Ensures act s (λ u t. Unit)

  -- What holds of the result alone.
  abbrev pub Yields : {A : Type 0} → (A → Type 0) → Action (Search W X) A → Search W X → Type 0
  Yields P act s = Ensures act s (λ a t. P a)

  pub then-Ensures :
      {B : Type 0} (m : Action (Search W X) (Unit {0})) (k : Action (Search W X) B) (s : Search W X)
      (R : B → Search W X → Type 0)
      → Goes m s
      → ((t : Search W X) → Holds t → Ensures k t R)
      → Ensures (m >> k) s R
  then-Ensures m k s R e next =
      bind-Ensures m (λ u. k) s (λ u t. Unit) R e (λ u t x q. next t x.holds)

  pub bind-Yields :
      {A B : Type 0} (P : A → Type 0) (Q : B → Type 0) (m : Action (Search W X) A)
      (k : A → Action (Search W X) B) (s : Search W X)
      → Yields P m s
      → ((a : A) (t : Search W X) → P a → Holds t → Yields Q (k a) t)
      → Yields Q (m >>= k) s
  bind-Yields P Q m k s e next =
      bind-Ensures m k s (λ a t. P a) (λ b t. Q b) e (λ a t x p. next a t p x.holds)

  pub if-Ensures :
      {A : Type 0} (b : Bool) (m k : Action (Search W X) A) (s : Search W X)
      (R : A → Search W X → Type 0)
      → (b ≡ true → Ensures m s R)
      → (b ≡ false → Ensures k s R)
      → Ensures (if b then m else k) s R
  if-Ensures true m k s R e d = e refl
  if-Ensures false m k s R e d = d refl

  pub each-Goes :
      {A : Type 0} (body : A → Action (Search W X) (Unit {0})) (xs : List A) (s : Search W X)
      → ((x : A) (t : Search W X) → Holds t → Goes (body x) t)
      → Holds s
      → Goes (for_each body xs) s
  each-Goes body xs s each h = each-Ensures (λ x. Unit) body xs s (every xs) (λ x t u. each x t) h
