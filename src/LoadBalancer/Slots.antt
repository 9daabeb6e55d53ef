-- ===== src/LoadBalancer/Slots.antt =====
-- The life of requests in `forward`: which of them the balancer counts, at every moment.
use polyserve.Base.{
  ℕ, zero, suc, ◌+◌, ◌-◌, ◌≤◌, ◌<◌, ◌≡◌, refl, ◌∙◌, inl, inr, false, none, some, List, [], ◌∷◌,
  modify, All, All-imp, arith, get_elem?, length, length-modify, if◌then◌else◌, ◌==◌, ==_iff,
  Option-cases, Bool-cases, get_elem?-modify_self, get_elem?-modify_ne, get_elem?-lt, All-get_elem?,
}
use polyserve.LoadBalancer.{Balancer, chosen, occupy, choose, release, releases, finish, Ending}
use polyserve.LoadBalancer.Choose.{chosen-low}

-- The engines of the requests being handled, and of those that ended without a release.
pub record Front : Type 0 where
  pub balancer : Balancer
  pub handled : List ℕ
  pub lost : List ℕ

pub data Event : Type 0 where
  arrives : Event
  -- The k-th request being handled ends.
  ends : (k : ℕ) → Ending → Event

abbrev pub remove_at {ℓ} : {A : Type ℓ} → ℕ → List A → List A
remove_at k [] = []
remove_at zero (x ∷ xs) = xs
remove_at (suc k) (x ∷ xs) = x ∷ remove_at k xs

unfoldable pub step : Front → Event → Front
unfolding choose finish
step s arrives = elim (choose s.balancer) [
  | none ↦ s
  | some (i, b) ↦ record s { balancer = b; handled = i ∷ s.handled }
]
step s (ends k ending) = elim (get_elem? s.handled k) [
  | none ↦ s
  | some i ↦ record {
    balancer = finish i ending s.balancer;
    handled = remove_at k s.handled;
    lost = if releases ending then s.lost else i ∷ s.lost;
  }
]

unfoldable pub run : Front → List Event → Front
run s [] = s
run s (e ∷ es) = run (step s e) es

abbrev pub count : ℕ → List ℕ → ℕ
count i [] = 0
count i (j ∷ js) = if i == j then suc (count i js) else count i js

-- Each engine's count is of the requests that are being handled there, and of the lost ones.
pub record Counts (s : Front) : Type 0 where
  pub exact :
      (i : ℕ)
      → i < length s.balancer.inflight
      → get_elem? s.balancer.inflight i ≡ some (count i s.handled + count i s.lost)
  pub known : All (λ i. i < length s.balancer.inflight) s.handled

count-remove_at :
    (i j k : ℕ) (js : List ℕ)
    → get_elem? js k ≡ some j
    → count i js ≡ (if i == j then suc (count i (remove_at k js)) else count i (remove_at k js))
count-remove_at i j zero [] e = cc
count-remove_at i j (suc k) [] e = cc
count-remove_at i j zero (x ∷ js) e = ground arith
count-remove_at i j (suc k) (x ∷ js) e = ground (arith, count-remove_at i j k js e)

All-remove_at : (P : ℕ → Type 0) (k : ℕ) (js : List ℕ) → All P js → All P (remove_at k js)
All-remove_at P zero [] h = tt
All-remove_at P (suc k) [] h = tt
All-remove_at P zero (x ∷ js) h = h.1
All-remove_at P (suc k) (x ∷ js) h = (h.0, All-remove_at P k js h.1)

modify_count :
    (g : ℕ → ℕ) (i j : ℕ) (ns : List ℕ) {n : ℕ}
    → get_elem? ns j ≡ some n
    → get_elem? (modify g i ns) j ≡ some (if j == i then g n else n)
modify_count g i j ns e = elim (Bool-cases (j == i)) [
  | inl h ↦ let p = (==_iff j i).0 h in rw (h, ← p) (get_elem?-modify_self g j ns e)
  | inr h ↦ rw h (get_elem?-modify_ne g i j ns (λ p. ground arith) ∙ e)
]

known_after :
    (g : ℕ → ℕ) (i : ℕ) (ns js : List ℕ)
    → All (λ j. j < length ns) js
    → All (λ j. j < length (modify g i ns)) js
known_after g i ns js h =
    All-imp _ (λ j. j < length (modify g i ns)) (λ j k. omega (arith, length-modify g i ns)) js h

arrives-Counts :
    (s : Front) (i : ℕ)
    → chosen s.balancer ≡ some i
    → Counts s
    → Counts (record s { balancer = occupy i s.balancer; handled = i ∷ s.handled })
unfolding occupy
arrives-Counts s i e c = record {
  exact = λ j h.
      modify_count suc i j s.balancer.inflight
        (c.exact j (omega (arith, length-modify suc i s.balancer.inflight)))
      ∙ ground arith;
  known = (
    omega (
      arith,
      get_elem?-lt s.balancer.inflight i (chosen-low s.balancer e),
      length-modify suc i s.balancer.inflight,
    ),
    known_after suc i s.balancer.inflight s.handled c.known,
  );
}

ends-Counts :
    (s : Front) (k i : ℕ) (ending : Ending)
    → get_elem? s.handled k ≡ some i
    → Counts s
    → Counts (record {
      balancer = finish i ending s.balancer;
      handled = remove_at k s.handled;
      lost = if releases ending then s.lost else i ∷ s.lost;
    })
unfolding finish
ends-Counts s k i ending e c = elim (Bool-cases (releases ending)) [
  | inl r ↦
      rw (r, finish)
        (record {
          exact = λ j h.
              modify_count (λ n. n - 1) i j s.balancer.inflight
                (c.exact j (omega (arith, length-modify (λ n. n - 1) i s.balancer.inflight)))
              ∙ ground (arith, count-remove_at j i k s.handled e);
          known =
              known_after (λ n. n - 1) i s.balancer.inflight _
                (All-remove_at _ k s.handled c.known);
        })
  | inr r ↦
      rw (r, finish)
        (record {
          exact = λ j h. c.exact j h ∙ ground (arith, count-remove_at j i k s.handled e);
          known = All-remove_at _ k s.handled c.known;
        })
]

step-Counts : (s : Front) (e : Event) → Counts s → Counts (step s e)
unfolding step choose
step-Counts s arrives c = elim (Option-cases (chosen s.balancer)) [
  | inl e ↦ rw (e, step) c
  | inr (i, e) ↦ rw (e, step) (arrives-Counts s i e c)
]
step-Counts s (ends k ending) c = elim (Option-cases (get_elem? s.handled k)) [
  | inl e ↦ rw (e, step) c
  | inr (i, e) ↦ rw (e, step) (ends-Counts s k i ending e c)
]

-- At every moment each engine's count is the number of requests being handled there, plus those that
-- were lost there.
pub run-Counts : (s : Front) (es : List Event) → Counts s → Counts (run s es)
unfolding run
run-Counts s [] c = c
run-Counts s (e ∷ es) c = run-Counts (step s e) es (step-Counts s e c)

count-step : (i : ℕ) (s : Front) (e : Event) → count i s.lost ≤ count i (step s e).lost
unfolding step
count-step i s arrives = ground arith
count-step i s (ends k ending) = ground arith

count-run : (i : ℕ) (s : Front) (es : List Event) → count i s.lost ≤ count i (run s es).lost
unfolding run
count-run i s [] = omega arith
count-run i s (e ∷ es) = omega (arith, count-step i s e, count-run i (step s e) es)

length-inflight_step :
    (s : Front) (e : Event) → length (step s e).balancer.inflight ≡ length s.balancer.inflight
unfolding step choose occupy finish release
length-inflight_step s arrives = elim (Option-cases (chosen s.balancer)) [
  | inl e ↦ rw (e, step)
  | inr (i, e) ↦ rw (e, step) (length-modify suc i s.balancer.inflight)
]
length-inflight_step s (ends k ending) = elim (Option-cases (get_elem? s.handled k)) [
  | inl e ↦ rw (e, step)
  | inr (i, e) ↦ rw (e, step) (ground (arith, length-modify (λ n. n - 1) i s.balancer.inflight))
]

length-inflight_run :
    (s : Front) (es : List Event) → length (run s es).balancer.inflight ≡ length s.balancer.inflight
unfolding run
length-inflight_run s [] = refl
length-inflight_run s (e ∷ es) = length-inflight_run (step s e) es ∙ length-inflight_step s e

lost_now :
    (s : Front) (k i : ℕ) (ending : Ending)
    → get_elem? s.handled k ≡ some i
    → releases ending ≡ false
    → 0 < count i (step s (ends k ending)).lost
unfolding step
lost_now s k i ending e r = rw (e, step) (rw r (ground arith))

-- Once a request ends with no release (its body or its answer cannot be read, or its stream breaks
-- midway), its engine is counted as busy for ever, whatever happens after.
pub busy_for_ever :
    (s : Front) (k i : ℕ) (ending : Ending) (es : List Event)
    → Counts s
    → get_elem? s.handled k ≡ some i
    → releases ending ≡ false
    → (n : ℕ) × (get_elem? (run (step s (ends k ending)) es).balancer.inflight i ≡ some n) × (0 < n)
busy_for_ever s k i ending es c e r =
    let s' = step s (ends k ending) in
    let last = run s' es in
    let counts = run-Counts s' es (step-Counts s (ends k ending) c) in
    (
      count i last.handled + count i last.lost,
      counts.exact i (
          omega (
            arith,
            length-inflight_run s' es,
            length-inflight_step s (ends k ending),
            All-get_elem? _ s.handled k c.known e,
          )),
      omega (arith, lost_now s k i ending e r, count-run i s' es),
    )
