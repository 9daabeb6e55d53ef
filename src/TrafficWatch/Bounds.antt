-- ===== src/TrafficWatch/Bounds.antt =====
-- The counters and windows of the watch stay within bounds, and it warns at most once.
use polyserve.Base.{
  ℕ, zero, suc, ◌-◌, ◌≤◌, ◌≡◌, refl, inl, inr, true, false, Option, none, some, List, [], ◌∷◌, ◌++◌,
  length, drop, Bool-cases, arith,
}
use polyserve.Float.{Float}
use polyserve.TrafficWatch.{
  TrafficWatch, Event, begins, ends, asks, reports, first_chunk, append, append_count, began, ended,
  record_usage, record_ttft, should_warn, step, run, warnings,
}

length-drop {ℓ} : {A : Type ℓ} (n : ℕ) (xs : List A) → length (drop n xs) ≡ length xs - n
length-drop zero xs = omega arith
length-drop (suc n) [] = omega arith
length-drop (suc n) (x ∷ xs) = omega (arith, length-drop n xs)

length-append_window {ℓ} :
    {A : Type ℓ} (maxlen : ℕ) (a : A) (xs : List A) → length (append maxlen a xs) ≤ maxlen
unfolding append
length-append_window maxlen a xs =
    omega (arith, length-drop (length (xs ++ a ∷ []) - maxlen) (xs ++ a ∷ []))

length-append_count :
    (maxlen : ℕ) (n : Option ℕ) (xs : List ℕ)
    → length xs ≤ maxlen
    → length (append_count maxlen n xs) ≤ maxlen
unfolding append_count
length-append_count maxlen none xs h = h
length-append_count maxlen (some n) xs h = ground (arith, length-append_window maxlen n xs)

module _ {W : Type 0} ⦃f : Float W⦄ where
  pub record Bounded (w : TrafficWatch W) : Type 0 where
    pub peak : w.in_flight ≤ w.peak_in_flight
    pub total : w.peak_in_flight ≤ w.requests
    pub prompts : length w.prompt_tokens ≤ w.window
    pub completions : length w.completion_tokens ≤ w.window
    pub concurrencies : length w.concurrency ≤ w.window
    pub times : length w.ttft_ms ≤ w.window

  step-Bounded : (e : Event W) (w : TrafficWatch W) → Bounded w → Bounded (step w e).1
  unfolding step began ended record_usage record_ttft should_warn
  step-Bounded begins w k = record {
    peak = omega arith;
    total = omega (arith, k.peak, k.total);
    prompts = k.prompts;
    completions = k.completions;
    concurrencies = length-append_window w.window (suc w.in_flight) w.concurrency;
    times = k.times;
  }
  step-Bounded ends w k = record {
    peak = omega (arith, k.peak);
    total = k.total;
    prompts = k.prompts;
    completions = k.completions;
    concurrencies = k.concurrencies;
    times = k.times;
  }
  step-Bounded asks w k = record {
    peak = ground (arith, k.peak);
    total = ground (arith, k.total);
    prompts = ground (arith, k.prompts);
    completions = ground (arith, k.completions);
    concurrencies = ground (arith, k.concurrencies);
    times = ground (arith, k.times);
  }
  step-Bounded (reports p c) w k = record {
    peak = k.peak;
    total = k.total;
    prompts = length-append_count w.window p w.prompt_tokens k.prompts;
    completions = length-append_count w.window c w.completion_tokens k.completions;
    concurrencies = k.concurrencies;
    times = k.times;
  }
  step-Bounded (first_chunk ms) w k = record {
    peak = ground (arith, k.peak);
    total = ground (arith, k.total);
    prompts = ground (arith, k.prompts);
    completions = ground (arith, k.completions);
    concurrencies = ground (arith, k.concurrencies);
    times = ground (arith, k.times, length-append_window w.window ms w.ttft_ms);
  }

  -- Whatever the traffic, the requests in flight are at most the peak and the peak at most the requests
  -- seen, and no window holds more than its size.
  pub run-Bounded : (es : List (Event W)) (w : TrafficWatch W) → Bounded w → Bounded (run w es)
  unfolding run
  run-Bounded [] w k = k
  run-Bounded (e ∷ es) w k = run-Bounded es (step w e).1 (step-Bounded e w k)

  -- A step warns only if none warned before, and remembers that it did.
  step_warns :
      (e : Event W) (w : TrafficWatch W)
      → ((step w e).0 ≡ true → (w.warned ≡ false) × ((step w e).1.warned ≡ true))
        × (w.warned ≡ true → (step w e).1.warned ≡ true)
  unfolding step began ended record_usage record_ttft should_warn
  step_warns begins w = (λ h. cc, λ h. h)
  step_warns ends w = (λ h. cc, λ h. h)
  step_warns asks w = (λ h. (ground arith, ground arith), λ h. ground arith)
  step_warns (reports p c) w = (λ h. cc, λ h. h)
  step_warns (first_chunk ms) w = (λ h. cc, λ h. ground arith)

  none_after : (es : List (Event W)) (w : TrafficWatch W) → w.warned ≡ true → warnings w es ≡ 0
  unfolding warnings
  none_after [] w h = refl
  none_after (e ∷ es) w h =
      let (once, stays) = step_warns e w in
      let rest = none_after es (step w e).1 (stays h) in
      elim (Bool-cases (step w e).0) [
        | inl warns ↦ absurd (let p = once warns in ground arith)
        | inr quiet ↦ rw (quiet, warnings) rest
      ]

  -- The operator is told of drift at most once, however the traffic goes on.
  warnings-le : (es : List (Event W)) (w : TrafficWatch W) → warnings w es ≤ 1
  unfolding warnings
  warnings-le [] w = omega arith
  warnings-le (e ∷ es) w = elim (Bool-cases (step w e).0) [
    | inl warns ↦
        let now = (step_warns e w).0 warns in
        let rest = none_after es (step w e).1 now.1 in rw (warns, rest, warnings) (omega arith)
    | inr quiet ↦ rw (quiet, warnings) (warnings-le es (step w e).1)
  ]
