-- ===== src/TrafficWatch.antt =====
-- polyserve/drift.py: whether live traffic still looks like the traffic that a profile was tuned on.
-- A usage block is given as it stands after the JSON was read, an entry that is missing or no number
-- as `none`. A finding is kept as its numbers; its text is not modelled.
pub mod Bounds
mod Tests
use polyserve.Base.{
  ℕ, zero, suc, ◌-◌, ◌/◌, ◌%◌, min, max, Bool, true, false, not, ◌&&◌, ◌||◌, Option, none, some,
  List, [], ◌∷◌, ◌++◌, map, length, drop, get_elem?, if◌then◌else◌, ltb, leb, ◌==◌, is_some,
}
use polyserve.Base.Sort.{sort}
use polyserve.Float.{Float, nought, from_ℕ, at_most, below, same, larger}

-- What the profile was calibrated on.
pub record Calibrated (W : Type 0) : Type 0 where
  pub prompt : Option W
  pub prompt_p90 : Option W
  pub completion : Option W
  pub concurrencies : List ℕ

pub record TrafficWatch (W : Type 0) : Type 0 where
  pub calibrated : Calibrated W
  pub window : ℕ
  pub min_requests : ℕ
  pub requests : ℕ
  pub in_flight : ℕ
  pub peak_in_flight : ℕ
  pub prompt_tokens : List ℕ
  pub completion_tokens : List ℕ
  pub concurrency : List ℕ
  pub ttft_ms : List W
  pub warned : Bool

abbrev pub new_watch : {W : Type 0} → Calibrated W → ℕ → ℕ → TrafficWatch W
new_watch calibrated window min_requests = record {
  calibrated = calibrated;
  window = window;
  min_requests = min_requests;
  requests = 0;
  in_flight = 0;
  peak_in_flight = 0;
  prompt_tokens = [];
  completion_tokens = [];
  concurrency = [];
  ttft_ms = [];
  warned = false;
}

-- `deque(maxlen=…).append`: a full window loses its oldest entry.
unfoldable pub append {ℓ} : {A : Type ℓ} → ℕ → A → List A → List A
append maxlen a xs = let ys = xs ++ a ∷ [] in drop (length ys - maxlen) ys

unfoldable pub append_count : ℕ → Option ℕ → List ℕ → List ℕ
append_count maxlen none xs = xs
append_count maxlen (some n) xs = if ltb 0 n then append maxlen n xs else xs

-- `ratio` is how many times the calibrated value the seen one is.
pub data Finding (W : Type 0) : Type 0 where
  prompts_differ answers_differ : (ratio seen : W) → Finding W
  long_prompts_longer : (ratio p90 : W) → Finding W
  more_concurrent : (typical : W) → Finding W

abbrev top_of : List ℕ → ℕ
top_of [] = 0
top_of (c ∷ cs) = max c (top_of cs)

pub data Event (W : Type 0) : Type 0 where
  begins ends asks : Event W
  -- The usage block of a reply, streamed or not.
  reports : (prompt_tokens completion_tokens : Option ℕ) → Event W
  first_chunk : (ms : W) → Event W

module _ {W : Type 0} ⦃f : Float W⦄ where
  abbrev nth : ℕ → List ℕ → W
  nth i xs = elim (get_elem? xs i) [ none ↦ nought | some n ↦ from_ℕ n ]

  unfoldable pub median : List ℕ → Option W
  median [] = none
  median (x ∷ xs) =
      let ordered = sort ltb (x ∷ xs) in
      let mid = length ordered / 2 in
      if length ordered % 2 == 1
      then some (nth mid ordered)
      else some (f.div (f.add (nth (mid - 1) ordered) (nth mid ordered)) (from_ℕ 2))

  unfoldable pub percentile : List ℕ → W → Option W
  percentile [] pct = none
  percentile (x ∷ xs) pct =
      let ordered = sort ltb (x ∷ xs) in
      let last = length ordered - 1 in
      some (nth (min last (f.nearest (f.mul (f.div pct (from_ℕ 100)) (from_ℕ last)))) ordered)

  abbrev wider_than : W
  wider_than = f.decimal 15 1

  -- A value that is there and is not 0.
  abbrev given : Option W → Option W
  given none = none
  given (some x) = if same x nought then none else some x

  unfoldable pub compared : (W → W → Finding W) → Option W → Option W → List (Finding W)
  compared finding none calibrated = []
  compared finding (some seen) calibrated = elim (given calibrated) [
    | none ↦ []
    | some c ↦
        let ratio = f.div seen c in
        if at_most wider_than ratio || at_most ratio (f.div (from_ℕ 1) wider_than)
        then finding ratio seen ∷ []
        else []
  ]

  -- The tail of the prompts, when their median said nothing.
  unfoldable pub tail_finding : Option W → Option W → List (Finding W)
  tail_finding none calibrated = []
  tail_finding (some seen) calibrated = elim (given calibrated) [
    | none ↦ []
    | some c ↦
        let ratio = f.div seen c in
        if at_most wider_than ratio then long_prompts_longer ratio seen ∷ [] else []
  ]

  unfoldable pub concurrency_finding : Option W → List ℕ → List (Finding W)
  concurrency_finding none levels = []
  concurrency_finding (some typical) [] = []
  concurrency_finding (some typical) (c ∷ cs) =
      if below (from_ℕ (top_of (c ∷ cs))) typical then more_concurrent typical ∷ [] else []

  abbrev is_nil : List (Finding W) → Bool
  is_nil [] = true
  is_nil (x ∷ xs) = false

  unfoldable pub enough_data : TrafficWatch W → Bool
  enough_data w = leb w.min_requests w.requests

  unfoldable pub findings : TrafficWatch W → List (Finding W)
  findings w =
      if enough_data w
      then (let prompts = compared prompts_differ (median w.prompt_tokens) w.calibrated.prompt in
          prompts
          ++ (compared answers_differ (median w.completion_tokens) w.calibrated.completion
              ++ ((if is_nil prompts
                    then tail_finding (given (percentile w.prompt_tokens (from_ℕ 90)))
                        w.calibrated.prompt_p90
                    else [])
                  ++ concurrency_finding (median w.concurrency) w.calibrated.concurrencies)))
      else []

  unfoldable pub began : TrafficWatch W → TrafficWatch W
  began w =
      let n = suc w.in_flight in
      record w {
        requests = suc w.requests;
        in_flight = n;
        peak_in_flight = max w.peak_in_flight n;
        concurrency = append w.window n w.concurrency;
      }

  -- `max(0, n - 1)` is the subtraction of ℕ.
  unfoldable pub ended : TrafficWatch W → TrafficWatch W
  ended w = record w { in_flight = w.in_flight - 1 }

  unfoldable pub record_usage : Option ℕ → Option ℕ → TrafficWatch W → TrafficWatch W
  record_usage p c w = record w {
    prompt_tokens = append_count w.window p w.prompt_tokens;
    completion_tokens = append_count w.window c w.completion_tokens;
  }

  unfoldable pub record_ttft : W → TrafficWatch W → TrafficWatch W
  record_ttft ms w =
      if at_most nought ms then record w { ttft_ms = append w.window ms w.ttft_ms } else w

  unfoldable pub should_warn : TrafficWatch W → Bool × TrafficWatch W
  should_warn w =
      if w.warned || is_nil (findings w) then (false, w) else (true, record w { warned = true })

  -- Whether an event makes the watch warn, and the watch after it.
  unfoldable pub step : TrafficWatch W → Event W → Bool × TrafficWatch W
  step w begins = (false, began w)
  step w ends = (false, ended w)
  step w asks = should_warn w
  step w (reports p c) = (false, record_usage p c w)
  step w (first_chunk ms) = (false, record_ttft ms w)

  unfoldable pub run : TrafficWatch W → List (Event W) → TrafficWatch W
  run w [] = w
  run w (e ∷ es) = run (step w e).1 es

  -- How often the watch warns in a run.
  unfoldable pub warnings : TrafficWatch W → List (Event W) → ℕ
  warnings w [] = 0
  warnings w (e ∷ es) =
      let rest = warnings (step w e).1 es in if (step w e).0 then suc rest else rest
