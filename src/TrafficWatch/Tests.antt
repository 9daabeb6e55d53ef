-- ===== src/TrafficWatch/Tests.antt =====
-- A watch of a window of two, on traffic three times as long as calibrated, and the theorems applied.
use polyserve.Base.{◌≡◌, refl, none, some, List, [], ◌∷◌, arith}
use polyserve.Base.Sort.{sort, insert}
use polyserve.Float.Decimals.{Decimal, decimal_float}
use polyserve.TrafficWatch.{
  TrafficWatch, new_watch, Event, begins, ends, asks, reports, first_chunk, append, append_count,
  began, ended, record_usage, record_ttft, should_warn, findings, median, percentile, compared,
  tail_finding, concurrency_finding, enough_data, step, run, warnings,
}
use polyserve.TrafficWatch.Bounds.{Bounded, run-Bounded}

abbrev watch : TrafficWatch Decimal
watch =
    new_watch
      (record {
        prompt = some (decimal_float.decimal 100 0);
        prompt_p90 = none;
        completion = none;
        concurrencies = 4 ∷ [];
      })
      2 1

abbrev events : List (Event Decimal)
events =
    begins
    ∷ begins
    ∷ reports (some 300) none
    ∷ asks
    ∷ reports (some 310) (some 20)
    ∷ ends
    ∷ asks
    ∷ first_chunk (decimal_float.decimal 80 0)
    ∷ reports (some 320) none
    ∷ []

program : Unit {0}
unfolding run warnings step should_warn findings median percentile compared tail_finding
    concurrency_finding enough_data append append_count began ended record_usage record_ttft sort
    insert
program = tt

warnings-events : warnings watch events ≡ 1
unfolding program
warnings-events = refl

window-kept : (run watch events).prompt_tokens ≡ 310 ∷ 320 ∷ []
unfolding program
window-kept = refl

run-Bounded_example : Bounded (run watch events)
run-Bounded_example = run-Bounded events watch (record {
  peak = omega arith;
  total = omega arith;
  prompts = omega arith;
  completions = omega arith;
  concurrencies = omega arith;
  times = omega arith;
})
