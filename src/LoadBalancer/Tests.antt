-- ===== src/LoadBalancer/Tests.antt =====
-- Three engines, and the theorems about the balancer applied there.
use polyserve.Base.{
  ℕ, zero, suc, ◌+◌, ◌≤◌, ◌<◌, ◌≡◌, refl, ◌≢◌, some, [], ◌∷◌, All, arith, get_elem?,
}
use polyserve.LoadBalancer.{
  Balancer, create, chosen, min_of, choose, answer_unread, answered, releases,
}
use polyserve.LoadBalancer.Choose.{choose_least}
use polyserve.LoadBalancer.Balance.{choose_times, choose_times-Spreads, Spreads}
use polyserve.LoadBalancer.Slots.{
  Front, arrives, ends, step, run, count, Counts, run-Counts, busy_for_ever,
}

abbrev idle : Balancer
idle = record { inflight = 0 ∷ 0 ∷ 0 ∷ []; served = 0 ∷ 0 ∷ 0 ∷ []; rr = 0 }

abbrev uneven : Balancer
uneven = record { inflight = 2 ∷ 1 ∷ 1 ∷ []; served = 5 ∷ 4 ∷ 4 ∷ []; rr = 13 }

idle_created : create 3 ≡ some idle
unfolding create
idle_created = refl

-- The second of the two tied engines.
uneven-chosen : chosen uneven ≡ some 2
unfolding chosen
uneven-chosen = refl

choose_least_example :
    (i : ℕ) × (b' : Balancer) × (choose uneven ≡ some (i, b'))
    × (get_elem? uneven.inflight i ≡ some (min_of uneven.inflight))
    × All (λ n. min_of uneven.inflight ≤ n) uneven.inflight
    × (get_elem? b'.inflight i ≡ some (suc (min_of uneven.inflight)))
    × ((j : ℕ) → i ≢ j → get_elem? b'.inflight j ≡ get_elem? uneven.inflight j)
choose_least_example = choose_least uneven (omega arith)

choose_times-Spreads_example :
    (b : Balancer) × (choose_times 7 uneven ≡ some b) × Spreads 7 uneven b
unfolding min_of
choose_times-Spreads_example = choose_times-Spreads 7 uneven (omega arith) (omega arith)

abbrev front : Front
front = record {
  balancer = record idle { inflight = 1 ∷ 0 ∷ 1 ∷ [] };
  handled = 2 ∷ 0 ∷ [];
  lost = [];
}

front_exact : (i : ℕ) → i < 3 → get_elem? (1 ∷ 0 ∷ 1 ∷ []) i ≡ some (count i (2 ∷ 0 ∷ []) + 0)
front_exact zero h = refl
front_exact (suc zero) h = refl
front_exact (suc (suc zero)) h = refl
front_exact (suc (suc (suc i))) h = absurd (omega arith)

front-Counts : Counts front
front-Counts = record { exact = front_exact; known = omega arith }

run-Counts_example : Counts (run front (arrives ∷ ends 1 answered ∷ arrives ∷ []))
run-Counts_example = run-Counts front (arrives ∷ ends 1 answered ∷ arrives ∷ []) front-Counts

busy_for_ever_example :
    (n : ℕ) × (get_elem?
        (run (step front (ends 0 answer_unread)) (ends 0 answered ∷ [])).balancer.inflight
        2
      ≡ some n)
    × (0 < n)
unfolding releases
busy_for_ever_example =
    busy_for_ever front 0 2 answer_unread (ends 0 answered ∷ []) front-Counts refl refl
