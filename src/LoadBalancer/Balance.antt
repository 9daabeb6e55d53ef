-- ===== src/LoadBalancer/Balance.antt =====
-- Choices alone keep the engines' outstanding requests within one of each other.
use polyserve.Base.{
  ℕ, zero, suc, ◌+◌, ◌≤◌, ◌<◌, ◌≡◌, refl, Option, none, some, List, [], ◌∷◌, modify, All, All-imp,
  arith, get_elem?, length, length-modify,
}
use polyserve.LoadBalancer.{Balancer, min_of, occupy, choose}
use polyserve.LoadBalancer.Choose.{min_of-le, chosen-low, chosen_total, choose-eq}

-- Every count lies between `low` and `low + 1`.
abbrev pub Between : ℕ → List ℕ → Type 0
Between low = All (λ n. (low ≤ n) × (n ≤ low + 1))

abbrev pub IsBalanced : Balancer → Type 0
IsBalanced b = All (λ n. n ≤ min_of b.inflight + 1) b.inflight

low-le-min : (low : ℕ) (n : ℕ) (ns : List ℕ) → Between low (n ∷ ns) → low ≤ min_of (n ∷ ns)
unfolding min_of
low-le-min low n [] h = h.0.0
low-le-min low n (m ∷ ns) h = omega (arith, low-le-min low m ns h.1)

Between→balanced : (low : ℕ) (ns : List ℕ) → Between low ns → All (λ n. n ≤ min_of ns + 1) ns
Between→balanced low [] h = tt
Between→balanced low (n ∷ ns) h =
    All-imp _ (λ m. m ≤ min_of (n ∷ ns) + 1) (λ m k. omega (arith, low-le-min low n ns h)) (n ∷ ns)
      h

modify-Between :
    (low i : ℕ) (ns : List ℕ)
    → get_elem? ns i ≡ some low
    → Between low ns
    → Between low (modify suc i ns)
modify-Between low zero [] e h = tt
modify-Between low (suc i) [] e h = tt
modify-Between low zero (n ∷ ns) e h = (ground arith, h.1)
modify-Between low (suc i) (n ∷ ns) e h = (h.0, modify-Between low i ns e h.1)

both : (low : ℕ) (ns : List ℕ) → All (λ n. low ≤ n) ns → All (λ n. n ≤ low + 1) ns → Between low ns
both low [] h k = tt
both low (n ∷ ns) h k = ((h.0, k.0), both low ns h.1 k.1)

occupy-IsBalanced :
    (b : Balancer) (i : ℕ)
    → get_elem? b.inflight i ≡ some (min_of b.inflight)
    → IsBalanced b
    → IsBalanced (occupy i b)
unfolding occupy
occupy-IsBalanced b i e h =
    Between→balanced (min_of b.inflight) _ (
      modify-Between (min_of b.inflight) i b.inflight e
        (both _ b.inflight (min_of-le b.inflight) h))

-- `k` requests in a row, none of which has ended yet.
unfoldable pub choose_times : ℕ → Balancer → Option Balancer
choose_times zero b = some b
choose_times (suc k) b = elim (choose b) [ none ↦ none | some (i, b') ↦ choose_times k b' ]

abbrev pub sum : List ℕ → ℕ
sum [] = 0
sum (n ∷ ns) = n + sum ns

sum-modify-suc :
    (i : ℕ) (ns : List ℕ) {n : ℕ} → get_elem? ns i ≡ some n → sum (modify suc i ns) ≡ sum ns + 1
sum-modify-suc zero [] e = cc
sum-modify-suc (suc i) [] e = cc
sum-modify-suc zero (n ∷ ns) e = omega arith
sum-modify-suc (suc i) (n ∷ ns) e = omega (arith, sum-modify-suc i ns e)

-- What `k` more requests leave: every one has a place, and no engine has two more than another.
abbrev pub Spreads : ℕ → Balancer → Balancer → Type 0
Spreads k b b' = IsBalanced b' × (sum b'.inflight ≡ sum b.inflight + k)

-- From a balanced state any number of requests is taken, each is counted once, and the state stays
-- balanced: no engine has more than one request above the least loaded one.
pub choose_times-Spreads :
    (k : ℕ) (b : Balancer)
    → 0 < length b.inflight
    → IsBalanced b
    → (b' : Balancer) × (choose_times k b ≡ some b') × Spreads k b b'
unfolding choose_times occupy
choose_times-Spreads zero b pos h = (b, refl, (h, omega arith))
choose_times-Spreads (suc k) b pos h =
    let (i, e) = chosen_total b pos in
    let (b', rest, (balanced, total)) =
      choose_times-Spreads k (occupy i b) (omega (arith, length-modify suc i b.inflight))
        (occupy-IsBalanced b i (chosen-low b e) h) in
    (
      b',
      rw (choose-eq b e, choose_times) rest,
      (balanced, omega (arith, total, sum-modify-suc i b.inflight (chosen-low b e))),
    )
