-- ===== src/LoadBalancer.antt =====
-- polyserve/layout.py, `create_lb_app`: a front end over identical engines; the one with the fewest
-- outstanding requests gets the next one. `_choose` and `_release` hold a lock, so each is one step.
pub mod Choose
pub mod Balance
pub mod Slots
mod Tests
use polyserve.Base.{
  ℕ, zero, suc, ◌+◌, ◌-◌, ◌%◌, min, Bool, true, false, Option, none, some, List, [], ◌∷◌, map,
  if◌then◌else◌, ◌==◌, ltb, length, get_elem?, modify, replicate,
}

pub record Balancer : Type 0 where
  pub inflight : List ℕ
  pub served : List ℕ
  pub rr : ℕ

-- `none` is the ValueError for no upstreams.
unfoldable pub create : (upstreams : ℕ) → Option Balancer
create zero = none
create (suc n) =
    some (record { inflight = replicate (suc n) 0; served = replicate (suc n) 0; rr = 0 })

-- `min(xs)` of a list that is not empty.
unfoldable pub min_of : List ℕ → ℕ
min_of [] = 0
min_of (x ∷ []) = x
min_of (x ∷ y ∷ rest) = min x (min_of (y ∷ rest))

-- `[i for i, n in enumerate(xs) if n == low]`.
unfoldable pub tied : ℕ → List ℕ → List ℕ
tied low [] = []
tied low (n ∷ ns) = if n == low then 0 ∷ map suc (tied low ns) else map suc (tied low ns)

-- `tied[next(rr) % len(tied)]`. `none` is an index out of range.
unfoldable pub chosen : Balancer → Option ℕ
unfolding min_of tied
chosen b =
    let candidates = tied (min_of b.inflight) b.inflight in
    get_elem? candidates (b.rr % length candidates)

unfoldable pub occupy : ℕ → Balancer → Balancer
occupy i b = record {
  inflight = modify suc i b.inflight;
  served = modify suc i b.served;
  rr = suc b.rr;
}

-- `_choose`: the chosen engine and the new state.
unfoldable pub choose : Balancer → Option (ℕ × Balancer)
unfolding chosen occupy
choose b = elim (chosen b) [ none ↦ none | some i ↦ some (i, occupy i b) ]

-- `max(0, n - 1)` is the subtraction of ℕ.
unfoldable pub release : ℕ → Balancer → Balancer
release i b = record b { inflight = modify (λ n. n - 1) i b.inflight }

-- How the handling of one request ends, after `_choose`.
pub data Ending : Type 0 where
  -- `await request.body()` raises, or the task is cancelled there.
  body_unread : Ending
  -- `client.send` raises an HTTPError: answered with 502.
  unavailable : Ending
  -- An event stream that comes to its end: its background task closes it.
  streamed : Ending
  -- An event stream that breaks midway: the response raises before its background task.
  stream_broken : Ending
  -- A whole answer, read and closed.
  answered : Ending
  -- `up.aread()` raises before `close()`.
  answer_unread : Ending

-- Whether `_release(i)` runs on that path of `forward`.
unfoldable pub releases : Ending → Bool
releases body_unread = false
releases unavailable = true
releases streamed = true
releases stream_broken = false
releases answered = true
releases answer_unread = false

unfoldable pub finish : ℕ → Ending → Balancer → Balancer
unfolding release releases
finish i ending b = if releases ending then release i b else b
