-- ===== src/Layouts/Start.antt =====
-- About `launch_replicas` and `ReplicaSupervisor.start` of polyserve/layout.py.
use polyserve.Base.{◌≡◌, ◌≢◌, Bool, true, false, Option, none, some, List, ◌∷◌, ◌++◌, map, All}
use polyserve.Layouts.{raised, launched, Launched}

-- The start succeeds and stops none of the engines, or it does not and stops every one that it started.
pub data AllOrNone : Launched → Type 0 where
  up : (l : Launched) → l.ending ≡ launched → All (λ r. r ≡ true) l.unstopped → AllOrNone l
  down : (l : Launched) → l.ending ≢ launched → All (λ r. r ≡ false) l.unstopped → AllOrNone l

abbrev pub both : List Bool → List (Option Bool)
both rs = map (λ r. some r) rs

-- A start raised after some that did not: those engines are not stopped, whether they get ready or not.
pub record Stranded (starts : List (Option Bool)) (l : Launched) : Type 0 where
  pub before : List Bool
  pub rest : List (Option Bool)
  pub at : starts ≡ both before ++ none ∷ rest
  pub raises : l.ending ≡ raised
  pub left : l.unstopped ≡ map (λ r. true) before
