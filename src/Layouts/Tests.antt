-- ===== src/Layouts/Tests.antt =====
-- Two replicas, the second of which raises, and the shapes of an engine on two cards.
use polyserve.Base.{true, Bool, Option, none, some, List, [], ◌∷◌, All, arith}
use polyserve.Float.Decimals.{decimal_float, Decimal-IsOrdered}
use polyserve.Models.Samples.{plain}
use polyserve.Layouts.{tp_candidates}
use polyserve.Layouts.Shapes.{IsShape, tp_candidates-AreShapes}

abbrev second_raises : List (Option Bool)
second_raises = some true ∷ none ∷ []

tp_candidates-AreShapes_example :
    All (IsShape 2) (tp_candidates (record plain { prefill_budget = some 96 }) 2)
tp_candidates-AreShapes_example =
    tp_candidates-AreShapes Decimal-IsOrdered (record plain { prefill_budget = some 96 }) 2
      (omega arith)
