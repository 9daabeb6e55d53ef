-- ===== src/Stages/Delta.antt =====
-- polyserve/calibrate/search.py: `_delta` and `_apply`, what a variant changes and how a change is made.
-- A field of the delta is there when it changed.
use polyserve.Base.{
  ℕ, String, Bool, true, false, not, ◌&&◌, ◌||◌, Option, none, some, List, [], ◌∷◌, if◌then◌else◌,
  str_eq, ◌==◌, is_some, get_or_default, keep_if,
}
use polyserve.Models.{Config, Value, number, flag, text, lookup}
use polyserve.Stages.{same_text?}
use polyserve.Stages.Memory.{same_number?}

abbrev pub same_flag : Bool → Bool → Bool
same_flag true b = b
same_flag false b = not b

abbrev pub same_flag? : Option Bool → Option Bool → Bool
same_flag? none none = true
same_flag? (some a) (some b) = same_flag a b
same_flag? _ _ = false

abbrev as_number : Bool → ℕ
as_number b = if b then 1 else 0

-- `==` of Python: a flag equals the number 0 or 1.
abbrev pub same_value : Value → Value → Bool
same_value (number a) (number b) = a == b
same_value (number a) (flag b) = a == as_number b
same_value (flag a) (number b) = as_number a == b
same_value (flag a) (flag b) = same_flag a b
same_value (text a) (text b) = str_eq a b
same_value _ _ = false

abbrev pub same_value? : Option Value → Option Value → Bool
same_value? none none = true
same_value? (some a) (some b) = same_value a b
same_value? _ _ = false

pub record Delta : Type 0 where
  pub batch : Option ℕ
  pub n_batch : Option (Option ℕ)
  pub prefill_budget : Option (Option ℕ)
  pub kv_dtype : Option String
  pub prefix_cache : Option (Option Bool)
  pub spec_decode : Option (Option String)
  pub extra : List (String × Value)

-- The new value, unless it is the old one.
abbrev pub change {ℓ} : {A : Type ℓ} → Bool → A → Option A
change same new = if same then none else some new

-- `{k: v for k, v in new.items() if old.get(k) != v}`.
abbrev pub changed_extra : List (String × Value) → List (String × Value) → List (String × Value)
changed_extra old new = keep_if (λ e. not (same_value? (lookup e.0 old) (some e.1))) new

-- `{**old, k: v}`: an entry that is there keeps its place.
unfoldable pub put_extra : String → Value → List (String × Value) → List (String × Value)
put_extra k v [] = (k, v) ∷ []
put_extra k v ((j, w) ∷ old) = if str_eq j k then (j, v) ∷ old else (j, w) ∷ put_extra k v old

unfoldable pub merge_extra : List (String × Value) → List (String × Value) → List (String × Value)
merge_extra old [] = old
merge_extra old ((k, v) ∷ new) = merge_extra (put_extra k v old) new

module _ {W : Type 0} where
  unfoldable pub delta : Config W → Config W → Delta
  delta ref var = record {
    batch = change (var.batch == ref.batch) var.batch;
    n_batch = change (same_number? var.n_batch ref.n_batch) var.n_batch;
    prefill_budget = change (same_number? var.prefill_budget ref.prefill_budget) var.prefill_budget;
    kv_dtype = change (str_eq var.kv_dtype ref.kv_dtype) var.kv_dtype;
    prefix_cache = change (same_flag? var.prefix_cache ref.prefix_cache) var.prefix_cache;
    spec_decode = change (same_text? var.spec_decode ref.spec_decode) var.spec_decode;
    extra = changed_extra ref.extra var.extra;
  }

  unfoldable pub apply : Config W → Delta → Config W
  apply cfg d = record cfg {
    batch = get_or_default cfg.batch d.batch;
    n_batch = get_or_default cfg.n_batch d.n_batch;
    prefill_budget = get_or_default cfg.prefill_budget d.prefill_budget;
    kv_dtype = get_or_default cfg.kv_dtype d.kv_dtype;
    prefix_cache = get_or_default cfg.prefix_cache d.prefix_cache;
    spec_decode = get_or_default cfg.spec_decode d.spec_decode;
    extra = merge_extra cfg.extra d.extra;
  }

-- `not delta`.
abbrev pub is_empty : Delta → Bool
is_empty d =
    not (
      is_some d.batch
      || (is_some d.n_batch
          || (is_some d.prefill_budget
              || (is_some d.kv_dtype || (is_some d.prefix_cache || is_some d.spec_decode)))))
    && (elim d.extra [ [] ↦ true | e ∷ es ↦ false ])

-- `==` of two optional values, given that of the values.
abbrev pub same_option {ℓ} : {A : Type ℓ} → (A → A → Bool) → Option A → Option A → Bool
same_option eq none none = true
same_option eq (some a) (some b) = eq a b
same_option eq _ _ = false

abbrev contains : List (String × Value) → List (String × Value) → Bool
contains xs [] = true
contains xs ((k, v) ∷ ys) = same_value? (lookup k xs) (some v) && contains xs ys

-- `==` of two deltas; dictionaries are equal in any order.
abbrev pub same_delta : Delta → Delta → Bool
same_delta a b =
    same_option (λ x y. x == y) a.batch b.batch
    && (same_option same_number? a.n_batch b.n_batch
        && (same_option same_number? a.prefill_budget b.prefill_budget
            && (same_option str_eq a.kv_dtype b.kv_dtype
                && (same_option same_flag? a.prefix_cache b.prefix_cache
                    && (same_option same_text? a.spec_decode b.spec_decode
                        && (contains a.extra b.extra && contains b.extra a.extra))))))
