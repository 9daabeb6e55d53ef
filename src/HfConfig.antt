-- ===== src/HfConfig.antt =====
-- polyserve/hfconfig.py: what the memory planner needs from a model's configuration. `name.lower()`
-- is compared with the tables by code points, with the ASCII letters lowered.
use Prim.Native.Char.{code}
use polyserve.Base.{
  ℕ, ◌+◌, ◌*◌, String, Bool, true, false, ◌&&◌, Option, none, some, List, [], ◌∷◌, map,
  if◌then◌else◌, leb, ◌==◌, get_or_default,
}
use polyserve.Float.{Float, from_ℕ}

abbrev pub codes : String → List ℕ
codes String.[] = []
codes (String.◌∷◌ c s) = code c ∷ codes s

abbrev pub lower_code : ℕ → ℕ
lower_code c = if leb b'A' c && leb c b'Z' then c + 32 else c

abbrev pub same_codes : List ℕ → List ℕ → Bool
same_codes [] [] = true
same_codes (a ∷ s) (b ∷ t) = a == b && same_codes s t
same_codes _ _ = false

-- `table.get(name.lower())`.
unfoldable pub lookup_lower {ℓ} : {V : Type ℓ} → String → List (String × V) → Option V
lookup_lower name [] = none
lookup_lower name ((k, v) ∷ table) =
    if same_codes (map lower_code (codes name)) (codes k) then some v else lookup_lower name table

unfoldable pub dtype_table : List (String × ℕ)
dtype_table =
    ("float32", 4)
    ∷ ("fp32", 4)
    ∷ ("float16", 2)
    ∷ ("fp16", 2)
    ∷ ("half", 2)
    ∷ ("bfloat16", 2)
    ∷ ("bf16", 2)
    ∷ ("fp8", 1)
    ∷ ("fp8_e4m3", 1)
    ∷ ("fp8_e5m2", 1)
    ∷ ("int8", 1)
    ∷ ("auto", 2)
    ∷ []

unfoldable pub dtype_bytes : String → ℕ
unfolding lookup_lower dtype_table
dtype_bytes name = get_or_default 2 (lookup_lower name dtype_table)

module _ {W : Type 0} ⦃f : Float W⦄ where
  -- a / b of two literals.
  abbrev quotient : ℕ → ℕ → W
  quotient a b = f.div (from_ℕ a) (from_ℕ b)

  unfoldable pub kv_element_table : List (String × W)
  kv_element_table =
      ("q8_0", quotient 34 32)
      ∷ ("q4_0", quotient 18 32)
      ∷ ("q4_1", quotient 20 32)
      ∷ ("q5_0", quotient 22 32)
      ∷ ("q5_1", quotient 24 32)
      ∷ ("int8_per_token_head", f.add (from_ℕ 1) (quotient 4 64))
      ∷ []

  unfoldable pub kv_element_bytes : String → W
  unfolding lookup_lower kv_element_table dtype_bytes
  kv_element_bytes name =
      get_or_default (from_ℕ (dtype_bytes name)) (lookup_lower name kv_element_table)

-- Parameters of a dense transformer.
unfoldable pub estimate_params :
    (hidden layers heads kv_heads head_dim vocab intermediate : ℕ) (tie_embeddings : Bool) → ℕ
estimate_params hidden layers heads kv_heads head_dim vocab intermediate tie_embeddings =
    let q_o = 2 * hidden * heads * head_dim in
    let k_v = 2 * hidden * kv_heads * head_dim in
    let mlp = 3 * hidden * intermediate in
    let norms = 2 * hidden in
    let per_layer = q_o + k_v + mlp + norms in
    let embed = vocab * hidden * (if tie_embeddings then 1 else 2) in
    layers * per_layer + embed + hidden
