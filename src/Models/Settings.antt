-- ===== src/Models/Settings.antt =====
-- polyserve/models.py, models and configurations. `extra` is a dictionary of texts, numbers and
-- flags, which are the values that the backends put there.
use Prim.Native.Char.{code}
use polyserve.Base.{
  ℕ, ◌*◌, String, Bool, true, false, not, Option, none, some, List, [], ◌∷◌, ◌++◌, map, str_eq,
  if◌then◌else◌, ◌==◌, ltb, ◌<>◌, show_ℕ, join, str_ltb, keep_if,
}
use polyserve.Base.Sort.{sort}
use polyserve.Float.{Float}
use polyserve.Models.Hardware.{lookup}

pub record ModelSpec : Type 0 where
  pub hf_id : String
  pub revision : Option String

-- `hf_id.replace("/", "__")`.
unfoldable pub safe_text : String → String
safe_text String.[] = ""
safe_text (String.◌∷◌ c s) =
    if code c == b'/' then "__" <> safe_text s else String.◌∷◌ c (safe_text s)

abbrev pub safe_id : ModelSpec → String
safe_id m = safe_text m.hf_id

pub record ArchInfo : Type 0 where
  pub architecture : String
  pub num_layers : ℕ
  pub hidden_size : ℕ
  pub num_attention_heads : ℕ
  pub num_kv_heads : ℕ
  pub head_dim : ℕ
  pub vocab_size : ℕ
  pub max_position_embeddings : ℕ
  pub num_params : Option ℕ
  pub torch_dtype : String

unfoldable pub kv_bytes_per_token : ArchInfo → ℕ → ℕ
kv_bytes_per_token a kv_dtype_bytes =
    2 * a.num_layers * a.num_kv_heads * a.head_dim * kv_dtype_bytes

pub record PreparedModel : Type 0 where
  pub spec : ModelSpec
  pub backend : String
  pub arch : ArchInfo
  pub hf_path : Option String
  pub gguf_paths : List (String × String)
  pub weights_bytes : List (String × ℕ)
  pub hf_paths : List (String × String)
  pub draft_paths : List (String × String)

-- `none` is the KeyError.
abbrev pub weights_for : PreparedModel → String → Option ℕ
weights_for m quant = lookup quant m.weights_bytes

pub data Value : Type 0 where
  number : ℕ → Value
  flag : Bool → Value
  text : String → Value

-- `str(value)`.
unfoldable pub show_value : Value → String
unfolding show_ℕ
show_value (number n) = show_ℕ n
show_value (flag true) = "True"
show_value (flag false) = "False"
show_value (text s) = s

pub record Config (W : Type 0) : Type 0 where
  pub backend : String
  pub quant : String
  pub ctx : ℕ
  pub batch : ℕ
  pub gpu_memory_utilization : Option W
  pub n_gpu_layers : Option ℕ
  pub n_batch : Option ℕ
  pub prefill_budget : Option ℕ
  pub kv_dtype : String
  pub prefix_cache : Option Bool
  pub spec_decode : Option String
  pub tp : ℕ
  pub extra : List (String × Value)
  pub power_limit_w : Option ℕ
  pub sm_clock_mhz : Option ℕ

-- `if x is not None: parts.append(label(x))`.
abbrev pub part_of {ℓ} : {A : Type ℓ} → (A → String) → Option A → List String
part_of label none = []
part_of label (some a) = label a ∷ []

abbrev pub part_if : Bool → String → List String
part_if test label = if test then label ∷ [] else []

abbrev pub extra_parts : List (String × Value) → List String
extra_parts extra =
    map (λ e. e.0 <> "=" <> show_value e.1)
      (keep_if (λ e. not (str_eq e.0 "threads")) (sort (λ a b. str_ltb a.0 b.0) extra))

module _ {W : Type 0} ⦃f : Float W⦄ where
  abbrev pub key_parts : Config W → List String
  key_parts c =
      (c.backend ∷ c.quant ∷ ("ctx" <> show_ℕ c.ctx) ∷ ("b" <> show_ℕ c.batch) ∷ [])
      ++ (part_of (λ g. "gmu" <> f.fixed 2 g) c.gpu_memory_utilization
          ++ (part_of (λ n. "ngl" <> show_ℕ n) c.n_gpu_layers
              ++ (part_of (λ n. "nb" <> show_ℕ n) c.n_batch
                  ++ (part_of (λ n. "pb" <> show_ℕ n) c.prefill_budget
                      ++ (part_if (not (str_eq c.kv_dtype "auto")) ("kv" <> c.kv_dtype)
                          ++ (part_of (λ p. if p then "pc" else "nopc") c.prefix_cache
                              ++ (part_of (λ s. "sd=" <> s) c.spec_decode
                                  ++ (part_if (ltb 1 c.tp) ("tp" <> show_ℕ c.tp)
                                      ++ (extra_parts c.extra
                                          ++ (part_of (λ n. "pl" <> show_ℕ n) c.power_limit_w
                                              ++ part_of (λ n. "clk" <> show_ℕ n)
                                                  c.sm_clock_mhz))))))))))

  unfoldable pub key : Config W → String
  unfolding join show_ℕ show_value sort
  key c = join "/" (key_parts c)

  -- Key without energy settings.
  unfoldable pub base_key : Config W → String
  unfolding key
  base_key c = key (record c { power_limit_w = none; sm_clock_mhz = none })

pub record DisaggSpec (W : Type 0) : Type 0 where
  pub prefill : Config W
  pub decode : Config W
  pub prefill_gpu : ℕ
  pub decode_gpu : ℕ
  pub connector : String
  pub kv_transfer_config : List (String × Value)

unfoldable pub pair_key : {W : Type 0} ⦃f : Float W⦄ → DisaggSpec W → String
unfolding key
pair_key d =
    "pd[gpu"
    <> show_ℕ d.prefill_gpu
    <> ":"
    <> key d.prefill
    <> " -> gpu"
    <> show_ℕ d.decode_gpu
    <> ":"
    <> key d.decode
    <> "]"
