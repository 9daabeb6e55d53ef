-- ===== src/Backends/LlamaCpp.antt =====
-- polyserve/backends/llamacpp.py: the configurations that llama.cpp offers, with its layers on a card
-- and on a processor.
use text.Mathlib.Text.{starts_with}
use polyserve.Base.{
  ℕ, ◌+◌, ◌*◌, ◌/◌, max, String, Bool, true, false, not, ◌&&◌, ◌||◌, Option, none, some, List, [],
  ◌∷◌, ◌++◌, map, str_eq, if◌then◌else◌, ltb, ◌==◌, is_some, is_text, any, get_or_default, keep_if,
  or_list, concat_map,
}
use polyserve.Float.{Float}
use polyserve.Models.{
  part_if, Config, HardwareDescriptor, PreparedModel, Value, number, flag, lookup, weights_for,
}
use polyserve.Stages.Memory.{same_number?}
use polyserve.Stages.Delta.{put_extra, same_value?}
use polyserve.Backends.{
  Backend, Installed, Fitted, ctx_grid, default_ctx, calibrated_memory, new_config,
}
use polyserve.Backends.Speculative.{ngram, draft, with_specs}

abbrev pub gguf_quants : List String
gguf_quants = "Q4_K_M" ∷ "Q5_K_M" ∷ "Q6_K" ∷ "Q8_0" ∷ []

-- Known precisions with weights, or whatever the weights are.
unfoldable pub quants_of : PreparedModel → List String
quants_of model =
    or_list (keep_if (λ q. is_some (weights_for model q)) gguf_quants)
      (map (λ e. e.0) model.weights_bytes)

-- `sorted({…}, reverse=True)`.
unfoldable pub insert_down : ℕ → List ℕ → List ℕ
insert_down n [] = n ∷ []
insert_down n (m ∷ ms) =
    if n == m then m ∷ ms else if ltb m n then n ∷ m ∷ ms else m ∷ insert_down n ms

abbrev pub layer_counts : Bool → PreparedModel → List ℕ
layer_counts cuda model =
    let layers = model.arch.num_layers in
    if cuda
    then insert_down (layers + 1) (insert_down (3 * layers / 4) (layers / 2 ∷ []))
    else 0 ∷ []

abbrev n_batches : Bool → List ℕ
n_batches cuda = if cuda then 512 ∷ [] else 512 ∷ 2048 ∷ []

-- A path on disk, not yet a reference to a repository or a conversion.
abbrev pub is_local : String → Bool
is_local path = is_text path && not (starts_with path "hf://" || starts_with path "convert://")

abbrev draft_specs : Installed → PreparedModel → List String
draft_specs i model = elim (i.draft_for model.spec.hf_id) [
  | none ↦ []
  | some d ↦ elim (lookup d model.draft_paths) [
    | none ↦ []
    | some path ↦ part_if (is_local path) (draft d 16)
  ]
]

-- `quants[0]` is none of an empty list.
abbrev default_quant : List String → Option String
default_quant quants =
    if any (λ q. str_eq q "Q4_K_M") quants
    then some "Q4_K_M"
    else elim quants [ [] ↦ none | q ∷ qs ↦ some q ]

module _ {W : Type 0} where
  abbrev pub llama_config : String → String → ℕ → ℕ → ℕ → ℕ → Config W
  llama_config name quant ngl ctx batch n_batch = record (new_config name quant ctx batch none) {
    n_gpu_layers = some ngl;
    n_batch = some n_batch;
  }

  unfoldable pub llama_configs : String → Bool → PreparedModel → ℕ → List (Config W)
  unfolding quants_of ctx_grid insert_down
  llama_configs name cuda model min_ctx =
      concat_map
        (λ quant.
          concat_map
            (λ ngl.
              concat_map
                (λ ctx.
                  concat_map (λ batch. map (llama_config name quant ngl ctx batch) (n_batches cuda))
                    (1 ∷ 4 ∷ 8 ∷ []))
                (ctx_grid model.arch.max_position_embeddings min_ctx))
            (layer_counts cuda model))
        (quants_of model)

  abbrev pub with_threads : HardwareDescriptor → Config W → Config W
  with_threads hw c = record c {
    extra = put_extra "threads" (number hw.cpu.physical_cores) c.extra;
  }

  -- `-ub`, with a logical batch that covers it.
  unfoldable pub prefill_variants : Config W → List (Config W)
  prefill_variants cfg =
      map
        (λ ub. record cfg {
          prefill_budget = some ub;
          n_batch = some (max (get_or_default 512 cfg.n_batch) ub);
        })
        (keep_if (λ ub. not (same_number? (some ub) cfg.prefill_budget)) (256 ∷ 1024 ∷ 2048 ∷ []))

  abbrev pub with_option : Config W → String × Value → Config W
  with_option cfg o = record cfg { extra = put_extra o.0 o.1 cfg.extra }

  unfoldable pub prefix_variants : Config W → List (Config W)
  unfolding put_extra
  prefix_variants cfg = map (with_option cfg) (
      keep_if (λ o. not (same_value? (lookup o.0 cfg.extra) (some o.1)))
        (("cache_reuse", number 256) ∷ ("kv_unified", flag true) ∷ []))

  unfoldable pub spec_variants : Installed → Config W → PreparedModel → List (Config W)
  spec_variants i cfg model =
      with_specs cfg (part_if i.llama_spec_type (ngram 64) ++ draft_specs i model)

  unfoldable pub default_config : String → Bool → PreparedModel → ℕ → Option (Config W)
  unfolding quants_of
  default_config name cuda model min_ctx = elim (default_quant (quants_of model)) [
    | none ↦ none
    | some quant ↦ some (
        llama_config name quant (if cuda then model.arch.num_layers + 1 else 0)
          (default_ctx model min_ctx) 4 512)
  ]

-- The whole context is allocated for every slot.
abbrev pub slot_kv_tokens : {W : Type 0} → Config W → ℕ
slot_kv_tokens cfg = cfg.ctx * cfg.batch

abbrev map_option {ℓ κ} : {A : Type ℓ} {B : Type κ} → (A → B) → Option A → Option B
map_option g none = none
map_option g (some a) = some (g a)

module _ {W : Type 0} ⦃f : Float W⦄ (i : Installed) (fitted : Fitted W) where
  unfoldable pub llamacpp_cuda : Backend W
  unfolding llama_configs default_config prefill_variants prefix_variants spec_variants
      calibrated_memory
  llamacpp_cuda = record {
    name = "llamacpp-cuda";
    supported_quants = λ hw. gguf_quants;
    kv_dtypes = λ hw. "q8_0" ∷ "q4_0" ∷ [];
    batch_ladder = 1 ∷ 4 ∷ 8 ∷ 16 ∷ [];
    memory_model = λ hw. calibrated_memory fitted "llamacpp-cuda" 805306368 hw slot_kv_tokens "gpu";
    candidate_configs = λ hw. llama_configs "llamacpp-cuda" true;
    default_config = λ hw. default_config "llamacpp-cuda" true;
    prefill_variants = prefill_variants;
    prefix_variants = prefix_variants;
    spec_variants = spec_variants i;
  }

  unfoldable pub llamacpp_cpu : Backend W
  unfolding llama_configs default_config prefill_variants prefix_variants spec_variants
      calibrated_memory put_extra
  llamacpp_cpu = record {
    name = "llamacpp-cpu";
    supported_quants = λ hw. gguf_quants;
    kv_dtypes = λ hw. "q8_0" ∷ "q4_0" ∷ [];
    batch_ladder = 1 ∷ 4 ∷ 8 ∷ 16 ∷ [];
    memory_model = λ hw. calibrated_memory fitted "llamacpp-cpu" 536870912 hw slot_kv_tokens "cpu";
    candidate_configs = λ hw model min_ctx.
        map (with_threads hw) (llama_configs "llamacpp-cpu" false model min_ctx);
    default_config = λ hw model min_ctx.
        map_option (with_threads hw) (default_config "llamacpp-cpu" false model min_ctx);
    prefill_variants = prefill_variants;
    prefix_variants = prefix_variants;
    spec_variants = spec_variants i;
  }
