-- ===== src/Backends/Speculative.antt =====
-- polyserve/speculative.py: which proposers an engine has, and the texts that name them.
use polyserve.Base.{ℕ, String, Bool, false, not, ◌&&◌, none, some, List, map, keep_if, ◌<>◌, show_ℕ}
use polyserve.Models.{Config}
use polyserve.Stages.{same_text?}
use polyserve.Backends.{Installed, at_least}

-- A release from `minimum` on; false when no version is read.
abbrev pub vllm_at_least : Installed → ℕ × ℕ → Bool
vllm_at_least i minimum = elim i.vllm [ none ↦ false | some v ↦ at_least v minimum ]

abbrev pub vllm_supports_draft : Installed → Bool
vllm_supports_draft i = vllm_at_least i (0, 12)

abbrev pub vllm_supports_ngram_gpu : Installed → Bool
vllm_supports_ngram_gpu i = vllm_at_least i (0, 29)

abbrev pub vllm_supports_suffix : Installed → Bool
vllm_supports_suffix i = vllm_at_least i (0, 29) && i.arctic_inference

abbrev pub ngram : ℕ → String
ngram k = "ngram:" <> show_ℕ k

abbrev pub ngram_gpu : ℕ → String
ngram_gpu k = "ngram_gpu:" <> show_ℕ k

abbrev pub suffix : ℕ → String
suffix k = "suffix:" <> show_ℕ k

abbrev pub draft : String → ℕ → String
draft model_id k = "draft:" <> model_id <> ":" <> show_ℕ k

-- `[cfg.model_copy(update={"spec_decode": s}) for s in specs if s != cfg.spec_decode]`.
unfoldable pub with_specs : {W : Type 0} → Config W → List String → List (Config W)
with_specs cfg specs =
    map (λ s. record cfg { spec_decode = some s })
      (keep_if (λ s. not (same_text? (some s) cfg.spec_decode)) specs)
