-- ===== src/Backends/Offered.antt =====
-- About the configurations that each engine offers, `candidate_configs` of polyserve/backends.
use polyserve.Base.{
  ℕ, ◌≤◌, ◌<◌, String, ◌≡◌, refl, Option, none, some, List, [], ◌∷◌, map, All, All-imp, All-or_list,
  All-take, All-of_members, Memᴰ, Bool, true, false, All-map, All-concat_map, All-keep_if, arith,
}
use polyserve.Float.{Float}
use polyserve.Models.{Config, HardwareDescriptor, PreparedModel}
use polyserve.Backends.{Backend, Installed, Fitted, new_config}
use polyserve.Backends.Grid.{ctx_grid-InRange, InRange}
use polyserve.Backends.Vllm.{
  grid_of, paged_configs, cpu_configs, vllm, vllm_cpu, precisions, vllm_shares,
}
use polyserve.Backends.LlamaCpp.{
  with_threads, llama_config, llama_configs, llamacpp_cuda, llamacpp_cpu,
}
use polyserve.Backends.Sglang.{sglang, sglang_shares}
use polyserve.Backends.Sglang
use polyserve.Backends.Registry.{registry}

module _ {W : Type 0} ⦃f : Float W⦄ where
  -- No share of the card, or one of those that the grids have.
  abbrev pub shares : List (Option W)
  shares =
      none
      ∷ some (f.decimal 80 2)
      ∷ some (f.decimal 90 2)
      ∷ some (f.decimal 95 2)
      ∷ some (f.decimal 88 2)
      ∷ some (f.decimal 93 2)
      ∷ []

  module _ (name : String) (model : PreparedModel) (min_ctx : ℕ) where
    -- A plain configuration of this engine, whose context holds the workload and fits the model.
    pub record IsOffer (c : Config W) : Type 0 where
      pub engine : c.backend ≡ name
      pub holds : min_ctx ≤ c.ctx
      pub fits : c.ctx ≤ model.arch.max_position_embeddings
      pub busy : 0 < c.batch
      pub unset : c.prefill_budget ≡ none
      pub share : Memᴰ c.gpu_memory_utilization shares

    grid_of-IsOffer :
        (quant : String) (ws : List W) (ctxs batches : List ℕ)
        → All (λ w. Memᴰ (some w) shares) ws
        → All (InRange model.arch.max_position_embeddings min_ctx) ctxs
        → All (λ b. 0 < b) batches
        → All IsOffer (grid_of name quant ws ctxs batches)
    unfolding grid_of
    grid_of-IsOffer quant ws ctxs batches s c b = All-concat_map IsOffer _ ws (
        All-imp _ _
          (λ gmu p. All-concat_map IsOffer _ ctxs (
            All-imp _ _
              (λ ctx q.
                All-map _ IsOffer _
                  (λ batch r. record {
                    engine = refl;
                    holds = q.0;
                    fits = q.1;
                    busy = r;
                    unset = refl;
                    share = p;
                  })
                  batches b)
              ctxs c))
          ws s)

    paged_configs-IsOffer :
        (quants : List String) (ws : List W)
        → All (λ w. Memᴰ (some w) shares) ws
        → All IsOffer (paged_configs name quants ws model min_ctx)
    unfolding paged_configs
    paged_configs-IsOffer quants ws s = All-concat_map IsOffer _ _ (
        All-of_members _ _ (λ quant m.
          grid_of-IsOffer quant ws _ (16 ∷ 64 ∷ 256 ∷ []) s (ctx_grid-InRange _ min_ctx)
            (omega arith)))

module _ (W : Type 0) ⦃f : Float W⦄ (name : String) (model : PreparedModel) (min_ctx : ℕ) where
  plain-IsOffer :
      (quant : String) (ctx batch : ℕ)
      → InRange model.arch.max_position_embeddings min_ctx ctx
      → 0 < batch
      → IsOffer {W = W} name model min_ctx (new_config name quant ctx batch none)
  plain-IsOffer quant ctx batch q r = record {
    engine = refl;
    holds = q.0;
    fits = q.1;
    busy = r;
    unset = refl;
    share = Memᴰ.head refl;
  }

  layers-IsOffer :
      (quant : String) (ngl ctx batch : ℕ) (ns : List ℕ)
      → InRange model.arch.max_position_embeddings min_ctx ctx
      → 0 < batch
      → All (IsOffer {W = W} name model min_ctx) (map (llama_config name quant ngl ctx batch) ns)
  layers-IsOffer quant ngl ctx batch ns q r =
      All-map (λ n. Unit {0}) (IsOffer name model min_ctx) (llama_config name quant ngl ctx batch)
        (λ n u.
          let plain = plain-IsOffer quant ctx batch q r in
          record {
            engine = refl;
            holds = plain.holds;
            fits = plain.fits;
            busy = plain.busy;
            unset = refl;
            share = plain.share;
          })
        ns (All-of_members (λ n. Unit {0}) ns (λ n m. tt))

  llama_configs-IsOffer :
      (cuda : Bool)
      → All (IsOffer {W = W} name model min_ctx) (llama_configs name cuda model min_ctx)
  unfolding llama_configs
  llama_configs-IsOffer cuda =
      let P = IsOffer {W = W} name model min_ctx in
      All-concat_map P _ _ (
        All-of_members _ _ (λ quant m. All-concat_map P _ _ (
          All-of_members _ _ (λ ngl k. All-concat_map P _ _ (
            All-imp (InRange model.arch.max_position_embeddings min_ctx) _
              (λ ctx q. All-concat_map P _ (1 ∷ 4 ∷ 8 ∷ []) (
                layers-IsOffer quant ngl ctx 1 _ q (omega arith),
                (
                  layers-IsOffer quant ngl ctx 4 _ q (omega arith),
                  (layers-IsOffer quant ngl ctx 8 _ q (omega arith), tt),
                ),
              ))
              _ (ctx_grid-InRange _ min_ctx))))))

module _ (W : Type 0) ⦃f : Float W⦄ (model : PreparedModel) (min_ctx : ℕ) where
  cpu_configs-IsOffer : All (IsOffer {W = W} "vllm-cpu" model min_ctx) (cpu_configs model min_ctx)
  unfolding cpu_configs
  cpu_configs-IsOffer =
      let fits = ctx_grid-InRange model.arch.max_position_embeddings min_ctx in
      let R = InRange model.arch.max_position_embeddings min_ctx in
      let one = λ (ctx b : ℕ). plain-IsOffer W "vllm-cpu" model min_ctx "bf16" ctx b in
      All-concat_map (IsOffer "vllm-cpu" model min_ctx) _ _ (
        All-imp R _
          (λ ctx q. (
            one ctx 4 q (omega arith),
            (one ctx 16 q (omega arith), (one ctx 64 q (omega arith), tt)),
          ))
          _ (All-or_list R _ _ (All-keep_if R _ _ fits) (All-take R 1 _ fits)))

-- An entry of `extra` makes no difference.
threads-IsOffer :
    {W : Type 0} ⦃f : Float W⦄ (name : String) (model : PreparedModel) (min_ctx : ℕ)
    (hw : HardwareDescriptor) (cs : List (Config W))
    → All (IsOffer name model min_ctx) cs
    → All (IsOffer name model min_ctx) (map (with_threads hw) cs)
threads-IsOffer name model min_ctx hw cs h =
    All-map (IsOffer name model min_ctx) (IsOffer name model min_ctx) _
      (λ c o. record {
        engine = o.engine;
        holds = o.holds;
        fits = o.fits;
        busy = o.busy;
        unset = o.unset;
        share = o.share;
      })
      cs h

-- What an engine of the registry offers.
abbrev pub OffersAll : {W : Type 0} ⦃f : Float W⦄ → String × Backend W → Type 0
OffersAll e =
    (hw : HardwareDescriptor) (model : PreparedModel) (min_ctx : ℕ)
    → All (IsOffer e.0 model min_ctx) (e.1.candidate_configs hw model min_ctx)

module _ {W : Type 0} ⦃f : Float W⦄ (i : Installed) (fitted : Fitted W) where
  -- Every configuration that an engine of the registry offers for a workload is of this engine, holds
  -- the workload, fits the context that the model allows, serves at least one request, leaves the
  -- prefill budget to the engine and takes no share of the card or one of the five of the grids: on
  -- every machine, for every model and whatever software is installed.
  pub registry-OffersAll : All OffersAll (registry i fitted)
  unfolding registry vllm sglang llamacpp_cuda llamacpp_cpu vllm_cpu
  registry-OffersAll = (
    λ hw model min_ctx. paged_configs-IsOffer "vllm" model min_ctx (precisions i hw) vllm_shares (
      Memᴰ.tail (Memᴰ.head refl),
      (
        Memᴰ.tail (Memᴰ.tail (Memᴰ.head refl)),
        (Memᴰ.tail (Memᴰ.tail (Memᴰ.tail (Memᴰ.head refl))), tt),
      ),
    ),
    (
      λ hw model min_ctx.
          paged_configs-IsOffer "sglang" model min_ctx (Sglang.precisions hw) sglang_shares (
            Memᴰ.tail (Memᴰ.head refl),
            (
              Memᴰ.tail (Memᴰ.tail (Memᴰ.tail (Memᴰ.tail (Memᴰ.head refl)))),
              (Memᴰ.tail (Memᴰ.tail (Memᴰ.tail (Memᴰ.tail (Memᴰ.tail (Memᴰ.head refl))))), tt),
            ),
          ),
      (
        λ hw model min_ctx. llama_configs-IsOffer W "llamacpp-cuda" model min_ctx true,
        (
          λ hw model min_ctx.
              threads-IsOffer "llamacpp-cpu" model min_ctx hw _
                (llama_configs-IsOffer W "llamacpp-cpu" model min_ctx false),
          (λ hw model min_ctx. cpu_configs-IsOffer W model min_ctx, tt),
        ),
      ),
    ),
  )
