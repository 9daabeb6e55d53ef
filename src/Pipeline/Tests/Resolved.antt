-- ===== src/Pipeline/Tests/Resolved.antt =====
-- Runs on a machine with vLLM, and the theorems about the cache of the pipeline applied to them.
use polyserve.Base.{
  String, ◌≡◌, refl, true, false, not, ◌||◌, if◌then◌else◌, none, some, [], ◌∷◌, show_ℕ, join,
  arith,
}
use polyserve.Base.Sort.{sort, insert}
use polyserve.Float.Decimals.{Decimal, decimal_float}
use polyserve.Models.{HardwareDescriptor, safe_text}
use polyserve.Models.Samples.{machine}
use polyserve.Cache.{
  Profile, Codec, Files, load, save, replace, read, identity, path_of, stem_of, flat_text,
}
use polyserve.Pipeline.{options_key, allows}
use polyserve.Pipeline.Resolve.{
  Query, Resolved, calibrated, new_profile, phased_request, resolve, check_support,
}
use polyserve.Pipeline.Reuse.{IsMadeHere, serves, resolve-again}
use polyserve.Pipeline.Phased.{own, phased_save-unfound}
use polyserve.Pipeline.Tests.{options}

abbrev equipped : HardwareDescriptor
equipped = record machine {
  backends =
      ("vllm", record { name = "vllm"; available = true; version = some "0.29"; reason = none })
      ∷ [];
}

abbrev query : Query Decimal
query = record {
  hw = equipped;
  spec = record { hf_id = "Qwen/Qwen2.5-1.5B-Instruct"; revision = none };
  objective = "balanced";
  workload = "chat";
  power = "off";
  force = none;
  options = options;
}

abbrev quant_of : String → String
quant_of rest = rest

abbrev blank : Codec String
blank = record { digest = λ s. s; dump = λ p. "profile"; parse = λ s. none }

-- A codec that knows one profile, whose precision is bf16.
abbrev codec : Codec String
codec = record blank { parse = λ s. some (new_profile blank quant_of query ("vllm", "bf16")) }

resolve-again_example :
    (r : Resolved String) × (resolve codec quant_of query false (some ("vllm", "bf16")) [] ≡ some r)
    × IsMadeHere codec quant_of query r.profile
    × ((not r.hit || serves codec quant_of query r.profile) ≡ true)
    × (resolve codec quant_of query false none r.files ≡ (
        if serves codec quant_of query r.profile
        then some (record r { hit = true })
        else calibrated codec quant_of query none r.files))
resolve-again_example = resolve-again codec quant_of query false ("vllm", "bf16") [] none refl

-- That profile may be served.
bf16-serves : serves codec quant_of query (new_profile codec quant_of query ("vllm", "bf16")) ≡ true
unfolding allows
bf16-serves = refl

-- Two cards are needed.
one_card :
    check_support true equipped "vllm" "nixl"
    ≡ some "disaggregated serving needs two NVIDIA GPUs; 1 visible"
unfolding check_support show_ℕ
one_card = refl

abbrev split_profile : Profile String
split_profile = own codec quant_of query "auto" ("vllm", "bf16") "bf16"

abbrev stored : Files
stored = (path_of codec split_profile, "profile") ∷ []

stores : save codec split_profile [] ≡ some stored
unfolding save replace read identity stem_of safe_text flat_text sort insert options_key join show_ℕ
stores = refl

phased_save-unfound_example :
    load codec equipped query.spec (phased_request codec quant_of query "auto") stored
    ≡ load codec equipped query.spec (phased_request codec quant_of query "auto") []
phased_save-unfound_example =
    phased_save-unfound codec quant_of query "auto" ("vllm", "bf16") "bf16" [] stored refl
      (omega arith) stores
