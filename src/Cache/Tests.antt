-- ===== src/Cache/Tests.antt =====
-- A profile of a machine with one engine, and the theorems applied to it.
use polyserve.Base.{◌≡◌, refl, true, none, some, [], ◌∷◌, ℕ, show_ℕ, join}
use polyserve.Base.Sort.{sort, insert}
use polyserve.Models.{HardwareDescriptor, ModelSpec, safe_text}
use polyserve.Models.Samples.{machine}
use polyserve.Cache.{
  Profile, Codec, Request, Files, identity, request_of, path_of, save, load, stem_of, read,
  flat_text, invalid_reason, tmp_of, delete, profile_path, plain_request, hardware_hash,
}
use polyserve.Cache.Refines.{view, put, erase, Takes, IsAsked, Reports, cache-Refines}
use polyserve.Cache.Stored.{IsFresh, load-save}

abbrev equipped : HardwareDescriptor
equipped = record machine {
  backends =
      ("vllm", record { name = "vllm"; available = true; version = some "0.10"; reason = none })
      ∷ [];
}

abbrev profile : Profile ℕ
profile = record {
  hardware_hash = identity equipped;
  model_id = "Qwen/Qwen2.5-1.5B-Instruct";
  objective = "balanced";
  workload = "chat";
  power_mode = "off";
  phases = "unified";
  options = ("layout", "auto") ∷ [];
  backend = "vllm";
  backend_version = some "0.10";
  rest = 7;
}

-- A codec that knows one profile.
abbrev codec : Codec ℕ
codec = record { digest = λ s. s; dump = λ p. "profile"; parse = λ s. some profile }

profile-IsFresh : IsFresh codec profile equipped
profile-IsFresh = record { same_machine = refl; same_engine = refl; available = refl }

abbrev spec : ModelSpec
spec = record { hf_id = "Qwen/Qwen2.5-1.5B-Instruct"; revision = none }

abbrev request : Request
request = request_of codec profile

load-save_example :
    (t : Files) × (save codec profile [] ≡ some t)
    × (load codec equipped (record { hf_id = profile.model_id; revision = some "main" }) request t
        ≡ some profile)
load-save_example = load-save codec profile equipped (some "main") [] refl profile-IsFresh

abbrev stored : Files
stored = (path_of codec profile, "profile") ∷ []

stored-loads : load codec equipped spec request stored ≡ some profile
unfolding load read identity stem_of safe_text flat_text sort insert join show_ℕ invalid_reason
stored-loads = refl

cache-Refines_example :
    ((t : Files) × (save codec profile stored ≡ some t)
      × (view t
          ≡ put (path_of codec profile) "profile" (erase (tmp_of codec profile) (view stored))))
    × Takes
        (IsAsked codec equipped spec (some "balanced") "chat")
        (view stored)
        (view (delete codec equipped spec (some "balanced") "chat" stored).1)
    × Reports
        (some "balanced")
        (profile_path (hardware_hash codec equipped) spec (plain_request codec "balanced" "chat"))
        stored
        (delete codec equipped spec (some "balanced") "chat" stored).0
        (delete codec equipped spec (some "balanced") "chat" stored).1
cache-Refines_example = cache-Refines codec profile equipped spec (some "balanced") "chat" stored
