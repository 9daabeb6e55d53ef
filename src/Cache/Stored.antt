-- ===== src/Cache/Stored.antt =====
-- About `save`, `load` and `delete` of polyserve/cache.py.
use polyserve.Base.{
  String, ◌≡◌, refl, sym, ◌∙◌, ap, subst, inl, inr, true, false, not, Option, none, some,
  Option-cases, arith, str_eq,
}
use mathlib.Core.Option.{some-injective}
use text.Mathlib.TextEquality.{eq_iff}
use polyserve.Models.{HardwareDescriptor, ModelSpec, backend_available, backend_version}
use polyserve.Search.Keys.{same_text}
use polyserve.Cache.{
  Profile, Codec, Request, ProfilePath, Files, hardware_hash, profile_path, same_path, read, write,
  remove, replace, request_of, path_of, tmp_of, save_text, save, invalid_reason, same_version,
  checked, parsed, load, in_directory, delete_all,
}
use polyserve.Cache.Files.{read-write, read-write_other, read-remove_other, read-keep_if-none}

-- The profile was made on this machine, and its engine is there in the same version.
pub record IsFresh {P : Type 0} (codec : Codec P) (p : Profile P) (hw : HardwareDescriptor)
    : Type 0 where
  pub same_machine : p.hardware_hash ≡ hardware_hash codec hw
  pub same_engine : p.backend_version ≡ backend_version hw p.backend
  pub available : backend_available hw p.backend ≡ true

version_≡ : (a b : Option String) → same_version a b ≡ true → a ≡ b
version_≡ none none e = refl
version_≡ none (some b) e = cc
version_≡ (some a) none e = cc
version_≡ (some a) (some b) e = ap (λ x. some x) ((eq_iff a b).0 e)

same_version_refl : (a : Option String) → same_version a a ≡ true
same_version_refl none = refl
same_version_refl (some a) = same_text a

module _ {P : Type 0} (codec : Codec P) where
  invalid_reason-IsFresh :
      (p : Profile P) (hw : HardwareDescriptor)
      → invalid_reason codec p hw ≡ none
      → IsFresh codec p hw
  unfolding invalid_reason
  invalid_reason-IsFresh p hw e = record {
    same_machine = (eq_iff _ _).0 (ground arith);
    same_engine = version_≡ _ _ (ground arith);
    available = ground arith;
  }

  fresh-invalid_reason :
      (p : Profile P) (hw : HardwareDescriptor)
      → IsFresh codec p hw
      → invalid_reason codec p hw ≡ none
  unfolding invalid_reason
  fresh-invalid_reason p hw f =
      let a : str_eq p.hardware_hash (hardware_hash codec hw) ≡ true =
        (eq_iff _ _).1 f.same_machine in
      let b : same_version p.backend_version (backend_version hw p.backend) ≡ true =
        subst (λ v. same_version p.backend_version v ≡ true) f.same_engine
          (same_version_refl p.backend_version) in
      let c = f.available in rw (a, b, c, invalid_reason) refl

  -- A save comes to an end; the profile's file then holds its text, and every other file but the
  -- profile's temporary one is as before.
  Saved : Profile P → Files → Files → Type 0
  Saved p files t =
      (save codec p files ≡ some t)
      × (read (path_of codec p) t ≡ some (codec.dump p))
      × ((q : ProfilePath)
          → same_path (path_of codec p) q ≡ false
          → same_path (tmp_of codec p) q ≡ false
          → read q t ≡ read q files)

  saved : (p : Profile P) (files : Files) → (t : Files) × Saved p files t
  unfolding save replace Saved
  saved p files =
      let tmp = tmp_of codec p in
      let path = path_of codec p in
      let half = save_text codec p files in
      let text = codec.dump p in
      (
        write path text (remove tmp half),
        (
          rw (read-write tmp text files, save, replace) refl,
          read-write path text (remove tmp half),
          λ q a b.
              read-write_other path q text (remove tmp half) a
              ∙ (read-remove_other tmp q half b ∙ read-write_other tmp q text files b),
        ),
      )

  -- A profile that was saved on this machine is read by its own request, and then checked.
  pub checked-save :
      (p : Profile P) (hw : HardwareDescriptor) (revision : Option String) (files : Files)
      → codec.parse (codec.dump p) ≡ some p
      → p.hardware_hash ≡ hardware_hash codec hw
      → (t : Files) × (save codec p files ≡ some t)
        × (load codec hw (record { hf_id = p.model_id; revision = revision }) (request_of codec p) t
            ≡ checked codec hw (some p))
  unfolding load Saved
  checked-save p hw revision files reads same_machine =
      let (t, s) = saved p files in
      let found : read
            (profile_path (hardware_hash codec hw)
              (record { hf_id = p.model_id; revision = revision }) (request_of codec p))
            t
          ≡ some (codec.dump p) =
        subst
          (λ h.
            read
              (profile_path h (record { hf_id = p.model_id; revision = revision })
                (request_of codec p))
              t
            ≡ some (codec.dump p))
          same_machine s.1 in
      (t, s.0, rw (found, load) (rw reads refl))

  pub checked-fresh :
      (p : Profile P) (hw : HardwareDescriptor)
      → IsFresh codec p hw
      → checked codec hw (some p) ≡ some p
  checked-fresh p hw fresh = rw (fresh-invalid_reason p hw fresh, checked) refl

  -- An engine that is no longer available makes the profile invalid.
  pub checked-unavailable :
      (p : Profile P) (hw : HardwareDescriptor)
      → backend_available hw p.backend ≡ false
      → checked codec hw (some p) ≡ none
  checked-unavailable p hw e = elim (Option-cases (invalid_reason codec p hw)) [
    | inl fine ↦ (let f = (invalid_reason-IsFresh p hw fine).available in cc)
    | inr (why, stale) ↦ rw (stale, checked) refl
  ]

  -- A profile that was saved is loaded by its own request, whatever the revision asked for and whatever
  -- was in the cache before, on a machine for which it is fresh. The codec reads what it writes.
  pub load-save :
      (p : Profile P) (hw : HardwareDescriptor) (revision : Option String) (files : Files)
      → codec.parse (codec.dump p) ≡ some p
      → IsFresh codec p hw
      → (t : Files) × (save codec p files ≡ some t)
        × (load codec hw (record { hf_id = p.model_id; revision = revision }) (request_of codec p) t
            ≡ some p)
  load-save p hw revision files reads fresh =
      let (t, s, e) = checked-save p hw revision files reads fresh.same_machine in
      (t, s, e ∙ checked-fresh p hw fresh)

  checked-IsFresh :
      (hw : HardwareDescriptor) (o : Option (Profile P)) (p : Profile P)
      → checked codec hw o ≡ some p
      → IsFresh codec p hw
  checked-IsFresh hw none p e = cc
  checked-IsFresh hw (some q) p e = elim (Option-cases (invalid_reason codec q hw)) [
    | inl fine ↦
        subst (λ r. IsFresh codec r hw) (some-injective _ _ (rw (fine, checked) at e))
          (invalid_reason-IsFresh q hw fine)
    | inr (why, stale) ↦ cc (rw (stale, checked) at e)
  ]

  -- A profile that `load` returns is fresh, whatever the files hold.
  pub load-IsFresh :
      (hw : HardwareDescriptor) (model : ModelSpec) (r : Request) (files : Files) (p : Profile P)
      → load codec hw model r files ≡ some p
      → IsFresh codec p hw
  unfolding load
  load-IsFresh hw model r files p e = checked-IsFresh hw _ p e

  -- A load that finds the same file has the same result.
  same_load :
      (hw : HardwareDescriptor) (model : ModelSpec) (r : Request) (s t : Files)
      → read (profile_path (hardware_hash codec hw) model r) s
        ≡ read (profile_path (hardware_hash codec hw) model r) t
      → load codec hw model r s ≡ load codec hw model r t
  unfolding load
  same_load hw model r s t e = ap (λ o. checked codec hw (parsed codec o)) e

  -- A save that stops before the profile's file is replaced changes no load, whatever the request.
  load-save_text :
      (p : Profile P) (hw : HardwareDescriptor) (model : ModelSpec) (r : Request) (files : Files)
      → load codec hw model r (save_text codec p files) ≡ load codec hw model r files
  load-save_text p hw model r files =
      let q = profile_path (hardware_hash codec hw) model r in
      let apart : same_path (tmp_of codec p) q ≡ false = ground arith in
      same_load hw model r _ _ (read-write_other (tmp_of codec p) q (codec.dump p) files apart)

  -- A save that ends changes no load of another path.
  pub load-save_other :
      (p : Profile P) (hw : HardwareDescriptor) (model : ModelSpec) (r : Request) (files t : Files)
      → save codec p files ≡ some t
      → same_path (path_of codec p) (profile_path (hardware_hash codec hw) model r) ≡ false
      → load codec hw model r t ≡ load codec hw model r files
  unfolding Saved
  load-save_other p hw model r files t e other =
      let q = profile_path (hardware_hash codec hw) model r in
      let apart : same_path (tmp_of codec p) q ≡ false = ground arith in
      let (u, s) = saved p files in
      let same : u ≡ t = some-injective _ _ (sym s.0 ∙ e) in
      same_load hw model r _ _ (subst (λ v. read q v ≡ read q files) same (s.2 q other apart))

  -- After `delete` without an objective, no profile of the model is loaded on the machine, whatever
  -- the request.
  load-delete_all :
      (hw : HardwareDescriptor) (model : ModelSpec) (r : Request) (files : Files)
      → load codec hw model r (delete_all codec hw model files).1 ≡ none
  unfolding load delete_all
  load-delete_all hw model r files =
      let q = profile_path (hardware_hash codec hw) model r in
      let gone : read q (delete_all codec hw model files).1 ≡ none =
        read-keep_if-none (λ e. not (in_directory codec hw model e.0)) q files
          (λ p t same. ground arith) in
      rw gone refl
