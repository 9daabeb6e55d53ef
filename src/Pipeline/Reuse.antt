-- ===== src/Pipeline/Reuse.antt =====
-- About `resolve_profile` of polyserve/pipeline.py and the cache.
use polyserve.Base.{
  String, ◌≡◌, refl, sym, ap, ◌∙◌, subst, inl, inr, Bool, true, false, not, ◌&&◌, ◌||◌, Option,
  none, some, Bool-cases, Option-cases, if◌then◌else◌,
}
use mathlib.Core.Option.{some-injective}
use polyserve.Float.{Float}
use polyserve.Models.{backend_available, backend_version}
use polyserve.Cache.{Profile, Codec, Files, hardware_hash, checked, load, save}
use polyserve.Cache.Stored.{IsFresh, checked-save, checked-fresh, checked-unavailable, load-IsFresh}
use polyserve.Pipeline.Resolve.{
  Resolved, Query, usable, if_usable, unified_request, new_profile, saved_new, calibrated, resolve,
}

saved_new-some :
    {P : Type 0} (codec : Codec P) (p : Profile P) (files : Files) {t : Files}
    → save codec p files ≡ some t
    → saved_new codec p files ≡ some (record { profile = p; hit = false; files = t })
saved_new-some codec p files e = rw (e, saved_new) refl

module _ {W P : Type 0} ⦃f : Float W⦄ (codec : Codec P) (quant_of : P → String) (q : Query W) where
  -- The profile may be served: its engine is available, it is the forced one if there is one, and the
  -- options allow the precision.
  abbrev pub serves : Profile P → Bool
  serves p = backend_available q.hw p.backend && usable codec quant_of q.options q.force p

  abbrev cached : Files → Option (Profile P)
  cached files =
      if_usable codec quant_of q.options q.force
        (load codec q.hw q.spec (unified_request codec quant_of q) files)

  if_usable-some :
      (o : Option (Profile P)) (p : Profile P)
      → if_usable codec quant_of q.options q.force o ≡ some p
      → (o ≡ some p) × (usable codec quant_of q.options q.force p ≡ true)
  if_usable-some none p e = cc
  if_usable-some (some r) p e = elim (Bool-cases (usable codec quant_of q.options q.force r)) [
    | inl u ↦
        (let same : r ≡ p = some-injective _ _ (rw u at e) in
          (
            ap (λ x. some x) same,
            subst (λ x. usable codec quant_of q.options q.force x ≡ true) same u,
          ))
    | inr u ↦ cc (rw u at e)
  ]

  -- The profile is of this machine and of the engine's version here.
  pub record IsMadeHere (p : Profile P) : Type 0 where
    pub same_machine : p.hardware_hash ≡ hardware_hash codec q.hw
    pub same_engine : p.backend_version ≡ backend_version q.hw p.backend

  -- What a run ends with: a later run finds its profile where it may be served.
  abbrev Reusable : Bool → String × P → Files → Type 0
  Reusable recalibrate outcome files =
      (r : Resolved P) × (resolve codec quant_of q recalibrate (some outcome) files ≡ some r)
      × IsMadeHere r.profile
      × ((not r.hit || serves r.profile) ≡ true)
      × (cached r.files ≡ (if serves r.profile then some r.profile else none))

  cached-saved :
      (p : Profile P) (files : Files)
      → IsMadeHere p
      → load codec q.hw q.spec (unified_request codec quant_of q) files
        ≡ checked codec q.hw (some p)
      → cached files ≡ (if serves p then some p else none)
  cached-saved p files made e = elim (Bool-cases (backend_available q.hw p.backend)) [
    | inl here ↦
        let fresh : IsFresh codec p q.hw = record {
          same_machine = made.same_machine;
          same_engine = made.same_engine;
          available = here;
        } in
        rw (e ∙ checked-fresh codec p q.hw fresh) (rw here refl)
    | inr gone ↦ rw (e ∙ checked-unavailable codec p q.hw gone) (rw gone refl)
  ]

  new-Reusable :
      (recalibrate : Bool) (outcome : String × P) (files : Files)
      → codec.parse (codec.dump (new_profile codec quant_of q outcome))
        ≡ some (new_profile codec quant_of q outcome)
      → (if recalibrate then none else cached files) ≡ none
      → Reusable recalibrate outcome files
  unfolding resolve
  new-Reusable recalibrate outcome files reads e =
      let p = new_profile codec quant_of q outcome in
      let made : IsMadeHere p = record { same_machine = refl; same_engine = refl } in
      let (t, saved, found) = checked-save codec p q.hw q.spec.revision files reads refl in
      (
        record { profile = p; hit = false; files = t },
        rw (e, resolve) (saved_new-some codec p files saved),
        made,
        refl,
        cached-saved p t made found,
      )

  old-Reusable :
      (recalibrate : Bool) (outcome : String × P) (files : Files) (p : Profile P)
      → (if recalibrate then none else cached files) ≡ some p
      → Reusable recalibrate outcome files
  unfolding resolve
  old-Reusable true outcome files p e = cc
  old-Reusable false outcome files p e =
      let (found, allowed) = if_usable-some _ p e in
      let fresh = load-IsFresh codec q.hw q.spec _ files p found in
      let here = fresh.available in
      let all : serves p ≡ true = rw here allowed in
      (
        record { profile = p; hit = true; files = files },
        rw (e, resolve) refl,
        record { same_machine = fresh.same_machine; same_engine = fresh.same_engine },
        all,
        e ∙ sym (ap (λ b. if b then some p else none) all),
      )

  run-Reusable :
      (recalibrate : Bool) (outcome : String × P) (files : Files)
      → codec.parse (codec.dump (new_profile codec quant_of q outcome))
        ≡ some (new_profile codec quant_of q outcome)
      → Reusable recalibrate outcome files
  run-Reusable recalibrate outcome files reads =
      elim (Option-cases (if recalibrate then none else cached files)) [
        | inl e ↦ new-Reusable recalibrate outcome files reads e
        | inr (p, e) ↦ old-Reusable recalibrate outcome files p e
      ]

  -- A run whose calibration would end with `outcome` returns a profile of this machine and of the
  -- engine's version here. A profile from the cache may be served: its engine is available, is the forced
  -- one, and the options allow its precision. The same run again, on the files that the first one leaves,
  -- returns the profile from the cache and leaves the files as they are, whatever a calibration would then
  -- end with, if the profile may be served; and calibrates again if not. The codec reads the new profile
  -- that it wrote.
  pub resolve-again :
      (recalibrate : Bool) (outcome : String × P) (files : Files) (later : Option (String × P))
      → codec.parse (codec.dump (new_profile codec quant_of q outcome))
        ≡ some (new_profile codec quant_of q outcome)
      → (r : Resolved P) × (resolve codec quant_of q recalibrate (some outcome) files ≡ some r)
        × IsMadeHere r.profile
        × ((not r.hit || serves r.profile) ≡ true)
        × (resolve codec quant_of q false later r.files ≡ (
            if serves r.profile
            then some (record r { hit = true })
            else calibrated codec quant_of q later r.files))
  unfolding resolve
  resolve-again recalibrate outcome files later reads =
      let (r, e, made, allowed, found) = run-Reusable recalibrate outcome files reads in
      (
        r,
        e,
        made,
        allowed,
        elim (Bool-cases (serves r.profile)) [
          | inl yes' ↦ rw (found, resolve) (rw yes' refl)
          | inr no' ↦ rw (found, resolve) (rw no' refl)
        ],
      )
