-- ===== src/Power/Record.antt =====
-- The restore file: what it holds while the controller's changes stand.
use polyserve.Base.{
  ℕ, min, ◌*◌, ◌≡◌, refl, ◌∙◌, ap, ◌⊎◌, inl, inr, true, false, none, some, List, [], ◌∷◌, map,
  is_some, Option-cases, Bool-cases, arith, All,
}
use polyserve.Power.{
  Nvml, IsNvml, RestoreFile, missing, saved, limit_for, Power, fresh, returned, raised, state_of,
  min_clock, remember_original, install_hooks, set_cap, set_clock, restore_limit, restore_clocks,
  restores_all, is_changed, restore, apply, Command, applies, restores, perform, perform_all,
}
use polyserve.Power.Settings.{PowerSetting, is_default, default_setting}
use polyserve.Power.Original.{change-Keeps, Knows, restore-IsRestored}

module _ {D : Type 0} (nvml : Nvml D) (limit : D → ℕ) (law : IsNvml nvml limit) (index : ℕ) where
  -- The card's first limit is in the file, or nothing has been changed yet.
  pub record Recorded (l : ℕ) (p : Power D) : Type 0 where
    pub recorded :
        ((p.original_limit_mw ≡ some l) × (p.file ≡ saved (some index) (some l)))
        ⊎ ((p.original_limit_mw ≡ none) × ((p.file ≡ missing) × (limit p.device ≡ l)))

  remember_records :
      (l : ℕ) (p : Power D)
      → Recorded l p
      → (remember_original nvml index p ≡ raised p)
        ⊎ ((q : Power D) × (remember_original nvml index p ≡ returned q)
            × ((q.original_limit_mw ≡ some l) × (q.file ≡ saved (some index) (some l))))
  unfolding remember_original
  remember_records l p k = elim k.recorded [
    | inl (e, f) ↦ inr (p, rw e refl, (e, f))
    | inr (e, (f, here)) ↦ elim (Option-cases (nvml.get_limit p.device)) [
      | inl unread ↦ inl (ground arith)
      | inr (n, read) ↦
          let same : limit p.device ≡ n = law.reads p.device n read in
          inr (
            (record p { original_limit_mw = some n; file = saved (some index) (some n) }),
            ground arith,
            (ground arith, ground arith),
          )
    ]
  ]

  apply-Recorded :
      (l : ℕ) (s : PowerSetting) (p : Power D)
      → is_default s ≡ false
      → Recorded l p
      → Recorded l (state_of (apply nvml index s p))
  unfolding apply
  apply-Recorded l s p e k = elim (remember_records l p k) [
    | inl r ↦ rw (e, r, apply) k
    | inr (q, r, (known, filed)) ↦
        let keeps = change-Keeps nvml limit law index s q in
        rw (e, r, apply) (record { recorded = inl (keeps.original ∙ known, keeps.file ∙ filed) })
  ]

  applies-All-Recorded :
      (l : ℕ) (ss : List PowerSetting) (p : Power D)
      → All (λ s. is_default s ≡ false) ss
      → Recorded l p
      → Recorded l (perform_all nvml index (map applies ss) p)
  unfolding perform_all perform
  applies-All-Recorded l [] p h k = k
  applies-All-Recorded l (s ∷ ss) p h k =
      applies-All-Recorded l ss _ h.1 (apply-Recorded l s p h.0 k)

  Recorded-Knows : (l : ℕ) (p : Power D) → Recorded l p → Knows nvml limit law index l p
  Recorded-Knows l p k = elim k.recorded [
    | inl (known, filed) ↦ record { known = inl known }
    | inr (unknown, (unfiled, here)) ↦ record { known = inr (unknown, (rw unfiled refl, here)) }
  ]

  restore_idle : (p : Power D) → is_changed p ≡ false → restore nvml p ≡ p
  unfolding restore
  restore_idle p idle = ground arith

  restored :
      {l : ℕ} (p : Power D)
      → Recorded l p
      → restores_all nvml p ≡ true
      → limit (restore nvml p).device ≡ l
  restored {l = l} p k whole = elim (Bool-cases (is_changed p)) [
    | inl e ↦ (restore-IsRestored nvml limit law index l p (Recorded-Knows l p k) e whole).limited
    | inr e ↦ elim k.recorded [
      | inl (known, filed) ↦ absurd (ground arith)
      | inr (unknown, (unfiled, here)) ↦ ap (λ q. limit q.device) (restore_idle p e) ∙ here
    ]
  ]

  module _ (d : D) (ss : List PowerSetting) (h : All (λ s. is_default s ≡ false) ss) where
    fresh-Recorded : Recorded (limit d) (perform_all nvml index (map applies ss) (fresh d missing))
    fresh-Recorded =
        applies-All-Recorded (limit d) ss (fresh d missing) h
          (record { recorded = inr (refl, (refl, refl)) })

    -- A new controller that is given settings other than the default, at whatever call it stops or
    -- fails: either the board still runs at its first limit, or the restore file holds that limit.
    pub changes-AreRecorded :
        (limit (perform_all nvml index (map applies ss) (fresh d missing)).device ≡ limit d)
        ⊎ ((perform_all nvml index (map applies ss) (fresh d missing)).file
            ≡ saved (some index) (some (limit d)))
    changes-AreRecorded = elim fresh-Recorded.recorded [
      | inl (known, filed) ↦ inr filed
      | inr (unknown, (unfiled, here)) ↦ inl here
    ]

    -- And a restore without errors brings the board back to its first limit.
    pub restore-undoes_applies :
        restores_all nvml (perform_all nvml index (map applies ss) (fresh d missing)) ≡ true
        → limit (restore nvml (perform_all nvml index (map applies ss) (fresh d missing))).device
          ≡ limit d
    restore-undoes_applies whole =
        restored (perform_all nvml index (map applies ss) (fresh d missing)) fresh-Recorded whole

  -- A controller that knows its limit, with no restore file.
  pub record Unrecorded (p : Power D) : Type 0 where
    pub known : is_some p.original_limit_mw ≡ true
    pub cleared : p.file ≡ missing

  remember_known :
      (p : Power D)
      → is_some p.original_limit_mw ≡ true
      → remember_original nvml index p ≡ returned p
  unfolding remember_original
  remember_known p known = ground arith

  restore-Unrecorded : (p : Power D) → Unrecorded p → Unrecorded (restore nvml p)
  unfolding restore
  restore-Unrecorded p k = record { known = ground arith; cleared = ground arith }

  perform-Unrecorded :
      (c : Command) (p : Power D) → Unrecorded p → Unrecorded (perform nvml index c p)
  unfolding perform apply
  perform-Unrecorded (applies s) p k = elim (Bool-cases (is_default s)) [
    | inl e ↦ rw (e, perform, apply) (restore-Unrecorded p k)
    | inr e ↦
        let keeps = change-Keeps nvml limit law index s p in
        rw (e, remember_known p k.known, perform, apply)
          (record { known = ap is_some keeps.original ∙ k.known; cleared = keeps.file ∙ k.cleared })
  ]
  perform-Unrecorded restores p k = restore-Unrecorded p k

  -- Once a controller has restored the board, no later change of it is in the restore file, whatever
  -- its calls.
  pub later_changes-Unrecorded :
      (cs : List Command) (p : Power D) → Unrecorded p → Unrecorded (perform_all nvml index cs p)
  unfolding perform_all
  later_changes-Unrecorded [] p k = k
  later_changes-Unrecorded (c ∷ cs) p k =
      later_changes-Unrecorded cs (perform nvml index c p) (perform-Unrecorded c p k)

  failed_lock :
      (w watts mhz : ℕ) (p : Power D)
      → p.original_limit_mw ≡ some w
      → (nvml.set_limit (watts * 1000) p.device).0 ≡ true
      → ((a b : ℕ) (d : D) → (nvml.lock_clocks a b d).0 ≡ false)
      → let d = (nvml.set_limit (watts * 1000) p.device).1 in
        state_of
          (apply nvml index (record { power_limit_w = some watts; sm_clock_mhz = some mhz }) p)
        ≡ record p {
          device = (nvml.lock_clocks (min (min_clock nvml d) mhz) mhz d).1;
          hooks_installed = true;
        }
  unfolding apply remember_original set_cap set_clock install_hooks
  failed_lock w watts mhz p known set refused =
      let d = (nvml.set_limit (watts * 1000) p.device).1 in
      let r = refused (min (min_clock nvml d) mhz) mhz d in ground arith

  -- A restored controller that sets a cap and fails to lock the clocks leaves the cap: a restore does
  -- nothing then.
  pub failed_lock_leaves_cap :
      (w watts mhz : ℕ) (p : Power D)
      → p.original_limit_mw ≡ some w
      → is_changed p ≡ false
      → p.file ≡ missing
      → (nvml.set_limit (watts * 1000) p.device).0 ≡ true
      → ((a b : ℕ) (d : D) → (nvml.lock_clocks a b d).0 ≡ false)
      → let q =
          state_of
            (apply nvml index (record { power_limit_w = some watts; sm_clock_mhz = some mhz }) p) in
        (restore nvml q ≡ q) × (limit q.device ≡ watts * 1000)
  failed_lock_leaves_cap w watts mhz p known idle cleared set refused =
      let e = failed_lock w watts mhz p known set refused in
      let locks = law.locks _ mhz (nvml.set_limit (watts * 1000) p.device).1 in
      let sets = law.sets (watts * 1000) p.device set in rw e (restore_idle _ idle, locks ∙ sets)

  first_apply :
      (n : ℕ) (d : D) (s : PowerSetting)
      → nvml.get_limit d ≡ some n
      → is_default s ≡ false
      → (state_of (apply nvml index s (fresh d missing))).original_limit_mw ≡ some n
  unfolding apply remember_original
  first_apply n d s reads e =
      let p = record (fresh d missing) {
        original_limit_mw = some n;
        file = saved (some index) (some n);
      } in
      rw (e, reads, apply, remember_original) (change-Keeps nvml limit law index s p).original

  -- A controller that starts after a crash, with the card's limit in the restore file, and restores or
  -- applies the default first, removes the file and leaves the board as it is; what it then remembers
  -- as the original is the limit that the crash left behind.
  pub crash_forgotten :
      (l n : ℕ) (d : D) (file : RestoreFile) (s : PowerSetting)
      → limit_for index file ≡ some l
      → nvml.get_limit d ≡ some n
      → is_default s ≡ false
      → let p = state_of (apply nvml index default_setting (fresh d file)) in
        (p ≡ fresh d missing) × ((state_of (apply nvml index s p)).original_limit_mw ≡ some n)
  unfolding apply remember_original restore restore_limit restore_clocks
  crash_forgotten l n d file s saves reads e =
      let forgotten : restore nvml (fresh d file) ≡ fresh d missing = ground arith in
      (
        forgotten,
        ap (λ q. (state_of (apply nvml index s q)).original_limit_mw) forgotten
            ∙ first_apply n d s reads e,
      )
