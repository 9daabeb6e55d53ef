-- ===== src/Power/Original.antt =====
-- The power limit that the controller goes back to.
use polyserve.Base.{
  ℕ, ◌≡◌, refl, ◌∙◌, ◌⊎◌, inl, inr, true, false, none, some, List, [], ◌∷◌, Option-cases,
  Bool-cases, arith,
}
use polyserve.Power.{
  Nvml, IsNvml, RestoreFile, missing, saved, limit_for, Power, fresh, Outcome, returned, raised,
  state_of, ◌and_then◌, remember_original, install_hooks, set_cap, set_clock, restore_limit,
  restore_clocks, restores_all, is_changed, restore, apply, Command, applies, restores, perform,
  perform_all,
}
use polyserve.Power.Settings.{PowerSetting, is_default}

module _ {D : Type 0} (nvml : Nvml D) (limit : D → ℕ) (law : IsNvml nvml limit) (index : ℕ) where
  -- The controller remembers the limit `l`, or it has changed nothing yet and the board runs at `l`.
  pub record Knows (l : ℕ) (p : Power D) : Type 0 where
    pub known :
        (p.original_limit_mw ≡ some l)
        ⊎ ((p.original_limit_mw ≡ none) × ((limit_for index p.file ≡ none) × (limit p.device ≡ l)))

  -- A step that keeps what is remembered, and the device and the file while nothing is.
  pub record Keeps (p q : Power D) : Type 0 where
    pub original : q.original_limit_mw ≡ p.original_limit_mw
    pub file : q.file ≡ p.file

  set_cap-Keeps : (s : PowerSetting) (p : Power D) → Keeps p (state_of (set_cap nvml s p))
  unfolding set_cap
  set_cap-Keeps s p = record { original = ground arith; file = ground arith }

  set_clock-Keeps : (s : PowerSetting) (p : Power D) → Keeps p (state_of (set_clock nvml s p))
  unfolding set_clock
  set_clock-Keeps s p = record { original = ground arith; file = ground arith }

  -- What is left of `apply` once the original is remembered.
  abbrev pub change : PowerSetting → Power D → Outcome (Power D)
  change s q =
      install_hooks q
      and_then set_cap nvml s
      and_then set_clock nvml s
      and_then (λ r. returned (record r { applied = some s }))

  pub change-Keeps : (s : PowerSetting) (p : Power D) → Keeps p (state_of (change s p))
  unfolding install_hooks set_cap set_clock
  change-Keeps s p = record { original = ground arith; file = ground arith }

  -- `_remember_original` raises and changes nothing, or the limit is known from here on.
  remember_cases :
      (l : ℕ) (p : Power D)
      → Knows l p
      → (remember_original nvml index p ≡ raised p)
        ⊎ ((q : Power D) × (remember_original nvml index p ≡ returned q)
            × (q.original_limit_mw ≡ some l))
  unfolding remember_original
  remember_cases l p k = elim k.known [
    | inl e ↦ inr (p, rw e refl, e)
    | inr (e, (f, here)) ↦ elim (Option-cases (nvml.get_limit p.device)) [
      | inl unread ↦ inl (ground arith)
      | inr (n, read) ↦
          let same : limit p.device ≡ n = law.reads p.device n read in
          inr (
            (record p { original_limit_mw = some n; file = saved (some index) (some n) }),
            ground arith,
            ground arith,
          )
    ]
  ]

  restore-Knows : (l : ℕ) (p : Power D) → Knows l p → Knows l (restore nvml p)
  unfolding restore restore_limit restore_clocks
  restore-Knows l p k = elim k.known [
    | inl e ↦ record { known = inl (ground arith) }
    | inr (e, (f, here)) ↦
        let reset = law.resets p.device in
        record { known = inr (ground arith, (ground arith, ground arith)) }
  ]

  apply-Knows :
      (l : ℕ) (s : PowerSetting) (p : Power D)
      → Knows l p
      → Knows l (state_of (apply nvml index s p))
  unfolding apply
  apply-Knows l s p k = elim (Bool-cases (is_default s)) [
    | inl e ↦ rw (e, apply) (restore-Knows l p k)
    | inr e ↦ elim (remember_cases l p k) [
      | inl r ↦ rw (e, r, apply) k
      | inr (q, r, known) ↦
          rw (e, r, apply) (record { known = inl ((change-Keeps s q).original ∙ known) })
    ]
  ]

  perform_all-Knows :
      (l : ℕ) (cs : List Command) (p : Power D) → Knows l p → Knows l (perform_all nvml index cs p)
  unfolding perform_all perform
  perform_all-Knows l [] p k = k
  perform_all-Knows l (applies s ∷ cs) p k = perform_all-Knows l cs _ (apply-Knows l s p k)
  perform_all-Knows l (restores ∷ cs) p k = perform_all-Knows l cs _ (restore-Knows l p k)

  -- The board runs at `l` with its clocks free, and nothing is left to restore.
  pub record IsRestored (l : ℕ) (p : Power D) : Type 0 where
    pub limited : limit p.device ≡ l
    pub unlocked : p.clocks_locked ≡ false
    pub unapplied : p.applied ≡ none
    pub cleared : p.file ≡ missing

  pub restore-IsRestored :
      (l : ℕ) (p : Power D)
      → Knows l p
      → is_changed p ≡ true
      → restores_all nvml p ≡ true
      → IsRestored l (restore nvml p)
  unfolding restore restore_limit restore_clocks
  restore-IsRestored l p k changed whole = elim k.known [
    | inl e ↦
        let set = law.sets l p.device in
        let reset = law.resets (nvml.set_limit l p.device).1 in
        record {
          limited = ground arith;
          unlocked = ground arith;
          unapplied = ground arith;
          cleared = ground arith;
        }
    | inr (e, (f, here)) ↦
        let reset = law.resets p.device in
        record {
          limited = ground arith;
          unlocked = ground arith;
          unapplied = ground arith;
          cleared = ground arith;
        }
  ]

  module _ (d : D) (file : RestoreFile) (unsaved : limit_for index file ≡ none)
      (cs : List Command) where
    -- After any calls of `apply` and `restore`, those that raise included, a restore that finds something
    -- to restore and meets no error brings the board back to the limit it had before them all.
    -- The restore file is taken to hold no limit of this card at the start.
    pub restore-brings_back :
        is_changed (perform_all nvml index cs (fresh d file)) ≡ true
        → restores_all nvml (perform_all nvml index cs (fresh d file)) ≡ true
        → IsRestored (limit d) (restore nvml (perform_all nvml index cs (fresh d file)))
    restore-brings_back = restore-IsRestored (limit d) (perform_all nvml index cs (fresh d file)) (
        perform_all-Knows (limit d) cs (fresh d file)
          (record { known = inr (refl, (unsaved, refl)) }))
