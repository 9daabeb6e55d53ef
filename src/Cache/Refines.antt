-- ===== src/Cache/Refines.antt =====
-- The cache of polyserve/cache.py as a map from paths to texts, whatever the order and the number of
-- the entries that stand for it.
use mathlib.Core.Path.{fun_ext}
use polyserve.Base.{
  ℕ, ◌+◌, String, ◌≡◌, refl, ap, sym, ◌∙◌, subst, inl, inr, ◌⊎◌, Bool, true, false, not, Option,
  none, some, List, [], ◌∷◌, Bool-cases, Option-cases, if◌then◌else◌, is_some, is_text, length,
  keep_if, arith,
}
use text.Mathlib.TextEquality.{eq_iff}
use polyserve.Models.{HardwareDescriptor, ModelSpec, safe_id}
use polyserve.Cache.{
  Profile, Codec, ProfilePath, Files, hardware_hash, profile_path, plain_request, same_path, read,
  write, remove, replace, path_of, tmp_of, save_text, save, in_directory, delete, delete_one,
  delete_all, json, same_suffix,
}
use polyserve.Cache.Files.{
  path_≡, suffix_≡, same_path_refl, read-write, read-write_other, read-remove, read-remove_other,
  read-keep_if, read-keep_if-none,
}

-- What is promised: for each path, a text or none.
abbrev pub Store : Type 0
Store = ProfilePath → Option String

abbrev pub view : Files → Store
view files q = read q files

abbrev pub put : ProfilePath → String → Store → Store
put p text m q = if same_path p q then some text else m q

abbrev pub erase : ProfilePath → Store → Store
erase p m q = if same_path p q then none else m q

-- An objective that is asked for: `none` for the empty text.
abbrev pub given : Option String → Option String
given none = none
given (some o) = if is_text o then some o else none

abbrev pub text_of : Option String → String
text_of none = ""
text_of (some o) = o

length-parts :
    {A : Type 0} (test : A → Bool) (xs : List A)
    → length (keep_if test xs) + length (keep_if (λ x. not (test x)) xs) ≡ length xs
length-parts test [] = omega arith
length-parts test (x ∷ xs) = elim (Bool-cases (test x)) [
  | inl e ↦ rw e (omega (arith, length-parts test xs))
  | inr e ↦ rw e (omega (arith, length-parts test xs))
]

view-write :
    (p : ProfilePath) (text : String) (files : Files)
    → view (write p text files) ≡ put p text (view files)
view-write p text files = fun_ext (λ q. elim (Bool-cases (same_path p q)) [
  | inl same ↦ rw same (
      subst (λ x. read x (write p text files) ≡ some text) (path_≡ p q same)
        (read-write p text files))
  | inr other ↦ rw other (read-write_other p q text files other)
])

view-remove : (p : ProfilePath) (files : Files) → view (remove p files) ≡ erase p (view files)
view-remove p files = fun_ext (λ q. elim (Bool-cases (same_path p q)) [
  | inl same ↦
      rw same (subst (λ x. read x (remove p files) ≡ none) (path_≡ p q same) (read-remove p files))
  | inr other ↦ rw other (read-remove_other p q files other)
])

-- A write over a path hides what was written there before.
erase-put : (p : ProfilePath) (text : String) (m : Store) → erase p (put p text m) ≡ erase p m
erase-put p text m =
    fun_ext (λ q. elim (Bool-cases (same_path p q)) [
      | inl same ↦ rw same refl
      | inr other ↦ rw other refl
    ])

-- `delete` of one path.
abbrev taken : ProfilePath → Files → ℕ × Files
taken p files = if is_some (read p files) then (1, remove p files) else (0, files)

taken-view : (p : ProfilePath) (files : Files) → view (taken p files).1 ≡ erase p (view files)
taken-view p files = elim (Option-cases (read p files)) [
  | inr (text, found) ↦ rw found (view-remove p files)
  | inl missing ↦ rw missing (
      fun_ext (λ q. elim (Bool-cases (same_path p q)) [
        | inl same ↦ rw same (subst (λ x. read x files ≡ none) (path_≡ p q same) missing)
        | inr other ↦ rw other refl
      ]))
]

taken-count :
    (p : ProfilePath) (files : Files)
    → (taken p files).0 ≡ (if is_some (view files p) then 1 else 0)
taken-count p files = elim (Bool-cases (is_some (read p files))) [
  | inl e ↦ rw e refl
  | inr e ↦ rw e refl
]

-- A path that is asked for has no text any more, and every other path has the text that it had.
abbrev pub Takes : (ProfilePath → Type 0) → Store → Store → Type 0
Takes P before after =
    (q : ProfilePath) → (P q × (after q ≡ none)) ⊎ ((¬ P q) × (after q ≡ before q))

-- The number that `delete` reports.
abbrev pub Reports : Option String → ProfilePath → Files → ℕ → Files → Type 0
Reports objective p before n after = elim objective [
  | some o ↦ n ≡ (if is_some (view before p) then 1 else 0)
  | none ↦ n + length after ≡ length before
]

module _ {P : Type 0} (codec : Codec P) where
  save-view :
      (p : Profile P) (files : Files)
      → (t : Files) × (save codec p files ≡ some t)
        × (view t ≡ put (path_of codec p) (codec.dump p) (erase (tmp_of codec p) (view files)))
  unfolding save replace
  save-view p files =
      let tmp = tmp_of codec p in
      let path = path_of codec p in
      let text = codec.dump p in
      let half = save_text codec p files in
      (
        write path text (remove tmp half),
        rw (read-write tmp text files, save, replace) refl,
        view-write path text (remove tmp half)
            ∙ ap (put path text) (
                view-remove tmp half
                ∙ (ap (erase tmp) (view-write tmp text files) ∙ erase-put tmp text (view files))),
      )

  -- What a `delete` is asked to take away: with an objective, the file of this objective and workload;
  -- without one, or with the empty text, each profile of the model on the machine.
  abbrev pub IsAsked :
      HardwareDescriptor → ModelSpec → Option String → String → ProfilePath → Type 0
  IsAsked hw model objective workload q = elim objective [
    | some o ↦ q ≡ profile_path (hardware_hash codec hw) model (plain_request codec o workload)
    | none ↦ (q.hardware ≡ hardware_hash codec hw) × (q.model ≡ safe_id model) × (q.suffix ≡ json)
  ]

  delete_all-Takes :
      (hw : HardwareDescriptor) (model : ModelSpec) (workload : String) (files : Files)
      → Takes
          (IsAsked hw model none workload)
          (view files)
          (view (delete_all codec hw model files).1)
  unfolding delete_all
  delete_all-Takes hw model workload files q =
      let test = λ (q : ProfilePath). in_directory codec hw model q in
      let alike = λ (p q : ProfilePath) (s : same_path p q ≡ true). ap test (path_≡ p q s) in
      elim (Bool-cases (test q)) [
        | inl hit ↦ inl (
          (
            (eq_iff _ _).0 (ground (arith, hit)),
            (eq_iff _ _).0 (ground (arith, hit)),
            suffix_≡ _ _ (ground (arith, hit)),
          ),
          read-keep_if-none (λ e. not (test e.0)) q files (λ p t s. ap not (alike p q s ∙ hit)),
        )
        | inr miss ↦ inr (
          λ asked.
              let hardware = (eq_iff _ _).1 asked.0 in
              let model' = (eq_iff _ _).1 asked.1 in
              let suffix : same_suffix q.suffix json ≡ true = rw (asked.2) refl in
              absurd (ground (arith, miss, hardware, model', suffix)),
          read-keep_if (λ e. not (test e.0)) q files (λ p t s. ap not (alike p q s ∙ miss)),
        )
      ]

  delete_one-Takes :
      (hw : HardwareDescriptor) (model : ModelSpec) (objective workload : String) (files : Files)
      → Takes
          (λ q.
            q
            ≡ profile_path (hardware_hash codec hw) model (plain_request codec objective workload))
          (view files)
          (view (delete_one codec hw model objective workload files).1)
  unfolding delete_one
  delete_one-Takes hw model objective workload files q =
      let p =
        profile_path (hardware_hash codec hw) model (plain_request codec objective workload) in
      let after = ap (λ m. m q) (taken-view p files) in
      elim (Bool-cases (same_path p q)) [
        | inl same ↦ inl (sym (path_≡ p q same), after ∙ rw same refl)
        | inr other ↦ inr (
          λ e.
              let hit : same_path p q ≡ true =
                subst (λ x. same_path p x ≡ true) (sym e) (same_path_refl p) in
              cc,
          after ∙ rw other refl,
        )
      ]

  delete-Takes :
      (hw : HardwareDescriptor) (model : ModelSpec) (objective : Option String) (workload : String)
      (files : Files)
      → Takes
          (IsAsked hw model (given objective) workload)
          (view files)
          (view (delete codec hw model objective workload files).1)
  unfolding delete
  delete-Takes hw model none workload files = delete_all-Takes hw model workload files
  delete-Takes hw model (some o) workload files = by_text (is_text o)
    where
      by_text :
          (b : Bool)
          → Takes (IsAsked hw model (if b then some o else none) workload) (view files) (
              view
                (if b
                  then delete_one codec hw model o workload files
                  else delete_all codec hw model files).1)
      by_text true = delete_one-Takes hw model o workload files
      by_text false = delete_all-Takes hw model workload files

  delete-Reports :
      (hw : HardwareDescriptor) (model : ModelSpec) (objective : Option String) (workload : String)
      (files : Files)
      → Reports
          (given objective)
          (profile_path
            (hardware_hash codec hw)
            model
            (plain_request codec (text_of objective) workload))
          files
          (delete codec hw model objective workload files).0
          (delete codec hw model objective workload files).1
  unfolding delete delete_all delete_one
  delete-Reports hw model none workload files =
      length-parts (λ e. in_directory codec hw model e.0) files
  delete-Reports hw model (some o) workload files = by_text (is_text o)
    where
      path : ProfilePath
      path = profile_path (hardware_hash codec hw) model (plain_request codec o workload)

      by_text :
          (b : Bool)
          → let after =
              if b
              then delete_one codec hw model o workload files
              else delete_all codec hw model files in
            Reports (if b then some o else none) path files after.0 after.1
      by_text true = taken-count path files
      by_text false = length-parts (λ e. in_directory codec hw model e.0) files

  -- The cache refines a map from paths to texts. `save` comes to an end: it takes the profile's
  -- temporary file away and puts the text of the profile at its path. `delete` with an objective takes
  -- away the file of this objective and workload, and reports 1 if it was there and 0 if not; without
  -- one, or with the empty text, it takes away every file of the machine and the model that has the
  -- suffix of a profile, and reports how many entries it took. Every other path keeps its text.
  pub cache-Refines :
      (p : Profile P) (hw : HardwareDescriptor) (model : ModelSpec) (objective : Option String)
      (workload : String) (files : Files)
      → ((t : Files) × (save codec p files ≡ some t)
          × (view t ≡ put (path_of codec p) (codec.dump p) (erase (tmp_of codec p) (view files))))
        × Takes
            (IsAsked hw model (given objective) workload)
            (view files)
            (view (delete codec hw model objective workload files).1)
        × Reports
            (given objective)
            (profile_path
              (hardware_hash codec hw)
              model
              (plain_request codec (text_of objective) workload))
            files
            (delete codec hw model objective workload files).0
            (delete codec hw model objective workload files).1
  cache-Refines p hw model objective workload files = (
    save-view p files,
    delete-Takes hw model objective workload files,
    delete-Reports hw model objective workload files,
  )
