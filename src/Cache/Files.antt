-- ===== src/Cache/Files.antt =====
-- The files of the cache of polyserve/cache.py as a map from paths to texts.
use polyserve.Base.{
  String, ◌≡◌, refl, subst, inl, inr, Bool, true, false, not, none, some, [], ◌∷◌, Bool-cases,
  arith, keep_if,
}
use text.Mathlib.TextEquality.{eq_iff}
use polyserve.Search.Keys.{same_text}
use polyserve.Cache.{
  ProfilePath, Suffix, json, json_tmp, Files, same_path, same_suffix, read, write, remove,
}

same_suffix_refl : (s : Suffix) → same_suffix s s ≡ true
same_suffix_refl json = refl
same_suffix_refl json_tmp = refl

pub same_path_refl : (p : ProfilePath) → same_path p p ≡ true
same_path_refl p =
    ground
      (arith, same_text p.hardware, same_text p.model, same_text p.stem, same_suffix_refl p.suffix)

-- A file that passes no test is not found.
pub read-keep_if-none :
    (test : ProfilePath × String → Bool) (q : ProfilePath) (files : Files)
    → ((p : ProfilePath) (t : String) → same_path p q ≡ true → test (p, t) ≡ false)
    → read q (keep_if test files) ≡ none
unfolding read
read-keep_if-none test q [] h = refl
read-keep_if-none test q ((p, t) ∷ files) h = elim (Bool-cases (test (p, t))) [
  | inr out ↦ rw out (read-keep_if-none test q files h)
  | inl kept ↦ elim (Bool-cases (same_path p q)) [
    | inl same ↦ (let out = h p t same in absurd (ground arith))
    | inr other ↦ rw (kept, other, read) (read-keep_if-none test q files h)
  ]
]

-- A file that passes is found as before.
pub read-keep_if :
    (test : ProfilePath × String → Bool) (q : ProfilePath) (files : Files)
    → ((p : ProfilePath) (t : String) → same_path p q ≡ true → test (p, t) ≡ true)
    → read q (keep_if test files) ≡ read q files
unfolding read
read-keep_if test q [] h = refl
read-keep_if test q ((p, t) ∷ files) h = elim (Bool-cases (same_path p q)) [
  | inl same ↦ rw (h p t same, same, read) refl
  | inr other ↦ elim (Bool-cases (test (p, t))) [
    | inl kept ↦ rw (kept, other, read) (read-keep_if test q files h)
    | inr out ↦ rw (out, other, read) (read-keep_if test q files h)
  ]
]

pub suffix_≡ : (a b : Suffix) → same_suffix a b ≡ true → a ≡ b
suffix_≡ json json e = refl
suffix_≡ json json_tmp e = cc
suffix_≡ json_tmp json e = cc
suffix_≡ json_tmp json_tmp e = refl

pub path_≡ : (a b : ProfilePath) → same_path a b ≡ true → a ≡ b
path_≡ a b e =
    let hardware : a.hardware ≡ b.hardware = (eq_iff _ _).0 (ground arith) in
    let model : a.model ≡ b.model = (eq_iff _ _).0 (ground arith) in
    let stem : a.stem ≡ b.stem = (eq_iff _ _).0 (ground arith) in
    let suffix : a.suffix ≡ b.suffix = suffix_≡ _ _ (ground arith) in
    λ i. record { hardware = hardware i; model = model i; stem = stem i; suffix = suffix i }

-- A path is not the same as two that differ.
apart : (p q r : ProfilePath) → same_path p q ≡ false → same_path r q ≡ true → same_path r p ≡ false
apart p q r e same = elim (Bool-cases (same_path r p)) [
  | inr other ↦ other
  | inl hit ↦
      let joined : same_path p q ≡ true = subst (λ x. same_path x q ≡ true) (path_≡ r p hit) same in
      absurd (ground arith)
]

pub read-write :
    (p : ProfilePath) (text : String) (files : Files) → read p (write p text files) ≡ some text
unfolding read
read-write p text files = rw (same_path_refl p, read) refl

pub read-remove_other :
    (p q : ProfilePath) (files : Files)
    → same_path p q ≡ false
    → read q (remove p files) ≡ read q files
read-remove_other p q files e =
    read-keep_if (λ d. not (same_path d.0 p)) q files
      (λ r t same. let h = apart p q r e same in ground arith)

pub read-write_other :
    (p q : ProfilePath) (text : String) (files : Files)
    → same_path p q ≡ false
    → read q (write p text files) ≡ read q files
unfolding read
read-write_other p q text files e = rw (e, read) (read-remove_other p q files e)

pub read-remove : (p : ProfilePath) (files : Files) → read p (remove p files) ≡ none
read-remove p files =
    read-keep_if-none (λ d. not (same_path d.0 p)) p files (λ r t same. ground arith)
