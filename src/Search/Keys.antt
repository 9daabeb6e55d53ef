-- ===== src/Search/Keys.antt =====
-- The dictionary `_done`: its keys are distinct, and what is put at the end is found.
use polyserve.Base.{
  String, ◌≡◌, refl, sym, ap, inl, inr, true, false, none, some, List, [], ◌∷◌, ◌++◌, map, str_eq,
  All, All-append, Bool-cases, Memᴰ,
}
use mathlib.Core.Option.{some-injective}
use text.Mathlib.TextEquality.{eq_iff}
use polyserve.Models.{lookup}

pub same_text : (k : String) → str_eq k k ≡ true
same_text k = (eq_iff k k).1 refl

module _ {V : Type 0} where
  -- No two entries have the same key.
  abbrev pub AreKeys : List (String × V) → Type 0
  AreKeys [] = Unit
  AreKeys (e ∷ es) = All (λ d. str_eq e.0 d.0 ≡ false) es × AreKeys es

  pub AreKeys-append :
      (k : String) (v : V) (es : List (String × V))
      → lookup k es ≡ none
      → AreKeys es
      → AreKeys (es ++ (k, v) ∷ [])
  AreKeys-append k v [] h a = (tt, tt)
  AreKeys-append k v (e ∷ es) h a = elim (Bool-cases (str_eq e.0 k)) [
    | inl same ↦ cc (rw same at h)
    | inr other ↦
        (All-append _ es ((k, v) ∷ []) a.0 (other, tt), AreKeys-append k v es (rw other at h) a.1)
  ]

  pub map-append :
      {B : Type 0} (g : (String × V) → B) (xs : List (String × V)) (y : String × V)
      → map g (xs ++ y ∷ []) ≡ map g xs ++ g y ∷ []
  map-append g [] y = refl
  map-append g (x ∷ xs) y = ap (λ l. g x ∷ l) (map-append g xs y)

  pub lookup-append :
      (k : String) (v : V) (es : List (String × V)) (d : String × V)
      → lookup k es ≡ some v
      → lookup k (es ++ d ∷ []) ≡ some v
  lookup-append k v [] d h = cc
  lookup-append k v (e ∷ es) d h = elim (Bool-cases (str_eq e.0 k)) [
    | inl same ↦ rw same (rw same at h)
    | inr other ↦ rw other (lookup-append k v es d (rw other at h))
  ]

  pub lookup-append_self :
      (k : String) (v : V) (es : List (String × V))
      → lookup k es ≡ none
      → lookup k (es ++ (k, v) ∷ []) ≡ some v
  lookup-append_self k v [] h = rw (same_text k) refl
  lookup-append_self k v (e ∷ es) h = elim (Bool-cases (str_eq e.0 k)) [
    | inl same ↦ cc (rw same at h)
    | inr other ↦ rw other (lookup-append_self k v es (rw other at h))
  ]

  pub lookup-on_record :
      (k : String) (v : V) (es : List (String × V))
      → lookup k es ≡ some v
      → Memᴰ v (map (λ e. e.1) es)
  lookup-on_record k v [] h = cc
  lookup-on_record k v (e ∷ es) h = elim (Bool-cases (str_eq e.0 k)) [
    | inl same ↦ Memᴰ.head (sym (some-injective _ _ (rw same at h)))
    | inr other ↦ Memᴰ.tail (lookup-on_record k v es (rw other at h))
  ]
