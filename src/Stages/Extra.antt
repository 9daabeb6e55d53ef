-- ===== src/Stages/Extra.antt =====
-- When settings of two configurations are equal, and the entries of `extra` under the changes of
-- polyserve/calibrate/search.py.
use polyserve.Base.{
  All-keep_if, ℕ, String, ◌≡◌, refl, sym, ◌∙◌, ap, subst, inl, inr, Bool, true, false, not, Option,
  none, some, List, [], ◌∷◌, All, Bool-cases, arith, if◌then◌else◌, str_eq, ◌==◌, keep_if,
  get_or_default,
}
use mathlib.Core.Option.{some-injective}
use text.Mathlib.TextEquality.{eq_iff}
use polyserve.Models.{Value, number, flag, lookup}
use polyserve.Search.Keys.{AreKeys, same_text}
use polyserve.Stages.{same_text?}
use polyserve.Stages.Memory.{same_number?}
use polyserve.Stages.Delta.{
  change, same_flag, same_flag?, same_value, same_value?, changed_extra, put_extra, merge_extra,
}

module _ {ℓ} {A : Type ℓ} where
  -- A changed value comes back, and so does one that is the same.
  pub change_back :
      (same : Bool) (old new : A)
      → (same ≡ true → new ≡ old)
      → get_or_default old (change same new) ≡ new
  change_back true old new h = sym (h refl)
  change_back false old new h = refl

pub text_≡ : (a b : String) → str_eq a b ≡ true → a ≡ b
text_≡ a b e = (eq_iff a b).0 e

pub number?_≡ : (a b : Option ℕ) → same_number? a b ≡ true → a ≡ b
number?_≡ none none e = refl
number?_≡ none (some b) e = cc
number?_≡ (some a) none e = cc
number?_≡ (some a) (some b) e = let same : a ≡ b = ground arith in ap (λ x. some x) same

flag_≡ : (a b : Bool) → same_flag a b ≡ true → a ≡ b
flag_≡ true b e = sym e
flag_≡ false true e = cc
flag_≡ false false e = refl

pub flag?_≡ : (a b : Option Bool) → same_flag? a b ≡ true → a ≡ b
flag?_≡ none none e = refl
flag?_≡ none (some b) e = cc
flag?_≡ (some a) none e = cc
flag?_≡ (some a) (some b) e = ap (λ x. some x) (flag_≡ a b e)

pub text?_≡ : (a b : Option String) → same_text? a b ≡ true → a ≡ b
text?_≡ none none e = refl
text?_≡ none (some b) e = cc
text?_≡ (some a) none e = cc
text?_≡ (some a) (some b) e = ap (λ x. some x) (text_≡ a b e)

pub number_≡ : (a b : ℕ) → (a == b) ≡ true → a ≡ b
number_≡ a b e = ground arith

same_value_refl : (v : Value) → same_value v v ≡ true
same_value_refl (number n) = ground arith
same_value_refl (flag true) = refl
same_value_refl (flag false) = refl
same_value_refl (Value.text t) = same_text t

apart : (i j : String) → str_eq i j ≡ false → i ≡ j → ⊥
apart i j e same =
    let hit : str_eq i j ≡ true = subst (λ k. str_eq i k ≡ true) same (same_text i) in
    absurd (ground arith)

put_later :
    (k i j : String) (v w : Value) (es : List (String × Value))
    → str_eq i j ≡ false
    → lookup k (put_extra j v es) ≡ (if str_eq j k then some v else lookup k es)
    → (if str_eq i k then some w else lookup k (put_extra j v es))
      ≡ (if str_eq j k then some v else (if str_eq i k then some w else lookup k es))
put_later k i j v w es e h = elim (Bool-cases (str_eq i k)) [
  | inr other ↦ rw other h
  | inl same ↦ elim (Bool-cases (str_eq j k)) [
    | inr b ↦ rw (same, b) refl
    | inl b ↦ absurd (apart i j e (text_≡ i k same ∙ sym (text_≡ j k b)))
  ]
]

lookup-put_extra :
    (k j : String) (v : Value) (es : List (String × Value))
    → lookup k (put_extra j v es) ≡ (if str_eq j k then some v else lookup k es)
unfolding put_extra
lookup-put_extra k j v [] = refl
lookup-put_extra k j v ((i, w) ∷ es) = elim (Bool-cases (str_eq i j)) [
  | inl e ↦
      subst
        (λ i.
          lookup k (put_extra j v ((i, w) ∷ es))
          ≡ (if str_eq j k then some v else lookup k ((i, w) ∷ es)))
        (sym (text_≡ i j e)) (rw (same_text j, put_extra) (ground arith))
  | inr e ↦ rw (e, put_extra) (put_later k i j v w es e (lookup-put_extra k j v es))
]

abbrev pub or_else : Option Value → Option Value → Option Value
or_else none o = o
or_else (some v) o = some v

pair_≡ : (j k : String) (w v : Value) → j ≡ k → w ≡ v → ◌≡◌ {A = String × Value} (j, w) (k, v)
pair_≡ j k w v a b = ap (λ x. (x, w)) a ∙ ap (λ y. (k, y)) b

pub AreKeys-keep_if :
    (test : String × Value → Bool) (es : List (String × Value))
    → AreKeys es
    → AreKeys (keep_if test es)
AreKeys-keep_if test [] a = tt
AreKeys-keep_if test (e ∷ es) a = elim (Bool-cases (test e)) [
  | inl t ↦
      rw t (All-keep_if (λ d. str_eq e.0 d.0 ≡ false) test es a.0, AreKeys-keep_if test es a.1)
  | inr t ↦ rw t (AreKeys-keep_if test es a.1)
]

-- A key that no entry has.
lookup-absent :
    (j k : String) (es : List (String × Value))
    → All (λ d. str_eq j d.0 ≡ false) es
    → j ≡ k
    → lookup k es ≡ none
lookup-absent j k [] h same = refl
lookup-absent j k ((i, w) ∷ es) h same = elim (Bool-cases (str_eq i k)) [
  | inl hit ↦ absurd (apart j i h.0 (same ∙ sym (text_≡ i k hit)))
  | inr miss ↦ rw miss (lookup-absent j k es h.1 same)
]

pub lookup-merge_extra :
    (k : String) (old new : List (String × Value))
    → AreKeys new
    → lookup k (merge_extra old new) ≡ or_else (lookup k new) (lookup k old)
unfolding merge_extra
lookup-merge_extra k old [] h = refl
lookup-merge_extra k old ((j, v) ∷ new) h =
    lookup-merge_extra k (put_extra j v old) new h.1
    ∙ (ap (or_else (lookup k new)) (lookup-put_extra k j v old) ∙ (elim (Bool-cases (str_eq j k)) [
      | inl same ↦ rw (same, lookup-absent j k new h.0 (text_≡ j k same)) refl
      | inr other ↦ rw other refl
    ]))

lookup-keep_if-none :
    (k : String) (test : String × Value → Bool) (es : List (String × Value))
    → lookup k es ≡ none
    → lookup k (keep_if test es) ≡ none
lookup-keep_if-none k test [] h = refl
lookup-keep_if-none k test ((j, w) ∷ es) h = elim (Bool-cases (str_eq j k)) [
  | inl same ↦ cc (rw same at h)
  | inr other ↦ elim (Bool-cases (test (j, w))) [
    | inl t ↦ rw (t, other) (lookup-keep_if-none k test es (rw other at h))
    | inr t ↦ rw t (lookup-keep_if-none k test es (rw other at h))
  ]
]

-- A filter that looks at the key and the value.
lookup-keep_if :
    (k : String) (v : Value) (test : String × Value → Bool) (es : List (String × Value))
    → AreKeys es
    → lookup k es ≡ some v
    → lookup k (keep_if test es) ≡ (if test (k, v) then some v else none)
lookup-keep_if k v test [] a h = cc
lookup-keep_if k v test ((j, w) ∷ es) a h = elim (Bool-cases (str_eq j k)) [
  | inr other ↦ elim (Bool-cases (test (j, w))) [
    | inl t ↦ rw (t, other) (lookup-keep_if k v test es a.1 (rw other at h))
    | inr t ↦ rw t (lookup-keep_if k v test es a.1 (rw other at h))
  ]
  | inl same ↦
      let value : w ≡ v = some-injective _ _ (rw same at h) in
      let entry = pair_≡ j k w v (text_≡ j k same) value in
      elim (Bool-cases (test (k, v))) [
        | inl t ↦
            let t' : test (j, w) ≡ true = ap test entry ∙ t in
            rw (t, t', same) (ap (λ x. some x) value)
        | inr t ↦
            let t' : test (j, w) ≡ false = ap test entry ∙ t in
            rw (t, t') (lookup-keep_if-none k test es (lookup-absent j k es a.0 (text_≡ j k same)))
      ]
]

pub same_as_kept :
    (k : String) (v : Value) (old new : List (String × Value))
    → AreKeys new
    → lookup k new ≡ some v
    → same_value? (or_else (lookup k (changed_extra old new)) (lookup k old)) (some v) ≡ true
same_as_kept k v old new a h =
    let kept = lookup-keep_if k v (λ e. not (same_value? (lookup e.0 old) (some e.1))) new a h in
    elim (Bool-cases (same_value? (lookup k old) (some v))) [
      | inl same ↦ rw kept (rw same same)
      | inr other ↦ rw kept (rw other (same_value_refl v))
    ]

same_value?_refl : (o : Option Value) → same_value? o o ≡ true
same_value?_refl none = refl
same_value?_refl (some v) = same_value_refl v

pub unchanged :
    (k : String) (old new : List (String × Value))
    → lookup k new ≡ none
    → same_value? (or_else (lookup k (changed_extra old new)) (lookup k old)) (lookup k old) ≡ true
unchanged k old new h =
    let gone : lookup k (changed_extra old new) ≡ none = lookup-keep_if-none k _ new h in
    rw gone (same_value?_refl (lookup k old))
