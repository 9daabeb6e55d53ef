-- ===== src/Pipeline/Phased.antt =====
-- Why `_resolve_phased` of polyserve/pipeline.py does not find its own profile under `balanced`: the
-- names of the files in the cache have different lengths.
use polyserve.Base.{
  ℕ, suc, ◌+◌, ◌<◌, String, ◌≡◌, refl, ap, sym, subst, inl, inr, ◌≢◌, Bool, false, none, some, List,
  [], ◌∷◌, ◌++◌, Bool-cases, arith, if◌then◌else◌, str_eq, ◌==◌, ◌<>◌, str_ltb,
}
use polyserve.Base.Sort.{sort, insert}
use text.Mathlib.TextEquality.{eq_iff}
use text.Mathlib.TextLemmas.{nil-append, cons-append}
use polyserve.Float.{Float}
use polyserve.Cache.{
  Profile, Codec, Request, Files, hardware_hash, load, save, request_of, stem_of, option_texts,
  flat_text, path_of, profile_path, same_path,
}
use polyserve.Cache.Stored.{load-save_other}
use polyserve.Pipeline.{SearchOptions, options_key, ttft_option}
use polyserve.Pipeline.Resolve.{Query, phased_request, phased_profile, base_query, new_profile}

size : String → ℕ
size String.[] = 0
size (String.◌∷◌ c s) = suc (size s)

size-append : (a b : String) → size (a <> b) ≡ size a + size b
unfolding size
size-append String.[] b = rw (nil-append b) (omega arith)
size-append (String.◌∷◌ c s) b = rw (cons-append c s b) (omega (arith, size-append s b))

abbrev Entry : Type 0
Entry = String × String

-- What an option adds to a name.
entry_size : Entry → ℕ
entry_size (k, v) = 2 + size k + size (flat_text v)

total : List Entry → ℕ
unfolding entry_size
total [] = 0
total (e ∷ es) = entry_size e + total es

total-append : (xs ys : List Entry) → total (xs ++ ys) ≡ total xs + total ys
unfolding total
total-append [] ys = omega arith
total-append (x ∷ xs) ys = omega (arith, total-append xs ys)

size-option_texts : (es : List Entry) → size (option_texts es) ≡ total es
unfolding total size
size-option_texts [] = refl
size-option_texts ((k, v) ∷ es) =
    let rest = option_texts es in
    omega (
      arith,
      size-append "-" (k <> "-" <> flat_text v <> rest),
      size-append k ("-" <> flat_text v <> rest),
      size-append "-" (flat_text v <> rest),
      size-append (flat_text v) rest,
      size-option_texts es,
    )

total-insert :
    (lt : Entry → Entry → Bool) (e : Entry) (es : List Entry)
    → total (insert lt e es) ≡ total (e ∷ es)
unfolding total insert
total-insert lt e [] = refl
total-insert lt e (d ∷ es) = ground (arith, total-insert lt e es)

total-sort : (lt : Entry → Entry → Bool) (es : List Entry) → total (sort lt es) ≡ total es
unfolding total sort
total-sort lt [] = refl
total-sort lt (e ∷ es) = omega (arith, total-insert lt e (sort lt es), total-sort lt es)

-- A request whose options are longer has another name.
stem-ne :
    (r : Request) (es fs : List Entry)
    → total es < total fs
    → stem_of (record r { options = es }) ≢ stem_of (record r { options = fs })
unfolding stem_of
stem-ne r es fs h e =
    let lt = λ (a b : Entry). str_ltb a.0 b.0 in
    let front =
      if str_eq r.workload "default" then r.objective else r.objective <> "-" <> r.workload in
    let power = if str_eq r.power "off" then "" else "-power-" <> r.power in
    let phases = if str_eq r.phases "unified" then "" else "-phases-" <> r.phases in
    let a = option_texts (sort lt es) in
    let b = option_texts (sort lt fs) in
    let same : size (front <> power <> phases <> a) ≡ size (front <> power <> phases <> b) =
      ap size e in
    absurd (
      omega (
        arith,
        same,
        size-append front (power <> phases <> a),
        size-append power (phases <> a),
        size-append phases a,
        size-append front (power <> phases <> b),
        size-append power (phases <> b),
        size-append phases b,
        size-option_texts (sort lt es),
        size-option_texts (sort lt fs),
        total-sort lt es,
        total-sort lt fs,
      ))

ttft-longer : (p : ℕ) → p ≢ 50 → 0 < total (ttft_option (some "balanced") p)
unfolding total entry_size
ttft-longer p h = elim (Bool-cases (p == 50)) [
  | inl e ↦ absurd (h (ground arith))
  | inr e ↦ rw e (omega arith)
]

module _ {W : Type 0} ⦃f : Float W⦄ where
  options-longer :
      (o : SearchOptions W)
      → o.ttft_percentile ≢ 50
      → total (options_key o none) < total (options_key o (some "balanced"))
  unfolding options_key total
  options-longer o h = omega (arith, total-append, ttft-longer o.ttft_percentile h)

module _ {W P : Type 0} ⦃f : Float W⦄ (codec : Codec P) (quant_of : P → String) (q : Query W)
    (phases : String) (outcome : String × P) (rest : P) where
  -- The profile that a phased run saves when its unified profile is a new one.
  abbrev pub own : Profile P
  own =
      phased_profile codec quant_of q phases
        (new_profile codec quant_of (base_query codec quant_of q phases) outcome) rest

  own-apart :
      q.objective ≡ "balanced"
      → q.options.ttft_percentile ≢ 50
      → same_path
          (path_of codec own)
          (profile_path (hardware_hash codec q.hw) q.spec (phased_request codec quant_of q phases))
        ≡ false
  own-apart b h =
      let long : total (options_key q.options none)
          < total (options_key q.options (some q.objective)) =
        subst (λ x. total (options_key q.options none) < total (options_key q.options (some x)))
          (sym b) (options-longer q.options h) in
      let differ =
        stem-ne (phased_request codec quant_of q phases) (options_key q.options none)
          (options_key q.options (some q.objective)) long in
      elim (Bool-cases (
        str_eq (stem_of (request_of codec own))
          (stem_of (phased_request codec quant_of q phases)))) [
            | inl same ↦ absurd (differ (sym ((eq_iff _ _).0 same)))
            | inr other ↦ ground arith
          ]

  -- Under `balanced`, unless the limit is on the median, the profile that a phased run saves changes
  -- nothing of what a phased run finds in the cache: it is saved under options that name the
  -- percentile, and looked for under options that do not.
  pub phased_save-unfound :
      (files t : Files)
      → q.objective ≡ "balanced"
      → q.options.ttft_percentile ≢ 50
      → save codec own files ≡ some t
      → load codec q.hw q.spec (phased_request codec quant_of q phases) t
        ≡ load codec q.hw q.spec (phased_request codec quant_of q phases) files
  phased_save-unfound files t b h e =
      load-save_other codec own q.hw q.spec (phased_request codec quant_of q phases) files t e
        (own-apart b h)
