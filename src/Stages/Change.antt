-- ===== src/Stages/Change.antt =====
-- About `_delta` and `_apply` of polyserve/calibrate/search.py.
use polyserve.Base.{Option-cases, String, ◌≡◌, inl, inr, true}
use polyserve.Models.{Config, lookup}
use polyserve.Search.Keys.{AreKeys}
use polyserve.Stages.Delta.{same_value?, changed_extra, delta, apply}
use polyserve.Stages.Extra.{
  change_back, text_≡, number?_≡, flag?_≡, text?_≡, number_≡, or_else, AreKeys-keep_if,
  lookup-merge_extra, same_as_kept, unchanged,
}

module _ {W : Type 0} where
  -- The settings that `_delta` looks at.
  abbrev pub Settles : Config W → Config W → Type 0
  Settles new var =
      (new.batch ≡ var.batch)
      × (new.n_batch ≡ var.n_batch)
      × (new.prefill_budget ≡ var.prefill_budget)
      × (new.kv_dtype ≡ var.kv_dtype)
      × (new.prefix_cache ≡ var.prefix_cache)
      × (new.spec_decode ≡ var.spec_decode)

  apply-delta-Settles : (ref var : Config W) → Settles (apply ref (delta ref var)) var
  unfolding apply delta
  apply-delta-Settles ref var = (
    change_back _ _ _ (number_≡ _ _),
    change_back _ _ _ (number?_≡ _ _),
    change_back _ _ _ (number?_≡ _ _),
    change_back _ _ _ (text_≡ _ _),
    change_back _ _ _ (flag?_≡ _ _),
    change_back _ _ _ (text?_≡ _ _),
  )

  -- What `_apply` makes of a configuration and the change from it to a variant, whose keys in `extra`
  -- are distinct, has the variant's value of each setting that the change covers, and for each key of
  -- `extra` a value that equals the variant's, or the configuration's where the variant has none.
  pub apply-delta :
      (ref var : Config W) (k : String)
      → AreKeys var.extra
      → Settles (apply ref (delta ref var)) var
        × (same_value?
              (lookup k (apply ref (delta ref var)).extra)
              (or_else (lookup k var.extra) (lookup k ref.extra))
            ≡ true)
  unfolding apply delta
  apply-delta ref var k keys =
      let kept : AreKeys (changed_extra ref.extra var.extra) = AreKeys-keep_if _ var.extra keys in
      let merged = lookup-merge_extra k ref.extra (changed_extra ref.extra var.extra) kept in
      (
        apply-delta-Settles ref var,
        (elim (Option-cases (lookup k var.extra)) [
          | inr (v, h) ↦ rw (merged, h) (same_as_kept k v ref.extra var.extra keys h)
          | inl h ↦ rw (merged, h) (unchanged k ref.extra var.extra h)
        ]),
      )
