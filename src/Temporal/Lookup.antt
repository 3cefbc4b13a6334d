-- ===== src/Temporal/Lookup.antt =====
-- What the lookups of coreslot-temporal-map.ts answer on a consistent table, and that what was
-- answered for the heights below the horizon stays so.
use twilight_core_explorer.Common.{
  ℕ, ◌≡◌, sym, ap, ◌⊎◌, inl, inr, ◌∙◌, ◌↔◌, true, false, Option, some, List, [], ◌∷◌, All, arith,
  keep_if, Bool-cases, Option-cases, ltb,
}
use twilight_core_explorer.Text.{Text, ok, normalize_consensus_address}
use twilight_core_explorer.Text.Laws.{eq_text_iff}
use twilight_core_explorer.Temporal.Types.{Window, Db}
use twilight_core_explorer.Temporal.Table.{
  covers, covers_address, latest, find_consensus_window_at_height,
}
use twilight_core_explorer.Temporal.Lists.{
  In, All-In, In-keep_if, Pairs, keep_if_kept, keep_if_dropped, keep_if_nil,
}
use twilight_core_explorer.Temporal.Invariant.{Past, IsApart, IsConsistent}

In-latest : (ws : List Window) (w : Window) → latest ws ≡ some w → In w ws
unfolding latest
In-latest [] w e = cc
In-latest (v ∷ vs) w e = elim (Option-cases (latest vs)) [
  | inl none_left ↦ inl (ground arith)
  | inr (u, found) ↦ elim (Bool-cases (ltb v.effective_from_height u.effective_from_height)) [
    | inl later ↦ inr (In-latest vs w (ground arith))
    | inr earlier ↦ inl (ground arith)
  ]
]

-- A window of an address that covers a height.
pub record IsOwner (ws : List Window) (a : Text) (k : ℕ) (w : Window) : Type 0 where
  pub stored : In w ws
  pub address : w.consensus_address ≡ a
  pub covering : covers k w ≡ true

module _ (a : Text) (k : ℕ) where
  covers_address_iff :
      (w : Window)
      → (covers_address a k w ≡ true) ↔ ((w.consensus_address ≡ a) × (covers k w ≡ true))
  covers_address_iff w = ground (arith, eq_text_iff w.consensus_address a)

  others_out :
      (w : Window) (vs : List Window)
      → All (IsApart w) vs
      → covers_address a k w ≡ true
      → All (λ v. covers_address a k v ≡ false) vs
  others_out w [] p o = tt
  others_out w (v ∷ vs) p o = (
    elim (Bool-cases (covers_address a k v)) [
      | inl e ↦
          let r = (covers_address_iff w).0 o in
          let q = (covers_address_iff v).0 e in
          absurd (p.0.disjoint (inr (r.0 ∙ sym q.0)) k r.1 q.1)
      | inr e ↦ e
    ],
    others_out w vs p.1 o,
  )

  -- Of windows that are apart, the filter keeps the one that covers.
  only_owner :
      (ws : List Window) (w : Window)
      → Pairs IsApart ws
      → In w ws
      → covers_address a k w ≡ true
      → keep_if (covers_address a k) ws ≡ w ∷ []
  only_owner [] w p m o = absurd m
  only_owner (v ∷ vs) w p (inl e) o =
      keep_if_kept (covers_address a k) v vs (rw e o)
      ∙ (rw (keep_if_nil _ vs (others_out v vs p.0 (rw e o))) (ap (λ x. x ∷ []) e))
  only_owner (v ∷ vs) w p (inr m) o =
      keep_if_dropped _ v vs (out (Bool-cases (covers_address a k v))) ∙ only_owner vs w p.1 m o
    where
      out :
          (covers_address a k v ≡ true) ⊎ (covers_address a k v ≡ false)
          → covers_address a k v ≡ false
      out (inl e) = cc (All-In (λ u. covers_address a k u ≡ false) w vs (others_out v vs p.0 e) m)
      out (inr e) = e

-- On a consistent table the lookup by consensus address finds a window exactly where one of that
-- address covers the height, and then it is that window: the owner of an address at a height is
-- unique.
pub find-eq-some_iff :
    {past : Past} (h k : ℕ) (db : Db) (given : Option Text) (a : Text) (w : Window)
    → IsConsistent past h db
    → normalize_consensus_address given ≡ ok a
    → (find_consensus_window_at_height given k db.windows ≡ some w) ↔ IsOwner db.windows a k w
unfolding find_consensus_window_at_height
find-eq-some_iff h k db given a w c n = (
  (λ e.
      let m = In-latest (keep_if (covers_address a k) db.windows) w (rw n at e) in
      let r = In-keep_if (covers_address a k) w db.windows m in
      let q = (covers_address_iff a k w).0 r.1 in
      record { stored = r.0; address = q.0; covering = q.1 }),
  λ o. rw n (
      ap latest (
        only_owner a k db.windows w c.apart o.stored
          ((covers_address_iff a k w).1 (o.address, o.covering)))),
)
