-- ===== src/Draw/Candidates/Canonical.antt =====
-- A candidate list is accepted exactly where it is canonical.
use twilight_core_explorer.Common.{
  ℕ, ◌≤◌, ◌≡◌, refl, sym, ap, subst, ◌∙◌, ◌↔◌, inl, inr, true, false, ◌||◌, Option, none, some,
  List, [], ◌∷◌, map, All, arith, length, length-map, ltb, Option-cases, Bool-cases,
}
use twilight_core_explorer.Json.{Json, str, arr, items, Items}
use twilight_core_explorer.Draw.Bytes.{Bytes, to_hex, draw_id32}
use twilight_core_explorer.Draw.Candidates.{
  max_candidates, may_follow, admit, parse_entries, parse_candidates, parse_items,
}
use twilight_core_explorer.Draw.Candidates.Laws.{IsDrawId, draw_id32_complete, draw_id32_sound}

abbrev pub Ascends : Option Bytes → List Bytes → Type 0
Ascends prev [] = Unit
Ascends prev (id ∷ ids) = (may_follow prev id ≡ true) × Ascends (some id) ids

-- The ids in their texts.
abbrev pub id_texts : List Bytes → List Json
id_texts = map (λ id. str (to_hex id))

admit-eq-some :
    (prev read : Option Bytes) (rest : Bytes → Option (List Bytes)) (ids : List Bytes)
    → admit prev read rest ≡ some ids
    → (id : Bytes) × (more : List Bytes) × (read ≡ some id)
      × (may_follow prev id ≡ true)
      × (rest id ≡ some more)
      × (ids ≡ id ∷ more)
admit-eq-some prev none rest ids h = cc
admit-eq-some prev (some id) rest ids h = elim (Bool-cases (may_follow prev id)) [
  | inr out ↦ cc (let h' : none ≡ some ids = rw out at h in h')
  | inl in_order ↦ elim (Option-cases (rest id)) [
    | inl bad ↦ cc (let h' : none ≡ some ids = rw (in_order, bad) at h in h')
    | inr (more, good) ↦
        let h' : some (id ∷ more) ≡ some ids = rw (in_order, good) at h in
        (id, more, refl, in_order, good, cc)
  ]
]

entries_sound :
    (prev : Option Bytes) (entries : List Json) (ids : List Bytes)
    → parse_entries prev entries ≡ some ids
    → (entries ≡ id_texts ids) × All IsDrawId ids × Ascends prev ids
unfolding parse_entries
entries_sound prev [] ids h = rw (let e : [] ≡ ids = cc in sym e) (refl, tt, tt)
entries_sound prev (v ∷ vs) ids h =
    let (id, more, read, order, good, e) = admit-eq-some prev (draw_id32 v) _ ids h in
    let ih = entries_sound (some id) vs more good in
    let d = draw_id32_sound v id read in rw e (cc (d.0, ih.0), (d.1, ih.1), (order, ih.2))

entries_complete :
    (prev : Option Bytes) (ids : List Bytes)
    → All IsDrawId ids
    → Ascends prev ids
    → parse_entries prev (id_texts ids) ≡ some ids
unfolding parse_entries
entries_complete prev [] d a = refl
entries_complete prev (id ∷ ids) d a =
    rw (draw_id32_complete id d.0, a.0, entries_complete (some id) ids d.1 a.1)

within_iff :
    (n m : ℕ) → (ltb max_candidates n || ltb m n ≡ false) ↔ ((n ≤ max_candidates) × (n ≤ m))
within_iff n m = ground arith

abbrev Accepted : List Json → ℕ → List Bytes → Type 0
Accepted entries m ids =
    (entries ≡ id_texts ids)
    × All IsDrawId ids
    × Ascends none ids
    × (length ids ≤ max_candidates)
    × (length ids ≤ m)

parse_items_sound :
    (entries : List Json) (m : ℕ) (ids : List Bytes)
    → parse_items entries m ≡ some ids
    → Accepted entries m ids
parse_items_sound entries m ids h =
    elim (Bool-cases (ltb max_candidates (length entries) || ltb m (length entries))) [
      | inl many ↦ cc (let h' : none ≡ some ids = rw many at h in h')
      | inr few ↦
          let s = entries_sound none entries ids (rw few at h) in
          let w = (within_iff (length entries) m).0 few in
          let size : length entries ≡ length ids = ap length s.0 ∙ length-map _ ids in
          (s.0, s.1, s.2, subst (λ n. n ≤ max_candidates) size w.0, subst (λ n. n ≤ m) size w.1)
    ]

parse_items_complete :
    (m : ℕ) (ids : List Bytes)
    → All IsDrawId ids
    → Ascends none ids
    → length ids ≤ max_candidates
    → length ids ≤ m
    → parse_items (id_texts ids) m ≡ some ids
parse_items_complete m ids d a le le' =
    rw (length-map (λ id. str (to_hex id)) ids, (within_iff (length ids) m).1 (le, le'))
      (entries_complete none ids d a)

-- The list `xs` is accepted as `ids` exactly where its entries are the lower-case texts of `ids`, each
-- is 32 bytes and not all zero, they ascend strictly, and they are no more than this explorer's and
-- the parameters' caps.
pub parse_candidates_iff :
    (xs : Items) (m : ℕ) (ids : List Bytes)
    → (parse_candidates (some (arr xs)) m ≡ some ids) ↔ (
        (items xs ≡ id_texts ids)
        × All IsDrawId ids
        × Ascends none ids
        × (length ids ≤ max_candidates)
        × (length ids ≤ m))
unfolding parse_candidates
parse_candidates_iff xs m ids = (
  parse_items_sound (items xs) m ids,
  λ (e, d, a, le, le'). rw e (parse_items_complete m ids d a le le'),
)
