-- ===== src/Temporal/Invariant/Close.antt =====
-- A slot has at most one open window, and closing it keeps the table consistent.
use twilight_core_explorer.Common.{
  ◌≢◌, ℕ, ◌≤◌, ◌<◌, ◌≡◌, refl, sym, ap, ◌⊎◌, inl, inr, ◌∙◌, true, false, none, List, [], ◌∷◌, All,
  All-map, arith, keep_if, Bool-cases,
}
use twilight_core_explorer.Temporal.Types.{Window, Db, CloseInput}
use twilight_core_explorer.Temporal.Table.{
  covers, update_window, is_open_slot_window, find_open_slot_windows, sort_by,
}
use twilight_core_explorer.Temporal.Window.{closed, close_window}
use twilight_core_explorer.Temporal.Lists.{
  In, All-In, Pairs, keep_if_nil, keep_if_kept, keep_if_dropped, All-keep_if_nil,
}
use twilight_core_explorer.Temporal.Invariant.{
  SameBelow, SameBelow-refl, Extends-map, Past, IsApart, IsBounded, IsConsistent, IsBounded-mono,
}
use twilight_core_explorer.Temporal.Invariant.Update.{
  Shrinks, Shrinks-refl, Pairs-IsApart-map, unique_id, at_id, All-update, All-update_ne, All-of_map,
}

pub open_slot : (s : ℕ) (w : Window) → is_open_slot_window s w ≡ true → w.slot_id ≡ s
open_slot s w e = ground arith

pub open_end : (s : ℕ) (w : Window) → is_open_slot_window s w ≡ true → w.effective_to_height ≡ none
open_end s w e = ground arith

pub open-covers :
    (h : ℕ) (w : Window)
    → w.effective_from_height ≤ h
    → w.effective_to_height ≡ none
    → covers h w ≡ true
unfolding covers
open-covers h w le e = ground arith

module _ (h n s : ℕ) where
  both_open :
      (w v : Window)
      → IsApart w v
      → IsBounded h n w
      → IsBounded h n v
      → is_open_slot_window s w ≡ true
      → is_open_slot_window s v ≡ false
  both_open w v a b c e = elim (Bool-cases (is_open_slot_window s v)) [
    | inl o ↦ absurd (
        a.disjoint (inl (open_slot s w e ∙ sym (open_slot s v o))) h
          (open-covers h w b.starts (open_end s w e)) (open-covers h v c.starts (open_end s v o)))
    | inr c ↦ c
  ]

  rest_closed :
      (w : Window) (vs : List Window)
      → All (IsApart w) vs
      → IsBounded h n w
      → All (IsBounded h n) vs
      → is_open_slot_window s w ≡ true
      → All (λ v. is_open_slot_window s v ≡ false) vs
  rest_closed w [] a b bs e = tt
  rest_closed w (v ∷ vs) a b bs e = (both_open w v a.0 b bs.0 e, rest_closed w vs a.1 b bs.1 e)

  abbrev AtMostOne : List Window → Type 0
  AtMostOne ws =
      (keep_if (is_open_slot_window s) ws ≡ [])
      ⊎ ((w : Window) × (keep_if (is_open_slot_window s) ws ≡ w ∷ [])
          × In w ws
          × (is_open_slot_window s w ≡ true))

  pass_on :
      (w : Window) (ws : List Window)
      → is_open_slot_window s w ≡ false
      → AtMostOne ws
      → AtMostOne (w ∷ ws)
  pass_on w ws e (inl nil) = inl (keep_if_dropped _ w ws e ∙ nil)
  pass_on w ws e (inr (v, one, m, o)) = inr (v, keep_if_dropped _ w ws e ∙ one, inr m, o)

  at_most_one : (ws : List Window) → All (IsBounded h n) ws → Pairs IsApart ws → AtMostOne ws
  at_most_one [] b p = inl refl
  at_most_one (w ∷ ws) b p = elim (Bool-cases (is_open_slot_window s w)) [
    | inl e ↦ inr (
      w,
      keep_if_kept _ w ws e ∙ ap (λ l. w ∷ l) (keep_if_nil _ ws (rest_closed w ws p.0 b.0 b.1 e)),
      inl refl,
      e,
    )
    | inr e ↦ pass_on w ws e (at_most_one ws b.1 p.1)
  ]

pub data OpenOf (s : ℕ) (ws : List Window) : Type 0 where
  none_open :
      find_open_slot_windows s ws ≡ [] → All (λ v. is_open_slot_window s v ≡ false) ws → OpenOf s ws
  one_open :
      (w : Window)
      → find_open_slot_windows s ws ≡ w ∷ []
      → In w ws
      → is_open_slot_window s w ≡ true
      → OpenOf s ws

open_of : (s : ℕ) (ws : List Window) (h n : ℕ) → AtMostOne h n s ws → OpenOf s ws
unfolding find_open_slot_windows
open_of s ws h n (inl e) =
    none_open (ap (sort_by (λ w. w.effective_from_height)) e) (All-keep_if_nil _ ws e)
open_of s ws h n (inr (w, e, m, o)) = one_open w (ap (sort_by (λ v. v.effective_from_height)) e) m o

-- A consistent table has at most one open window of each slot.
pub OpenOf-slot : {past : Past} (h s : ℕ) (db : Db) → IsConsistent past h db → OpenOf s db.windows
OpenOf-slot h s db c =
    open_of s db.windows h db.next_id (at_most_one h db.next_id s db.windows c.bounded c.apart)

closed-Shrinks :
    (input : CloseInput) (w : Window) → w.effective_to_height ≡ none → Shrinks w (closed input w)
closed-Shrinks input w e = record {
  id = refl;
  slot = refl;
  address = refl;
  within = λ k p. unfold covers in ground arith;
}

closed-SameBelow :
    (h' : ℕ) (input : CloseInput) (w : Window)
    → input.effective_to_height ≡ h'
    → w.effective_to_height ≡ none
    → SameBelow h' w (closed input w)
closed-SameBelow h' input w at e = record {
  slot = refl;
  address = refl;
  start = refl;
  below = λ k lt. unfold covers in ground arith;
}

closed-IsBounded :
    (h h' n : ℕ) (input : CloseInput) (w : Window)
    → h ≤ h'
    → input.effective_to_height ≡ h'
    → w.effective_from_height < h'
    → IsBounded h n w
    → IsBounded h' n (closed input w)
closed-IsBounded h h' n input w le e lt b = record {
  fresh = b.fresh;
  active = b.active;
  starts = omega arith;
  ends = (omega arith, omega arith);
}

module _ {past : Past} (h h' : ℕ) (input : CloseInput) (w : Window) (db : Db) (le : h ≤ h')
    (at : input.effective_to_height ≡ h') (c : IsConsistent past h db) (m : In w db.windows)
    (o : w.effective_to_height ≡ none) (lt : w.effective_from_height < h') where
  pub close_window_lem :
      close_window w input db
      ≡ (true, record db { windows = update_window w.id (closed input) db.windows })
  unfolding close_window
  close_window_lem = ground arith

  pub close-IsConsistent :
      IsConsistent past h' (record db { windows = update_window w.id (closed input) db.windows })
  unfolding update_window
  close-IsConsistent = record {
    bounded = All-of_map (IsBounded h' db.next_id) (at_id w.id (closed input)) db.windows (
        All-update (λ _. IsBounded h' db.next_id) w (closed input) db.windows
          (unique_id w db.windows m c.apart)
          (closed-IsBounded h h' db.next_id input w le at lt
            (All-In (IsBounded h db.next_id) w db.windows c.bounded m))
          (All-map (IsBounded h db.next_id) (IsBounded h' db.next_id) db.windows
            (λ v. IsBounded-mono h h' db.next_id db.next_id v le (omega arith)) c.bounded));
    apart =
        Pairs-IsApart-map (at_id w.id (closed input)) db.windows
          (All-update Shrinks w (closed input) db.windows (unique_id w db.windows m c.apart)
            (closed-Shrinks input w o) (all_same db.windows))
          c.apart;
    since = let s = c.since in omega arith;
    history =
        Extends-map past.height h' (at_id w.id (closed input)) past.windows db.windows
          (let s = c.since in omega arith)
          (All-update (SameBelow h') w (closed input) db.windows (unique_id w db.windows m c.apart)
            (closed-SameBelow h' input w at o) (All-SameBelow db.windows))
          c.history;
  }
    where
      all_same : (ws : List Window) → All (λ v. Shrinks v v) ws
      all_same [] = tt
      all_same (v ∷ vs) = (Shrinks-refl v, all_same vs)

      All-SameBelow : (ws : List Window) → All (λ v. SameBelow h' v v) ws
      All-SameBelow [] = tt
      All-SameBelow (v ∷ vs) = (SameBelow-refl h' v, All-SameBelow vs)

module _ (h n s : ℕ) (w : Window) (o : is_open_slot_window s w ≡ true) where
  before_closed :
      (x : Window)
      → IsApart x w
      → IsBounded h n x
      → IsBounded h n w
      → is_open_slot_window s x ≡ false
  before_closed x a b c = elim (Bool-cases (is_open_slot_window s x)) [
    | inl e ↦ cc (both_open h n s x w a b c e)
    | inr e ↦ e
  ]

  -- The other windows of an open window's slot are closed.
  pub others_closed :
      (ws : List Window)
      → In w ws
      → All (IsBounded h n) ws
      → Pairs IsApart ws
      → All (λ v. v.id ≢ w.id → is_open_slot_window s v ≡ false) ws
  others_closed [] m b p = tt
  others_closed (x ∷ xs) (inl e) b p = (
    λ ne. absurd (ne (ap (λ (z : Window). z.id) e)),
    All-map (λ v. is_open_slot_window s v ≡ false) _ xs (λ v c _. c)
        (rest_closed h n s x xs p.0 b.0 b.1 (rw e o)),
  )
  others_closed (x ∷ xs) (inr m) b p = (
    λ _. before_closed x (All-In (IsApart x) w xs p.0 m) b.0 (All-In (IsBounded h n) w xs b.1 m),
    others_closed xs m b.1 p.1,
  )

-- After its open window is closed a slot has none.
pub none_open_after :
    {past : Past} (h s : ℕ) (input : CloseInput) (w : Window) (db : Db)
    → IsConsistent past h db
    → In w db.windows
    → is_open_slot_window s w ≡ true
    → All (λ v. is_open_slot_window s v ≡ false) (update_window w.id (closed input) db.windows)
unfolding update_window
none_open_after h s input w db c m o =
    All-of_map (λ v. is_open_slot_window s v ≡ false) (at_id w.id (closed input)) db.windows
      (All-update_ne (λ _ v. is_open_slot_window s v ≡ false) w (closed input) db.windows
        (unique_id w db.windows m c.apart) (ground arith)
        (others_closed h db.next_id s w o db.windows m c.bounded c.apart))
