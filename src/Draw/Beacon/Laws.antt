-- ===== src/Draw/Beacon/Laws.antt =====
-- What `assessBeacon` counts, for rows in any order and with repeated heights.
use twilight_core_explorer.Common.{
  ℕ, suc, ◌+◌, ◌≤◌, ◌≡◌, ◌≢◌, refl, sym, subst, ltb→lt, ==_iff, true, false, ◌&&◌, Option, none,
  some, List, [], ◌∷◌, arith, ltb, leb, ◌==◌, length, inl, inr, Bool-cases, if◌then◌else◌,
}
use twilight_core_explorer.Draw.Bytes.{Bytes, hex32}
use twilight_core_explorer.Draw.Beacon.{
  WindowBlock, Entry, put_block, by_height, Tally, tally_one, tally, assess_beacon,
}

-- Rows of ascending heights from `lo` up to `hi`.
abbrev Rises : ℕ → ℕ → List WindowBlock → Type 0
Rises lo hi [] = Unit
Rises lo hi (b ∷ bs) = (lo ≤ b.height) × (b.height ≤ hi) × Rises (suc b.height) hi bs

-- Entries of ascending heights from `lo` up to `hi`, none of them proposed by the target slot.
abbrev pub Ascends : ℕ → ℕ → ℕ → List Entry → Type 0
Ascends target lo hi [] = Unit
Ascends target lo hi (e ∷ es) =
    (lo ≤ e.height) × (e.height ≤ hi) × (e.slot ≢ target) × Ascends target (suc e.height) hi es

put_block-Rises :
    (b : WindowBlock) (lo hi : ℕ) (bs : List WindowBlock)
    → lo ≤ b.height
    → b.height ≤ hi
    → Rises lo hi bs
    → Rises lo hi (put_block b bs)
unfolding put_block
put_block-Rises b lo hi [] le le' h = (le, le', tt)
put_block-Rises b lo hi (c ∷ cs) le le' h = elim (Bool-cases (b.height == c.height)) [
  | inl same ↦
      rw same
        (le, le', subst (λ n. Rises (suc n) hi cs) (sym ((==_iff b.height c.height).0 same)) h.2)
  | inr other ↦ rw other (elim (Bool-cases (ltb b.height c.height)) [
    | inl before ↦ rw before (le, le', (ltb→lt b.height c.height before, h.1, h.2))
    | inr after ↦ rw after (
      h.0,
      h.1,
      put_block-Rises b (suc c.height) hi cs (later b.height c.height other after) le' h.2,
    )
  ])
]
  where
    later : (m n : ℕ) → (m == n) ≡ false → ltb m n ≡ false → suc n ≤ m
    later m n d l = ground arith

if-Rises :
    (b : WindowBlock) (lo hi : ℕ) (seen : List WindowBlock)
    → Rises lo hi seen
    → Rises lo hi (if leb lo b.height && leb b.height hi then put_block b seen else seen)
if-Rises b lo hi seen h = elim (Bool-cases (leb lo b.height && leb b.height hi)) [
  | inl inside ↦
      rw inside
        (let (le, le') = within lo b.height hi inside in put_block-Rises b lo hi seen le le' h)
  | inr outside ↦ rw outside h
]
  where
    within : (m n o : ℕ) → (leb m n && leb n o) ≡ true → (m ≤ n) × (n ≤ o)
    within m n o e = ground arith

by_height-Rises :
    (lo hi : ℕ) (bs seen : List WindowBlock)
    → Rises lo hi seen
    → Rises lo hi (by_height lo hi seen bs)
unfolding by_height
by_height-Rises lo hi [] seen h = h
by_height-Rises lo hi (b ∷ bs) seen h =
    by_height-Rises lo hi bs (if leb lo b.height && leb b.height hi then put_block b seen else seen)
      (if-Rises b lo hi seen h)

-- what the loop over ascending rows counts
record Counts (target lo hi : ℕ) (t : Tally) : Type 0 where
  present : t.present + lo ≤ suc hi
  total : length t.entries + t.excluded ≡ t.present
  entries : Ascends target lo hi t.entries

weaken-Ascends :
    (target lo lo' hi : ℕ) (es : List Entry)
    → lo ≤ lo'
    → Ascends target lo' hi es
    → Ascends target lo hi es
weaken-Ascends target lo lo' hi [] le h = tt
weaken-Ascends target lo lo' hi (e ∷ es) le h = (let low = h.0 in omega arith, h.1, h.2, h.3)

step-Counts :
    (target lo hi height : ℕ) (hash : Option Bytes) (slot : Option ℕ) (t : Tally)
    → lo ≤ height
    → height ≤ hi
    → Counts target (suc height) hi t
    → Counts target lo hi (tally_one target height hash slot t)
step-Counts target lo hi height none slot t le le' c = record {
  present = let p = c.present in omega arith;
  total = c.total;
  entries = weaken-Ascends target lo (suc height) hi t.entries (omega arith) c.entries;
}
step-Counts target lo hi height (some hash) none t le le' c = record {
  present = let p = c.present in omega arith;
  total = c.total;
  entries = weaken-Ascends target lo (suc height) hi t.entries (omega arith) c.entries;
}
step-Counts target lo hi height (some hash) (some slot) t le le' c =
    elim (Bool-cases (slot == target)) [
      | inl same ↦ rw same (record {
        present = let p = c.present in omega arith;
        total = let q = c.total in omega arith;
        entries = weaken-Ascends target lo (suc height) hi t.entries (omega arith) c.entries;
      })
      | inr other ↦ rw other (record {
        present = let p = c.present in omega arith;
        total = let q = c.total in omega arith;
        entries = (le, le', apart slot other, c.entries);
      })
    ]
  where
    apart : (s : ℕ) → (s == target) ≡ false → s ≢ target
    apart s e = ground arith

tally-Counts :
    (target lo hi : ℕ) (bs : List WindowBlock)
    → lo ≤ suc hi
    → Rises lo hi bs
    → Counts target lo hi (tally target bs)
unfolding tally
tally-Counts target lo hi [] le h = record { present = omega arith; total = refl; entries = tt }
tally-Counts target lo hi (b ∷ bs) le h =
    step-Counts target lo hi b.height (hex32 b.hash) b.proposer_slot_id (tally target bs) h.0 h.1
      (tally-Counts target (suc b.height) hi bs (let q = h.1 in omega arith) h.2)

-- For a window that does not end before it starts, whatever rows were fetched: the usable, the excluded
-- and the missing blocks make up the window; and the usable entries have ascending heights inside the
-- window, none of them proposed by the target slot.
pub assess_beacon_lem :
    (blocks : List WindowBlock) (start end' target : ℕ)
    → start ≤ end'
    → (let c = assess_beacon blocks start end' target in
        (c.usable + c.excluded_target + c.missing + start ≡ end' + 1)
        × Ascends target start end' c.entries)
unfolding assess_beacon
assess_beacon_lem blocks start end' target le =
    let c =
      tally-Counts target start end' (by_height start end' [] blocks) (omega arith)
        (by_height-Rises start end' blocks [] tt) in
    let present = c.present in let total = c.total in (omega arith, c.entries)
