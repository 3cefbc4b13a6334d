-- ===== src/Draw/Beacon.antt =====
-- `assessBeacon` of draw-verify.ts: the beacon window, from the rows that were fetched.
pub mod Laws
use twilight_core_explorer.Common.{
  ℕ, suc, ◌+◌, ◌-◌, Bool, true, false, ◌&&◌, ◌||◌, Option, none, some, List, [], ◌∷◌, ltb, leb,
  ◌==◌, length, map, any, keep_if, if◌then◌else◌,
}
use twilight_core_explorer.Text.{Text}
use twilight_core_explorer.Draw.Bytes.{Bytes, hex32}

pub record WindowBlock : Type 0 where
  pub height : ℕ
  pub hash : Option Text
  pub proposer_slot_id : Option ℕ

pub record Entry : Type 0 where
  pub height : ℕ
  pub slot : ℕ
  pub hash : Bytes

pub record BeaconComputation : Type 0 where
  pub entries : List Entry
  pub usable : ℕ
  pub distinct : ℕ
  pub excluded_target : ℕ
  pub missing : ℕ

-- `byHeight.set`, in the order of the heights in which the source walks the map: a later row of the
-- same height takes the place of the earlier one.
unfoldable pub put_block : WindowBlock → List WindowBlock → List WindowBlock
put_block b [] = b ∷ []
put_block b (c ∷ cs) =
    if b.height == c.height
    then b ∷ cs
    else if ltb b.height c.height
    then b ∷ c ∷ cs
    else c ∷ put_block b cs

-- the map of the rows of the window; `seen` are the rows before
unfoldable pub by_height : ℕ → ℕ → List WindowBlock → List WindowBlock → List WindowBlock
unfolding put_block
by_height start end' seen [] = seen
by_height start end' seen (b ∷ bs) =
    by_height start end'
      (if leb start b.height && leb b.height end' then put_block b seen else seen) bs

pub record Tally : Type 0 where
  pub entries : List Entry
  pub excluded : ℕ
  pub present : ℕ

-- one round of the loop over the rows; `t` are the rows after it
abbrev pub tally_one : ℕ → ℕ → Option Bytes → Option ℕ → Tally → Tally
tally_one target height (some hash) (some slot) t =
    if slot == target
    then record t { excluded = t.excluded + 1; present = t.present + 1 }
    else record {
      entries = record { height = height; slot = slot; hash = hash } ∷ t.entries;
      excluded = t.excluded;
      present = t.present + 1;
    }
tally_one target height _ _ t = t

unfoldable pub tally : ℕ → List WindowBlock → Tally
unfolding hex32
tally target [] = record { entries = []; excluded = 0; present = 0 }
tally target (b ∷ bs) =
    tally_one target b.height (hex32 b.hash) b.proposer_slot_id (tally target bs)

-- `new Set(slots).size`
unfoldable pub count_distinct : List ℕ → ℕ
count_distinct [] = 0
count_distinct (s ∷ ss) =
    let rest = count_distinct ss in if any (λ t. t == s) ss then rest else suc rest

abbrev pub computation : ℕ → ℕ → Tally → BeaconComputation
computation start end' t = record {
  entries = t.entries;
  usable = length t.entries;
  distinct = count_distinct (map (λ (e : Entry). e.slot) t.entries);
  excluded_target = t.excluded;
  missing = end' + 1 - start - t.present;
}

-- `assessBeacon`, for a window that does not end before it starts
unfoldable pub assess_beacon : List WindowBlock → ℕ → ℕ → ℕ → BeaconComputation
unfolding by_height tally count_distinct
assess_beacon blocks start end' target =
    computation start end' (tally target (by_height start end' [] blocks))
