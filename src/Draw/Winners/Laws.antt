-- ===== src/Draw/Winners/Laws.antt =====
-- The number of winners against its formula.
use Prim.Native.Nat.{min, max}
use twilight_core_explorer.Common.{ap, ℕ, ◌+◌, ◌*◌, ◌/◌, ◌%◌, ◌≤◌, ◌<◌, ◌≡◌, refl, arith}
use twilight_core_explorer.Draw.Winners.{cap_at, winner_count}

-- The source splits the product so that no intermediate value is large; the quotient is the same.
split_product : (c r : ℕ) → c / 10000 * r + c % 10000 * r / 10000 ≡ c * r / 10000
split_product c r =
    let whole : c * r ≡ (c / 10000 * 10000 + c % 10000) * r = ap (λ (x : ℕ). x * r) (omega arith) in
    omega arith

cap_at-min : (cap k : ℕ) → cap_at cap k ≡ min k cap
cap_at-min cap k = ground arith

-- For two candidates or more the number of winners is the least of the rate's share, but one at
-- least, the two caps, and half of the candidates; for none it is zero, and for one it is one.
pub winner_count_formula :
    (c rate max_sel max_per_sel : ℕ)
    → (winner_count 0 rate max_sel max_per_sel ≡ 0)
      × (winner_count 1 rate max_sel max_per_sel ≡ 1)
      × (2 ≤ c
          → winner_count c rate max_sel max_per_sel
            ≡ min (min (min (max 1 (c * rate / 10000)) max_sel) max_per_sel) (c / 2))
unfolding winner_count
winner_count_formula c rate max_sel max_per_sel =
    (refl, refl, λ h. ground (arith, split_product c rate))

-- Where the caps are not zero, a draw among two or more has a winner, and never more than half of
-- the candidates win.
pub winner_count_bounds :
    (c rate max_sel max_per_sel : ℕ)
    → 2 ≤ c
    → 0 < max_sel
    → 0 < max_per_sel
    → (0 < winner_count c rate max_sel max_per_sel)
      × (winner_count c rate max_sel max_per_sel * 2 ≤ c)
      × (winner_count c rate max_sel max_per_sel ≤ max_sel)
      × (winner_count c rate max_sel max_per_sel ≤ max_per_sel)
winner_count_bounds c rate max_sel max_per_sel h p q =
    rw ((winner_count_formula c rate max_sel max_per_sel).2 h)
      (omega arith, omega arith, omega arith, omega arith)
