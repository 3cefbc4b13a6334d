-- ===== src/Examples/Window.antt =====
-- The beacon window of the small draw.
use twilight_core_explorer.Common.{◌+◌, ◌≡◌, arith}
use twilight_core_explorer.Draw.Beacon.{assess_beacon}
use twilight_core_explorer.Draw.Beacon.Laws.{Ascends, assess_beacon_lem}
use twilight_core_explorer.Examples.Draw.{window_blocks}

assess_beacon_example :
    (let c = assess_beacon window_blocks 105 106 3 in
      (c.usable + c.excluded_target + c.missing + 105 ≡ 106 + 1) × Ascends 3 105 106 c.entries)
assess_beacon_example = assess_beacon_lem window_blocks 105 106 3 (omega arith)
