-- ===== src/Examples/Cursors.antt =====
-- The cursor table at a table of one row.
use twilight_core_explorer.Common.{◌-◌, ◌≡◌, ◌&&◌, none, some, List, [], ◌∷◌, str_eq, if◌then◌else◌}
use twilight_core_explorer.Projection.Cursor.{
  ProjectionCursor, idle, find_cursor, read_projection_cursor_height,
  update_projection_cursor_success, halt_projection_cursor_error,
}
use twilight_core_explorer.Projection.Cursor.Laws.{read-update_success, read-halt}

abbrev cursors : List ProjectionCursor
cursors =
    record {
      projection_name = "lifecycle";
      chain_id = "twilight-1";
      last_projected_height = 5;
      status = idle;
      error = none;
    }
    ∷ []

read-update_success_example :
    read_projection_cursor_height
      (update_projection_cursor_success "lifecycle" "twilight-1" 6 cursors)
      "lifecycle"
      "twilight-1"
    ≡ (if str_eq "lifecycle" "lifecycle" && str_eq "twilight-1" "twilight-1"
        then 6
        else read_projection_cursor_height cursors "lifecycle" "twilight-1")
read-update_success_example =
    read-update_success cursors "lifecycle" "twilight-1" "lifecycle" "twilight-1" 6

read-halt_example :
    read_projection_cursor_height
      (halt_projection_cursor_error "payout" "twilight-1" 6 "bad event" cursors)
      "payout"
      "twilight-1"
    ≡ (if str_eq "payout" "payout" && str_eq "twilight-1" "twilight-1"
        then (elim (find_cursor "payout" "twilight-1" cursors) [
          | none ↦ 6 - 1
          | some c ↦ c.last_projected_height
        ])
        else read_projection_cursor_height cursors "payout" "twilight-1")
read-halt_example = read-halt cursors "payout" "twilight-1" "payout" "twilight-1" "bad event" 6
