-- ===== src/Projection/Cursor/Laws.antt =====
-- The cursor table against its specification: a height for each projection and chain.
use twilight_core_explorer.Common.{
  ℕ, ◌-◌, String, ◌≡◌, ◌&&◌, none, some, List, [], ◌∷◌, arith, str_eq, str_eq_iff, if◌then◌else◌,
}
use twilight_core_explorer.Projection.Cursor.{
  ProjectionCursor, find_cursor, read_projection_cursor_height, update_projection_cursor_success,
  halt_projection_cursor_error, previous_height,
}

-- A success sets the height of its own cursor, and of no other.
pub read-update_success :
    (cs : List ProjectionCursor) (name chain name' chain' : String) (h : ℕ)
    → read_projection_cursor_height (update_projection_cursor_success name chain h cs) name' chain'
      ≡ (if str_eq name name' && str_eq chain chain'
          then h
          else read_projection_cursor_height cs name' chain')
unfolding read_projection_cursor_height update_projection_cursor_success
read-update_success [] name chain name' chain' h = ground arith
read-update_success (c ∷ cs) name chain name' chain' h = ground (
  arith,
  read-update_success cs name chain name' chain' h,
  str_eq_iff name name',
  str_eq_iff chain chain',
  str_eq_iff c.projection_name name,
  str_eq_iff c.chain_id chain,
  str_eq_iff c.projection_name name',
  str_eq_iff c.chain_id chain',
)

-- A halt leaves every cursor's height as it was, except that of a cursor that did not exist: that
-- one is created one below the failing height `h`, and at 0 where `h` is 0.
pub read-halt :
    (cs : List ProjectionCursor) (name chain name' chain' message : String) (h : ℕ)
    → read_projection_cursor_height
        (halt_projection_cursor_error name chain h message cs)
        name'
        chain'
      ≡ (if str_eq name name' && str_eq chain chain'
          then (elim (find_cursor name chain cs) [
            | none ↦ h - 1
            | some c ↦ c.last_projected_height
          ])
          else read_projection_cursor_height cs name' chain')
unfolding read_projection_cursor_height halt_projection_cursor_error previous_height
read-halt [] name chain name' chain' message h = ground arith
read-halt (c ∷ cs) name chain name' chain' message h = ground (
  arith,
  read-halt cs name chain name' chain' message h,
  str_eq_iff name name',
  str_eq_iff chain chain',
  str_eq_iff c.projection_name name,
  str_eq_iff c.chain_id chain,
  str_eq_iff c.projection_name name',
  str_eq_iff c.chain_id chain',
)
