-- ===== src/Projection/Cursor.antt =====
-- apps/indexer/src/projections/cursor.ts: the ProjectionCursor table, and the guard on the chain id.
-- A row is found by the projection's name and the chain id. The error text is the payload `error`.
pub mod Laws
use twilight_core_explorer.Common.{
  ℕ, ◌-◌, String, Bool, true, false, ◌&&◌, Option, none, some, List, [], ◌∷◌, ltb, str_eq,
  if◌then◌else◌,
}

pub data CursorStatus : Type 0 where
  idle halted_error : CursorStatus

pub record ProjectionCursor : Type 0 where
  pub projection_name : String
  pub chain_id : String
  pub last_projected_height : ℕ
  pub status : CursorStatus
  pub error : Option String

abbrev pub is_cursor : String → String → ProjectionCursor → Bool
is_cursor name chain c = str_eq c.projection_name name && str_eq c.chain_id chain

unfoldable pub find_cursor : String → String → List ProjectionCursor → Option ProjectionCursor
find_cursor name chain [] = none
find_cursor name chain (c ∷ cs) =
    if is_cursor name chain c then some c else find_cursor name chain cs

-- prisma `upsert` by the unique key (projectionName, chainId)
unfoldable pub upsert_cursor :
    String
    → String
    → ProjectionCursor
    → (ProjectionCursor → ProjectionCursor)
    → List ProjectionCursor
    → List ProjectionCursor
upsert_cursor name chain create update [] = create ∷ []
upsert_cursor name chain create update (c ∷ cs) =
    if is_cursor name chain c then update c ∷ cs else c ∷ upsert_cursor name chain create update cs

-- `readProjectionCursorHeight`: a cursor that is not there reads as 0.
abbrev height_of : Option ProjectionCursor → ℕ
height_of none = 0
height_of (some c) = c.last_projected_height

unfoldable pub read_projection_cursor_height : List ProjectionCursor → String → String → ℕ
unfolding find_cursor
read_projection_cursor_height cs name chain = height_of (find_cursor name chain cs)

-- `updateProjectionCursorSuccess`
unfoldable pub update_projection_cursor_success :
    String → String → ℕ → List ProjectionCursor → List ProjectionCursor
unfolding upsert_cursor
update_projection_cursor_success name chain height =
    upsert_cursor name chain
      (record {
        projection_name = name;
        chain_id = chain;
        last_projected_height = height;
        status = idle;
        error = none;
      })
      (λ c. record c { last_projected_height = height; status = idle; error = none })

-- `previousHeight`
unfoldable pub previous_height : ℕ → ℕ
previous_height height = if ltb 0 height then height - 1 else 0

-- `haltProjectionCursorError`: an existing row keeps its height.
unfoldable pub halt_projection_cursor_error :
    String → String → ℕ → String → List ProjectionCursor → List ProjectionCursor
unfolding upsert_cursor previous_height
halt_projection_cursor_error name chain height message =
    upsert_cursor name chain
      (record {
        projection_name = name;
        chain_id = chain;
        last_projected_height = previous_height height;
        status = halted_error;
        error = some message;
      })
      (λ c. record c { status = halted_error; error = some message })

pub data Guarded {ℓ} (A : Type ℓ) : Type ℓ where
  passed : A → Guarded A
  chain_id_mismatch : String → String → Guarded A

-- `assertProjectionChainId`: `indexed` is the chain id of the latest indexer cursor, if there is one.
unfoldable pub assert_projection_chain_id : Option String → String → Guarded (Unit {0})
assert_projection_chain_id none chain = passed tt
assert_projection_chain_id (some indexed) chain =
    if str_eq indexed ""
    then passed tt
    else if str_eq indexed chain
    then passed tt
    else chain_id_mismatch chain indexed

abbrev then_create : Guarded (Unit {0}) → List ProjectionCursor → Guarded (List ProjectionCursor)
then_create (passed _) cs = passed cs
then_create (chain_id_mismatch configured indexed) cs = chain_id_mismatch configured indexed

-- `getOrCreateProjectionCursor`
unfoldable pub get_or_create_projection_cursor :
    Option String → String → String → List ProjectionCursor → Guarded (List ProjectionCursor)
unfolding assert_projection_chain_id upsert_cursor
get_or_create_projection_cursor indexed name chain cs =
    then_create (assert_projection_chain_id indexed chain) (
      upsert_cursor name chain
        (record {
          projection_name = name;
          chain_id = chain;
          last_projected_height = 0;
          status = idle;
          error = none;
        })
        (λ c. c) cs)
