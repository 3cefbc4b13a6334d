-- ===== src/Draw/Candidates.antt =====
-- `parseCandidates` of draw-verify.ts.
pub mod Laws
pub mod Canonical
use twilight_core_explorer.Common.{
  ℕ, ◌+◌, Bool, true, false, ◌||◌, Option, none, some, List, [], ◌∷◌, ◌++◌, ltb, length,
  if◌then◌else◌,
}
use twilight_core_explorer.Json.{Json, arr, items}
use twilight_core_explorer.Draw.Bytes.{Bytes, draw_id32, lt_bytes}

-- `MAX_CANDIDATES`
abbrev pub max_candidates : ℕ
max_candidates = 65536

-- `Buffer.compare(prev, id) >= 0` refuses; there is no `prev` before the first id
abbrev pub may_follow : Option Bytes → Bytes → Bool
may_follow none id = true
may_follow (some prev) id = lt_bytes prev id

abbrev cons_all : Option (List Bytes) → Bytes → Option (List Bytes)
cons_all none id = none
cons_all (some ids) id = some (id ∷ ids)

-- one round of the loop, for an entry that has been read; `rest` are the rounds after it
abbrev pub admit : Option Bytes → Option Bytes → (Bytes → Option (List Bytes)) → Option (List Bytes)
admit prev none rest = none
admit prev (some id) rest = if may_follow prev id then cons_all (rest id) id else none

-- the loop, with the last id that it took
unfoldable pub parse_entries : Option Bytes → List Json → Option (List Bytes)
unfolding draw_id32 lt_bytes
parse_entries prev [] = some []
parse_entries prev (entry ∷ entries) =
    admit prev (draw_id32 entry) (λ id. parse_entries (some id) entries)

-- `parseCandidates`
abbrev pub parse_items : List Json → ℕ → Option (List Bytes)
parse_items entries max_from_params =
    if ltb max_candidates (length entries) || ltb max_from_params (length entries)
    then none
    else parse_entries none entries

unfoldable pub parse_candidates : Option Json → ℕ → Option (List Bytes)
unfolding parse_entries
parse_candidates (some (arr xs)) max_from_params = parse_items (items xs) max_from_params
parse_candidates _ max_from_params = none
