-- ===== src/Draw/Hashes.antt =====
-- The digests of draw-verify.ts. SHA-256 comes from node:crypto and is a parameter; `hashed` says
-- which bytes each digest is of.
pub mod Laws
use twilight_core_explorer.Common.{
  ℕ, ◌+◌, ◌-◌, ◌*◌, ◌/◌, ◌%◌, String, List, [], ◌∷◌, ◌++◌, ltb, length, if◌then◌else◌,
}
use twilight_core_explorer.Text.{Text, codes}
use twilight_core_explorer.Draw.Bytes.{Bytes, u16be, u64be}
use twilight_core_explorer.Draw.Beacon.{Entry}

-- `Buffer.from(s, 'utf8')`: a code point in one to four bytes
abbrev pub utf8_char : ℕ → Bytes
utf8_char c =
    if ltb c 0x80
    then c ∷ []
    else if ltb c 0x800
    then (0xc0 + c / 64) ∷ (0x80 + c % 64) ∷ []
    else if ltb c 0x10000
    then (0xe0 + c / 4096) ∷ (0x80 + c / 64 % 64) ∷ (0x80 + c % 64) ∷ []
    else (0xf0 + c / 262144) ∷ (0x80 + c / 4096 % 64) ∷ (0x80 + c / 64 % 64) ∷ (0x80 + c % 64) ∷ []

unfoldable pub utf8 : Text → Bytes
utf8 [] = []
utf8 (c ∷ s) = utf8_char c ++ utf8 s

-- What a draw is about.
pub record Context : Type 0 where
  pub chain_id : Text
  pub slot_id : ℕ
  pub epoch : ℕ

-- `ctxBytes`
unfoldable pub ctx_bytes : Context → Bytes
unfolding utf8
ctx_bytes c =
    u16be (length (utf8 c.chain_id)) ++ (utf8 c.chain_id ++ (u64be c.slot_id ++ u64be c.epoch))

unfoldable pub concat : List Bytes → Bytes
concat [] = []
concat (b ∷ bs) = b ++ concat bs

abbrev pub domain_candidate_set : String
domain_candidate_set = "TWILIGHT/TOKENDROP/CANDIDATE-SET/V1"

abbrev pub domain_beacon : String
domain_beacon = "TWILIGHT/TOKENDROP/BEACON/V1"

abbrev pub domain_ticket : String
domain_ticket = "TWILIGHT/TOKENDROP/TICKET/V1"

abbrev pub domain_selected : String
domain_selected = "TWILIGHT/PARTICIPANT-SELECTION/SELECTED-DRAW-IDS/V1"

-- `candidateSetHashV1`
unfoldable pub candidate_set_preimage : Context → List Bytes → Bytes
unfolding ctx_bytes concat
candidate_set_preimage c ids =
    codes domain_candidate_set ++ (ctx_bytes c ++ (u64be (length ids) ++ concat ids))

-- `selectedDrawIdsHashV1`
unfoldable pub selected_draw_ids_preimage : Context → List Bytes → Bytes
unfolding ctx_bytes concat
selected_draw_ids_preimage c ids =
    codes domain_selected ++ (ctx_bytes c ++ (u64be (length ids) ++ concat ids))

unfoldable pub entry_bytes : List Entry → Bytes
entry_bytes [] = []
entry_bytes (e ∷ es) = u64be e.height ++ (u64be e.slot ++ (e.hash ++ entry_bytes es))

-- `beaconHashV1`
unfoldable pub beacon_preimage : Context → Bytes → ℕ → ℕ → List Entry → Bytes
unfolding ctx_bytes entry_bytes
beacon_preimage c set_hash start end' entries =
    codes domain_beacon
    ++ (ctx_bytes c
        ++ (set_hash
            ++ (u64be start ++ (u64be end' ++ (u64be (length entries) ++ entry_bytes entries)))))

-- `ticketV1`
unfoldable pub ticket_preimage : Context → Bytes → Bytes → Bytes → Bytes
unfolding ctx_bytes
ticket_preimage c set_hash beacon_hash draw_id =
    codes domain_ticket ++ (ctx_bytes c ++ (set_hash ++ (beacon_hash ++ draw_id)))

-- `sha256` of node:crypto
pub record Sha256 : Type 0 where
  pub digest : Bytes → Bytes

abbrev pub candidate_set_hash : Sha256 → Context → List Bytes → Bytes
candidate_set_hash sha c ids = sha.digest (candidate_set_preimage c ids)

abbrev pub selected_draw_ids_hash : Sha256 → Context → List Bytes → Bytes
selected_draw_ids_hash sha c ids = sha.digest (selected_draw_ids_preimage c ids)

abbrev pub beacon_hash : Sha256 → Context → Bytes → ℕ → ℕ → List Entry → Bytes
beacon_hash sha c set_hash start end' entries =
    sha.digest (beacon_preimage c set_hash start end' entries)

abbrev pub ticket : Sha256 → Context → Bytes → Bytes → Bytes → Bytes
ticket sha c set_hash beacon draw_id = sha.digest (ticket_preimage c set_hash beacon draw_id)
