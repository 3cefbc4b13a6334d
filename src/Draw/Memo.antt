-- ===== src/Draw/Memo.antt =====
-- `decodeAnchorMemo` of draw-verify.ts. `JSON.parse` is a parameter: `none` where it throws.
use twilight_core_explorer.Common.{
  ℕ, ◌+◌, Bool, false, not, ◌&&◌, Option, none, some, List, [], ◌∷◌, ◌++◌, ltb, ◌==◌, length, every,
  if◌then◌else◌,
}
use twilight_core_explorer.Text.{Text, codes, eq_text, is_lower_hex}
use twilight_core_explorer.Json.{Json, num, obj, keys, get, Fields, as_text}
use twilight_core_explorer.Draw.Bytes.{lt_bytes, to_bounded_big}

pub record Memo : Type 0 where
  pub slot : ℕ
  pub epoch : ℕ
  pub set : Text
  pub params : Text

-- `memo.length`, in UTF-16 units
unfoldable pub utf16_length : Text → ℕ
utf16_length [] = 0
utf16_length (c ∷ s) = (if ltb c 0x10000 then 1 else 2) + utf16_length s

-- `keys.sort()`
unfoldable pub insert_key : Text → List Text → List Text
unfolding lt_bytes
insert_key k [] = k ∷ []
insert_key k (j ∷ js) = if lt_bytes j k then j ∷ insert_key k js else k ∷ j ∷ js

unfoldable pub sort_keys : List Text → List Text
unfolding insert_key
sort_keys [] = []
sort_keys (k ∷ ks) = insert_key k (sort_keys ks)

-- `.join(',')`
unfoldable pub join : List Text → Text
join [] = []
join (k ∷ []) = k
join (k ∷ j ∷ js) = k ++ (codes "," ++ join (j ∷ js))

-- `/^[0-9a-f]{64}$/` and not `/^0+$/`
abbrev pub is_digest_text : Text → Bool
is_digest_text s = length s == 64 && every is_lower_hex s && not (every (λ c. c == b'0') s)

abbrev pub digest_field : Option Text → Option Text
digest_field none = none
digest_field (some s) = if is_digest_text s then some s else none

infixl 5 ◌>>=◌
abbrev ◌>>=◌ {ℓ κ} : {A : Type ℓ} {B : Type κ} → Option A → (A → Option B) → Option B
none >>= f = none
some a >>= f = f a

abbrev is_one : Option Json → Bool
is_one (some (num n)) = n == 1
is_one _ = false

abbrev pub positive : ℕ → Option ℕ
positive n = if n == 0 then none else some n

unfoldable pub decode_fields : Fields → Option Memo
unfolding sort_keys join get to_bounded_big
decode_fields fs =
    if eq_text (join (sort_keys (keys fs))) (codes "epoch,params,set,slot,v")
      && is_one (get "v" (obj fs))
    then (do
      named ← to_bounded_big (get "slot" (obj fs))
      slot ← positive named
      epoch ← to_bounded_big (get "epoch" (obj fs))
      set ← digest_field (as_text (get "set" (obj fs)))
      params ← digest_field (as_text (get "params" (obj fs)))
      some (record { slot = slot; epoch = epoch; set = set; params = params }))
    else none

abbrev decode_json : Option Json → Option Memo
decode_json (some (obj fs)) = decode_fields fs
decode_json _ = none

-- `decodeAnchorMemo`
unfoldable pub decode_anchor_memo : (Text → Option Json) → Option Text → Option Memo
unfolding decode_fields utf16_length
decode_anchor_memo parse_json none = none
decode_anchor_memo parse_json (some []) = none
decode_anchor_memo parse_json (some (c ∷ s)) =
    if ltb 256 (utf16_length (c ∷ s)) then none else decode_json (parse_json (c ∷ s))
