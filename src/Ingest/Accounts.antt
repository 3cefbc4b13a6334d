-- ===== src/Ingest/Accounts.antt =====
-- apps/indexer/src/account-extraction.ts: the account addresses in the transactions and events of a
-- height. A set is a list without repetition, kept in the order into which the source sorts it at
-- the end; the order is by code points.
pub mod Laws
use twilight_core_explorer.Common.{
  ℕ, zero, suc, ◌+◌, Bool, true, false, not, ◌&&◌, ◌||◌, Option, none, some, List, [], ◌∷◌, ◌++◌,
  length, any, leb, ltb, ◌==◌, map, String, if◌then◌else◌,
}
use twilight_core_explorer.Text.{Text, codes, eq_text, to_lower}
use twilight_core_explorer.Json.{
  Json, null, bool, num, other_num, str, arr, obj, Items, nil, cons, Fields, end, field, get_field,
}
use twilight_core_explorer.Draw.Bytes.{lt_bytes}

abbrev pub starts_with : (prefix s : Text) → Bool
starts_with [] s = true
starts_with (c ∷ p) [] = false
starts_with (c ∷ p) (d ∷ s) = c == d && starts_with p s

abbrev pub ends_with : (suffix s : Text) → Bool
ends_with p [] = eq_text p []
ends_with p (c ∷ s) = eq_text p (c ∷ s) || ends_with p s

-- `ADDRESS_FIELD_PATTERN.test`
unfoldable pub is_address_field : Text → Bool
unfolding to_lower
is_address_field key =
    let lower = map to_lower key in
    any (λ word. ends_with (codes word) lower)
      ("address" ∷ "operator" ∷ "signer" ∷ "sender" ∷ "recipient" ∷ "authority" ∷ "payout" ∷ [])

-- `length` of a text, in UTF-16 code units: a code point beyond the basic plane has two
abbrev pub utf16_length : Text → ℕ
utf16_length [] = 0
utf16_length (c ∷ s) = (if ltb c 65536 then 1 else 2) + utf16_length s

-- `isExplorerAccountAddress`, of a text
unfoldable pub is_account_text : Text → Bool
is_account_text s =
    (starts_with (codes "twilight1") s && leb 20 (utf16_length s))
    || (starts_with (codes "module:") s && ltb (utf16_length (codes "module:")) (utf16_length s))

-- a field's value is an address, and its key says so
unfoldable pub is_account_field : Text → Json → Bool
unfolding is_address_field is_account_text
is_account_field key (str s) = is_account_text s && is_address_field key
is_account_field key _ = false

-- an empty hint is none
abbrev pub hint_allows : Text → Bool
hint_allows [] = true
hint_allows (c ∷ s) = is_address_field (c ∷ s)

-- the text of a value, where it is an address
abbrev pub account_of : Option Json → List Text
account_of (some (str s)) = if is_account_text s then s ∷ [] else []
account_of _ = []

-- an attribute, `{ key, value }`, whose key names an address
abbrev pub account_of_attribute : (key value : Option Json) → List Text
account_of_attribute (some (str k)) value = if is_address_field k then account_of value else []
account_of_attribute _ value = []

unfoldable mutual
  unfolding is_account_text is_address_field is_account_field get_field

  -- `collectAccounts`; the addresses in the order in which they are added
  pub collect_accounts : Text → Json → List Text
  collect_accounts hint (str s) = if is_account_text s && hint_allows hint then s ∷ [] else []
  collect_accounts hint (arr vs) = collect_items hint vs
  collect_accounts hint (obj fs) =
      account_of_attribute (get_field (codes "key") fs) (get_field (codes "value") fs)
      ++ collect_fields fs
  collect_accounts hint null = []
  collect_accounts hint (bool b) = []
  collect_accounts hint (num n) = []
  collect_accounts hint other_num = []

  pub collect_items : Text → Items → List Text
  collect_items hint nil = []
  collect_items hint (cons v vs) = collect_accounts hint v ++ collect_items hint vs

  pub collect_fields : Fields → List Text
  collect_fields end = []
  collect_fields (field k v fs) =
      (elim (is_account_field k v) [ true ↦ account_of (some v) | false ↦ collect_accounts k v ])
      ++ collect_fields fs

-- the loop over the values, which have no hint
unfoldable pub collect_values : List Json → List Text
unfolding collect_accounts
collect_values [] = []
collect_values (v ∷ vs) = collect_accounts [] v ++ collect_values vs

-- `Set.add` into a set in ascending order
unfoldable pub insert_text : Text → List Text → List Text
unfolding lt_bytes
insert_text s [] = s ∷ []
insert_text s (t ∷ ts) =
    let rest = insert_text s ts in
    if lt_bytes s t then s ∷ t ∷ ts else if lt_bytes t s then t ∷ rest else t ∷ ts

unfoldable pub sorted_set : List Text → List Text
unfolding insert_text
sorted_set [] = []
sorted_set (s ∷ ss) = insert_text s (sorted_set ss)

-- `extractAccountsFromValues`
unfoldable pub extract_accounts_from_values : List Json → List Text
unfolding collect_values sorted_set
extract_accounts_from_values values = sorted_set (collect_values values)
