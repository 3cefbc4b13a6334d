-- ===== src/Examples/Accounts.antt =====
-- The addresses in a message and in an event's attribute.
use twilight_core_explorer.Common.{◌≡◌, ◌↔◌, refl, String, List, [], ◌∷◌, All}
use twilight_core_explorer.Text.{Text, codes}
use twilight_core_explorer.Json.{Json, str, obj, end, field}
use twilight_core_explorer.Temporal.Lists.{In, Pairs}
use twilight_core_explorer.Ingest.Accounts.{collect_values, extract_accounts_from_values}
use twilight_core_explorer.Ingest.Accounts.Laws.{IsAccount, Below, extract_accounts_from_values_lem}

abbrev text : String → Json
text s = str (codes s)

abbrev values : List Json
values =
    obj (
      field (codes "key") (text "recipient")
        (field (codes "value") (text "twilight1zzzzzzzzzzzzzz") end))
    ∷ obj (
        field (codes "Sender") (text "module:mint") (field (codes "memo") (text "module:memo") end))
    ∷ []

-- the memo is no address field
two_accounts :
    extract_accounts_from_values values ≡ codes "module:mint" ∷ codes "twilight1zzzzzzzzzzzzzz" ∷ []
unfolding extract_accounts_from_values
two_accounts = refl

extract_accounts_example :
    All IsAccount (extract_accounts_from_values values)
    × Pairs Below (extract_accounts_from_values values)
    × ((x : Text) → In x (extract_accounts_from_values values) ↔ In x (collect_values values))
extract_accounts_example = extract_accounts_from_values_lem values
