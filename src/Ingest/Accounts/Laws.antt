-- ===== src/Ingest/Accounts/Laws.antt =====
-- What `extractAccountsFromValues` returns.
use twilight_core_explorer.Common.{
  ◌≡◌, ◌↔◌, ◌⊎◌, inl, inr, refl, sym, ◌∙◌, Bool, true, false, ◌&&◌, Option, none, some, List, [],
  ◌∷◌, All, All-map, All-append, arith, Bool-cases, if◌then◌else◌,
}
use twilight_core_explorer.Text.{Text, codes}
use twilight_core_explorer.Temporal.Lists.{In, Pairs}
use twilight_core_explorer.Json.{
  Json, null, bool, num, other_num, str, arr, obj, Items, nil, cons, Fields, end, field, get_field,
}
use twilight_core_explorer.Draw.Bytes.{lt_bytes}
use twilight_core_explorer.Ingest.Accounts.{
  is_account_text, is_account_field, is_address_field, hint_allows, account_of,
  account_of_attribute, collect_accounts, collect_items, collect_fields, collect_values,
  insert_text, sorted_set, extract_accounts_from_values,
}

abbrev pub IsAccount : Text → Type 0
IsAccount s = is_account_text s ≡ true

kept :
    (s : Text) (x b : Bool) → is_account_text s ≡ x → All IsAccount (if x && b then s ∷ [] else [])
kept s true true e = (e, tt)
kept s true false e = tt
kept s false b e = tt

account_of-IsAccount : (o : Option Json) → All IsAccount (account_of o)
account_of-IsAccount none = tt
account_of-IsAccount (some (str s)) = only (is_account_text s) refl
  where
    only : (x : Bool) → is_account_text s ≡ x → All IsAccount (if x then s ∷ [] else [])
    only true e = (e, tt)
    only false e = tt
account_of-IsAccount (some null) = tt
account_of-IsAccount (some (bool b)) = tt
account_of-IsAccount (some (num n)) = tt
account_of-IsAccount (some other_num) = tt
account_of-IsAccount (some (arr vs)) = tt
account_of-IsAccount (some (obj fs)) = tt

attribute-IsAccount : (k v : Option Json) → All IsAccount (account_of_attribute k v)
attribute-IsAccount none v = tt
attribute-IsAccount (some (str k)) v = only (is_address_field k)
  where
    only : (x : Bool) → All IsAccount (if x then account_of v else [])
    only true = account_of-IsAccount v
    only false = tt
attribute-IsAccount (some null) v = tt
attribute-IsAccount (some (bool b)) v = tt
attribute-IsAccount (some (num n)) v = tt
attribute-IsAccount (some other_num) v = tt
attribute-IsAccount (some (arr vs)) v = tt
attribute-IsAccount (some (obj fs)) v = tt

either :
    (b : Bool) (xs ys : List Text)
    → All IsAccount xs
    → All IsAccount ys
    → All IsAccount (elim b [ true ↦ xs | false ↦ ys ])
either true xs ys p q = p
either false xs ys p q = q

mutual
  unfolding collect_accounts

  collect_accounts-IsAccount : (hint : Text) (v : Json) → All IsAccount (collect_accounts hint v)
  collect_accounts-IsAccount hint (str s) = kept s (is_account_text s) (hint_allows hint) refl
  collect_accounts-IsAccount hint (arr vs) = collect_items-IsAccount hint vs
  collect_accounts-IsAccount hint (obj fs) =
      All-append IsAccount _ (collect_fields fs)
        (attribute-IsAccount (get_field (codes "key") fs) (get_field (codes "value") fs))
        (collect_fields-IsAccount fs)
  collect_accounts-IsAccount hint null = tt
  collect_accounts-IsAccount hint (bool b) = tt
  collect_accounts-IsAccount hint (num n) = tt
  collect_accounts-IsAccount hint other_num = tt

  collect_items-IsAccount : (hint : Text) (vs : Items) → All IsAccount (collect_items hint vs)
  collect_items-IsAccount hint nil = tt
  collect_items-IsAccount hint (cons v vs) =
      All-append IsAccount (collect_accounts hint v) (collect_items hint vs)
        (collect_accounts-IsAccount hint v) (collect_items-IsAccount hint vs)

  collect_fields-IsAccount : (fs : Fields) → All IsAccount (collect_fields fs)
  collect_fields-IsAccount end = tt
  collect_fields-IsAccount (field k v fs) =
      All-append IsAccount _ (collect_fields fs)
        (either (is_account_field k v) (account_of (some v)) (collect_accounts k v)
          (account_of-IsAccount (some v)) (collect_accounts-IsAccount k v))
        (collect_fields-IsAccount fs)

collect_values-IsAccount : (vs : List Json) → All IsAccount (collect_values vs)
unfolding collect_values
collect_values-IsAccount [] = tt
collect_values-IsAccount (v ∷ vs) =
    All-append IsAccount (collect_accounts [] v) (collect_values vs)
      (collect_accounts-IsAccount [] v) (collect_values-IsAccount vs)

-- one text before another
abbrev pub Below : Text → Text → Type 0
Below s t = lt_bytes s t ≡ true

lt_bytes_trans : (s t u : Text) → lt_bytes s t ≡ true → lt_bytes t u ≡ true → lt_bytes s u ≡ true
unfolding lt_bytes
lt_bytes_trans [] [] u p q = q
lt_bytes_trans [] (b ∷ t) [] p q = ground arith
lt_bytes_trans [] (b ∷ t) (c ∷ u) p q = refl
lt_bytes_trans (a ∷ s) [] u p q = ground arith
lt_bytes_trans (a ∷ s) (b ∷ t) [] p q = ground arith
lt_bytes_trans (a ∷ s) (b ∷ t) (c ∷ u) p q = ground (arith, lt_bytes_trans s t u)

lt_bytes_total : (s t : Text) → lt_bytes s t ≡ false → lt_bytes t s ≡ false → s ≡ t
unfolding lt_bytes
lt_bytes_total [] [] p q = refl
lt_bytes_total [] (b ∷ t) p q = ground arith
lt_bytes_total (a ∷ s) [] p q = ground arith
lt_bytes_total (a ∷ s) (b ∷ t) p q = grind (arith, lt_bytes_total s t)

All-insert_text :
    (P : Text → Type 0) (s : Text) (ts : List Text) → P s → All P ts → All P (insert_text s ts)
unfolding insert_text
All-insert_text P s [] p a = (p, tt)
All-insert_text P s (t ∷ ts) p a = ground (arith, All-insert_text P s ts p a.1)

insert_text-Below : (s : Text) (ts : List Text) → Pairs Below ts → Pairs Below (insert_text s ts)
unfolding insert_text
insert_text-Below s [] a = (tt, tt)
insert_text-Below s (t ∷ ts) a = elim (Bool-cases (lt_bytes s t)) [
  | inl e ↦ rw e ((e, All-map (Below t) (Below s) ts (λ u. lt_bytes_trans s t u e) a.0), a)
  | inr e ↦ rw e (elim (Bool-cases (lt_bytes t s)) [
    | inl f ↦ rw f (All-insert_text (Below t) s ts f a.0, insert_text-Below s ts a.1)
    | inr f ↦ rw f a
  ])
]

-- the members of a set into which a text has gone
In-insert_text : (x s : Text) (ts : List Text) → In x (insert_text s ts) ↔ ((s ≡ x) ⊎ In x ts)
unfolding insert_text
In-insert_text x s [] = (λ m. m, λ m. m)
In-insert_text x s (t ∷ ts) = elim (Bool-cases (lt_bytes s t)) [
  | inl e ↦ rw e (λ m. m, λ m. m)
  | inr e ↦ rw e (elim (Bool-cases (lt_bytes t s)) [
    | inl f ↦ (let rest = In-insert_text x s ts in rw f (out rest.0, into rest.1))
    | inr f ↦ rw f (λ m. inr m, same (lt_bytes_total s t e f))
  ])
]
  where
    out :
        (In x (insert_text s ts) → (s ≡ x) ⊎ In x ts)
        → (t ≡ x) ⊎ In x (insert_text s ts)
        → (s ≡ x) ⊎ ((t ≡ x) ⊎ In x ts)
    out r (inl q) = inr (inl q)
    out r (inr m) = elim (r m) [ inl q ↦ inl q | inr k ↦ inr (inr k) ]

    into :
        ((s ≡ x) ⊎ In x ts → In x (insert_text s ts))
        → (s ≡ x) ⊎ ((t ≡ x) ⊎ In x ts)
        → (t ≡ x) ⊎ In x (insert_text s ts)
    into r (inl q) = inr (r (inl q))
    into r (inr (inl q)) = inl q
    into r (inr (inr k)) = inr (r (inr k))

    same : s ≡ t → (s ≡ x) ⊎ ((t ≡ x) ⊎ In x ts) → (t ≡ x) ⊎ In x ts
    same e (inl q) = inl (sym e ∙ q)
    same e (inr m) = m

In-sorted_set : (x : Text) (ss : List Text) → In x (sorted_set ss) ↔ In x ss
unfolding sorted_set
In-sorted_set x [] = (λ m. m, λ m. m)
In-sorted_set x (s ∷ ss) = (
  λ m. elim ((In-insert_text x s (sorted_set ss)).0 m) [
    | inl q ↦ inl q
    | inr k ↦ inr ((In-sorted_set x ss).0 k)
  ],
  λ m.
      (In-insert_text x s (sorted_set ss)).1
        (elim m [ inl q ↦ inl q | inr k ↦ inr ((In-sorted_set x ss).1 k) ]),
)

sorted_set-Below : (ss : List Text) → Pairs Below (sorted_set ss)
unfolding sorted_set
sorted_set-Below [] = tt
sorted_set-Below (s ∷ ss) = insert_text-Below s (sorted_set ss) (sorted_set-Below ss)

All-sorted_set : (P : Text → Type 0) (ss : List Text) → All P ss → All P (sorted_set ss)
unfolding sorted_set
All-sorted_set P [] a = tt
All-sorted_set P (s ∷ ss) a = All-insert_text P s (sorted_set ss) a.0 (All-sorted_set P ss a.1)

-- The extraction returns account addresses alone, in strictly ascending order, and they are those that
-- the walk over the values collects.
pub extract_accounts_from_values_lem :
    (values : List Json)
    → let accounts = extract_accounts_from_values values in
      All IsAccount accounts
      × Pairs Below accounts
      × ((x : Text) → In x accounts ↔ In x (collect_values values))
unfolding extract_accounts_from_values
extract_accounts_from_values_lem values = (
  All-sorted_set IsAccount (collect_values values) (collect_values-IsAccount values),
  sorted_set-Below (collect_values values),
  λ x. In-sorted_set x (collect_values values),
)
