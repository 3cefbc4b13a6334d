-- ===== src/Temporal/Lists.antt =====
-- Lists of windows: membership, pairwise predicates, and the filters and sorts of the queries.
use twilight_core_explorer.Common.{
  ℕ, ◌≡◌, refl, ◌⊎◌, inl, inr, Bool, true, false, List, [], ◌∷◌, ◌++◌, arith, leb, keep_if, All,
  All-append, Bool-cases, subst,
}
use twilight_core_explorer.Temporal.Types.{Window}
use twilight_core_explorer.Temporal.Table.{insert_by, sort_by}

abbrev pub In : {A : Type 0} → A → List A → Type 0
In x [] = ⊥
In x (y ∷ ys) = (y ≡ x) ⊎ In x ys

pub All-In : {A : Type 0} (P : A → Type 0) (x : A) (xs : List A) → All P xs → In x xs → P x
All-In P x [] h m = absurd m
All-In P x (y ∷ ys) h (inl e) = subst P e h.0
All-In P x (y ∷ ys) h (inr m) = All-In P x ys h.1 m

In-kept :
    {A : Type 0} (p : A → Bool) (x y : A) (ys : List A)
    → (In x (keep_if p ys) → In x ys × (p x ≡ true))
    → p y ≡ true
    → (y ≡ x) ⊎ In x (keep_if p ys)
    → In x (y ∷ ys) × (p x ≡ true)
In-kept p x y ys rest e (inl q) = (inl q, subst (λ z. p z ≡ true) q e)
In-kept p x y ys rest e (inr q) = let r = rest q in (inr r.0, r.1)

pub keep_if_kept {ℓ} :
    {A : Type ℓ} (p : A → Bool) (y : A) (ys : List A)
    → p y ≡ true
    → keep_if p (y ∷ ys) ≡ y ∷ keep_if p ys
keep_if_kept p y ys e = ground arith

pub keep_if_dropped {ℓ} :
    {A : Type ℓ} (p : A → Bool) (y : A) (ys : List A)
    → p y ≡ false
    → keep_if p (y ∷ ys) ≡ keep_if p ys
keep_if_dropped p y ys e = ground arith

pub In-keep_if :
    {A : Type 0} (p : A → Bool) (x : A) (xs : List A) → In x (keep_if p xs) → In x xs × (p x ≡ true)
In-keep_if p x [] m = absurd m
In-keep_if p x (y ∷ ys) m = elim (Bool-cases (p y)) [
  | inl e ↦ In-kept p x y ys (In-keep_if p x ys) e (subst (In x) (keep_if_kept p y ys e) m)
  | inr e ↦ let r = In-keep_if p x ys (subst (In x) (keep_if_dropped p y ys e) m) in (inr r.0, r.1)
]

-- Every pair of the list, taken in its order, is related.
abbrev pub Pairs {ℓ κ} : {A : Type ℓ} → (A → A → Type κ) → List A → Type κ
Pairs R [] = Unit
Pairs R (x ∷ xs) = All (R x) xs × Pairs R xs

pub Pairs-append {ℓ κ} :
    {A : Type ℓ} (R : A → A → Type κ) (xs : List A) (y : A)
    → Pairs R xs
    → All (λ x. R x y) xs
    → Pairs R (xs ++ (y ∷ []))
Pairs-append R [] y h a = (tt, tt)
Pairs-append R (x ∷ xs) y h a =
    (All-append (R x) xs (y ∷ []) h.0 (a.0, tt), Pairs-append R xs y h.1 a.1)

-- A filter that keeps nothing.
pub All-keep_if_nil {ℓ} :
    {A : Type ℓ} (p : A → Bool) (xs : List A) → keep_if p xs ≡ [] → All (λ x. p x ≡ false) xs
All-keep_if_nil p [] h = tt
All-keep_if_nil p (x ∷ xs) h = ground (arith, All-keep_if_nil p xs)

pub keep_if_nil {ℓ} :
    {A : Type ℓ} (p : A → Bool) (xs : List A) → All (λ x. p x ≡ false) xs → keep_if p xs ≡ []
keep_if_nil p [] h = refl
keep_if_nil p (x ∷ xs) h = ground (arith, keep_if_nil p xs h.1)

All-insert_by {κ} :
    (P : Window → Type κ) (key : Window → ℕ) (w : Window) (ws : List Window)
    → All P (insert_by key w ws)
    → P w × All P ws
unfolding insert_by
All-insert_by P key w [] h = h
All-insert_by P key w (v ∷ vs) h = elim (Bool-cases (leb (key w) (key v))) [
  | inl e ↦ rw (e, insert_by) at h
  | inr e ↦
      let g = let h' : P v × All P (insert_by key w vs) = (rw (e, insert_by) at h) in h' in
      let r = All-insert_by P key w vs g.1 in (r.0, (g.0, r.1))
]

-- What holds of all of a sorted list holds of all of the list.
pub All-of_sort_by {κ} :
    (P : Window → Type κ) (key : Window → ℕ) (ws : List Window) → All P (sort_by key ws) → All P ws
unfolding sort_by
All-of_sort_by P key [] h = tt
All-of_sort_by P key (w ∷ ws) h =
    let r = All-insert_by P key w (sort_by key ws) h in (r.0, All-of_sort_by P key ws r.1)

pub All-of_keep_if :
    (P : Window → Type 0) (p : Window → Bool) (ws : List Window)
    → All P (keep_if p ws)
    → All (λ w. p w ≡ true → P w) ws
All-of_keep_if P p [] h = tt
All-of_keep_if P p (w ∷ ws) h = elim (Bool-cases (p w)) [
  | inl e ↦
      let h' = subst (All P) (keep_if_kept p w ws e) h in ((λ _. h'.0), All-of_keep_if P p ws h'.1)
  | inr e ↦ ((λ q. cc), All-of_keep_if P p ws (subst (All P) (keep_if_dropped p w ws e) h))
]
