-- ===== src/Common/Tables.antt =====
-- Tables as lists of rows with a unique key: `findUnique` and `upsert` of the database client.
use Prim.Native.Nat.{ℕ}
use Prim.Native.String.{String}
use mathlib.Core.Path.{◌≡◌, refl}
use mathlib.Core.Logic.{◌↔◌}
use mathlib.Core.Bool.{Bool, true}
use mathlib.Core.Option.{Option, none, some}
use mathlib.Core.List.{List, [], ◌∷◌}
use native.Mathlib.Omega.{arith}
use text.Mathlib.Text
use text.Mathlib.TextEquality
use twilight_core_explorer.Common.Tests.{◌==◌, ==_iff, if◌then◌else◌, or_else}

-- What a key must have: a test for equality, and what it says.
pub record Eq {ℓ} (K : Type ℓ) : Type ℓ where
  pub beq : K → K → Bool
  pub beq_iff : (a b : K) → (beq a b ≡ true) ↔ (a ≡ b)

instance abbrev pub nat_eq : Eq ℕ
nat_eq = record { beq = λ a b. a == b; beq_iff = ==_iff }

instance abbrev pub string_eq : Eq String
string_eq = record { beq = Text.◌==◌; beq_iff = TextEquality.eq_iff }

module _ {ℓ κ} {K : Type ℓ} {R : Type κ} ⦃e : Eq K⦄ (key : R → K) where
  -- `findUnique`
  unfoldable pub find : K → List R → Option R
  find k [] = none
  find k (r ∷ rs) = if e.beq (key r) k then some r else find k rs

  -- `upsert` of a row by its key; the row that is there is changed by `update`
  unfoldable pub upsert : R → (R → R) → List R → List R
  upsert create update [] = create ∷ []
  upsert create update (r ∷ rs) =
      if e.beq (key r) (key create) then update r ∷ rs else r ∷ upsert create update rs

  -- an `upsert` for each row, where the update writes the row anew
  unfoldable pub upsert_all : List R → List R → List R
  unfolding upsert
  upsert_all [] rs = rs
  upsert_all (c ∷ cs) rs = upsert_all cs (upsert c (λ r. c) rs)

  -- the last row of a list that has the key
  unfoldable pub last_of : K → List R → Option R
  last_of k [] = none
  last_of k (r ∷ rs) = or_else (last_of k rs) (if e.beq (key r) k then some r else none)

  pub find-upsert :
      (k : K) (create : R) (rs : List R)
      → find k (upsert create (λ r. create) rs)
        ≡ (if e.beq (key create) k then some create else find k rs)
  unfolding find upsert
  find-upsert k create [] = refl
  find-upsert k create (r ∷ rs) = ground (
    arith,
    find-upsert k create rs,
    e.beq_iff (key create) k,
    e.beq_iff (key r) k,
    e.beq_iff (key r) (key create),
  )

  pub find-upsert_all :
      (k : K) (cs rs : List R) → find k (upsert_all cs rs) ≡ or_else (last_of k cs) (find k rs)
  unfolding upsert_all last_of
  find-upsert_all k [] rs = refl
  find-upsert_all k (c ∷ cs) rs =
      ground (arith, find-upsert_all k cs (upsert c (λ r. c) rs), find-upsert k c rs)
