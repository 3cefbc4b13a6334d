-- ===== src/Ingest/Height/Laws.antt =====
-- `ingestHeight` and the hash of a block that is stored.
use twilight_core_explorer.Common.{
  or_else, ℕ, String, Bool, true, false, ◌≡◌, ◌≢◌, refl, sym, ap, ◌∙◌, subst, Option, none, some,
  Bool-cases, inl, inr, str_eq_iff, ◌==◌, ==_iff, arith,
}
use twilight_core_explorer.Ingest.Store.{row_hash, HeightRows, Store, write_rows, find_block}
use twilight_core_explorer.Ingest.Store.Laws.{find_block-write_rows}
use twilight_core_explorer.Ingest.Height.{
  Read, read, read_failed, Faults, Decision, write, halt_mismatch, compare_hashes, hash_of, decide,
  halt_at, halt_mismatch_at, stamp_height, fail_with, mismatch_with, write_or_halt, ingest_height,
}

halt_at-find :
    (k height : ℕ) (message : String) (s : Store)
    → find_block k (halt_at height message s) ≡ find_block k s
unfolding halt_at find_block
halt_at-find k height message s = refl

halt_mismatch_at-find :
    (k height : ℕ) (message : String) (s : Store)
    → find_block k (halt_mismatch_at height message s) ≡ find_block k s
unfolding halt_mismatch_at find_block
halt_mismatch_at-find k height message s = refl

fail_with-find :
    (k height : ℕ) (message : String) (fault : Option String) (s : Store)
    → find_block k (fail_with height message fault s).1 ≡ find_block k s
fail_with-find k height message none s = halt_at-find k height message s
fail_with-find k height message (some fault) s = refl

mismatch_with-find :
    (k height : ℕ) (stored fetched : String) (fault : Option String) (faults : Faults) (s : Store)
    → find_block k (mismatch_with height stored fetched fault faults s).1 ≡ find_block k s
mismatch_with-find k height stored fetched none faults s = halt_mismatch_at-find k height _ s
mismatch_with-find k height stored fetched (some fault) faults s =
    fail_with-find k height fault faults.in_halt_error s

pub stamp_height-find :
    (k : ℕ) (skip : Bool) (height : ℕ) (hash : Option String) (latest : Option ℕ) (s : Store)
    → find_block k (stamp_height skip height hash latest s) ≡ find_block k s
unfolding find_block
stamp_height-find k true height hash latest s = refl
stamp_height-find k false height hash latest s = refl

-- two hashes that are there agree, where the comparison lets the height through
agree : (x y : String) → x ≢ "" → y ≢ "" → compare_hashes (some x) (some y) ≡ write → y ≡ x
agree x y nx ny e = ground (arith, str_eq_iff x "", str_eq_iff y "", str_eq_iff x y)

-- The height's stored hash, where it is not empty, is not another one afterwards.
abbrev Kept : ℕ → Store → Store → Type 0
Kept k s t =
    (x y : String)
    → hash_of (find_block k s) ≡ some x
    → x ≢ ""
    → hash_of (find_block k t) ≡ some y
    → y ≢ ""
    → y ≡ x

some-injective : {x y : String} → some x ≡ some y → y ≡ x
some-injective e = cc

same-Kept : (k : ℕ) (s t : Store) → find_block k t ≡ find_block k s → Kept k s t
same-Kept k s t e x y before nx after ny = some-injective (sym before ∙ ap hash_of (sym e) ∙ after)

compared :
    (k height : ℕ) (rows : HeightRows) (s : Store) (x y : String)
    → height ≡ k
    → decide height rows s ≡ write
    → hash_of (find_block k s) ≡ some x
    → rows.block_hash ≡ some y
    → compare_hashes (some x) (some y) ≡ write
unfolding decide
compared k height rows s x y same e before after =
    subst (λ o. compare_hashes o (some y) ≡ write) before
      (subst (λ o. compare_hashes (hash_of (find_block k s)) o ≡ write) after
        (subst (λ h. compare_hashes (hash_of (find_block h s)) rows.block_hash ≡ write) same e))

-- The two readings of the block's hash agree, as those of the chain client do, which reads both from
-- `block_id.hash`.
abbrev pub OneHash : HeightRows → Type 0
OneHash rows = rows.block_hash ≡ none → rows.raw_hash ≡ none

fetched_in :
    (o p : Option String) (y : String) → (o ≡ none → p ≡ none) → or_else o p ≡ some y → o ≡ some y
fetched_in none p y one e = (let bad : none ≡ some y = sym (one refl) ∙ e in cc)
fetched_in (some x) p y one e = e

fetched_hash :
    (rows : HeightRows) (y : String)
    → OneHash rows
    → row_hash rows ≡ some y
    → rows.block_hash ≡ some y
fetched_hash rows y one e = fetched_in rows.block_hash rows.raw_hash y one e

abbrev pub ReadsOneHash : Read → Type 0
ReadsOneHash (read_failed message) = Unit {0}
ReadsOneHash (read rows) = OneHash rows

written-Kept :
    (k height : ℕ) (rows : HeightRows) (s : Store)
    → OneHash rows
    → decide height rows s ≡ write
    → Kept k s (write_rows height rows s)
written-Kept k height rows s one e x y before nx after ny = elim (Bool-cases (height == k)) [
  | inl t ↦
      (let new : hash_of (find_block k (write_rows height rows s)) ≡ row_hash rows =
          rw (find_block-write_rows k height rows s, t) refl in
        let same = (==_iff height k).0 t in
        agree x y nx ny
          (compared k height rows s x y same e before (fetched_hash rows y one (sym new ∙ after))))
  | inr t ↦
      same-Kept k s (write_rows height rows s) (rw (find_block-write_rows k height rows s, t) refl)
        x y before nx after ny
]

stamped-Kept :
    (k : ℕ) (skip : Bool) (height : ℕ) (latest : Option ℕ) (rows : HeightRows) (s : Store)
    → OneHash rows
    → decide height rows s ≡ write
    → Kept k s (stamp_height skip height rows.block_hash latest (write_rows height rows s))
stamped-Kept k skip height latest rows s one e x y before nx after ny =
    written-Kept k height rows s one e x y before nx
      (ap hash_of
          (sym (stamp_height-find k skip height rows.block_hash latest (write_rows height rows s)))
        ∙ after)
      ny

write_or_halt-Kept :
    (k : ℕ) (skip : Bool) (height : ℕ) (latest : Option ℕ) (rows : HeightRows) (faults : Faults)
    (d : Decision) (fault : Option String) (s : Store)
    → OneHash rows
    → decide height rows s ≡ d
    → Kept k s (write_or_halt skip height latest rows faults d fault s).1
write_or_halt-Kept k skip height latest rows faults (halt_mismatch stored fetched) fault s one e =
    same-Kept k s _ (mismatch_with-find k height stored fetched faults.in_halt_mismatch faults s)
write_or_halt-Kept k skip height latest rows faults write (some message) s one e =
    same-Kept k s _ (fail_with-find k height message faults.in_halt_error s)
write_or_halt-Kept k skip height latest rows faults write none s one e =
    stamped-Kept k skip height latest rows s one e

-- Ingesting a height never replaces a stored block's hash by another: whatever was read and whatever
-- failed, where the two readings of the fetched hash agree, a hash that a stored block had before and
-- a hash that it has after, neither empty, are one.
pub ingest_height-hash_kept :
    (skip : Bool) (height : ℕ) (latest : Option ℕ) (r : Read) (faults : Faults) (s : Store) (k : ℕ)
    (x y : String)
    → ReadsOneHash r
    → hash_of (find_block k s) ≡ some x
    → x ≢ ""
    → hash_of (find_block k (ingest_height skip height latest r faults s).1) ≡ some y
    → y ≢ ""
    → y ≡ x
unfolding ingest_height
ingest_height-hash_kept skip height latest (read_failed message) faults s k x y one =
    same-Kept k s (fail_with height message faults.in_halt_error s).1
      (fail_with-find k height message faults.in_halt_error s) x y
ingest_height-hash_kept skip height latest (read rows) faults s k x y one =
    write_or_halt-Kept k skip height latest rows faults (decide height rows s) faults.in_transaction
      s one refl x y
