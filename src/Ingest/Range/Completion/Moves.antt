-- ===== src/Ingest/Range/Completion/Moves.antt =====
-- A worker of `ingestRange` that has met no fault can take a step by which nothing fails.
use twilight_core_explorer.Common.{
  ℕ, ◌≡◌, ◌⊎◌, inl, inr, Option, none, some, arith, refl, sym, is_some, ltb, subst, ◌∙◌, Bool-cases,
  ◌==◌, ==_iff, List,
}
use twilight_core_explorer.Ingest.Store.{HeightRows, Store}
use twilight_core_explorer.Ingest.Height.{decide, write, compare_hashes}
use twilight_core_explorer.Ingest.Store.{find_block, write_rows, row_hash}
use twilight_core_explorer.Ingest.Store.Laws.{find_block-write_rows}
use twilight_core_explorer.Ingest.Height.Repeat.{same_hash}
use twilight_core_explorer.Ingest.Range.Worker.{
  Job, Shared, Pc, head, fetching, saving, halting, failing, saved, stamping, stamped, done,
  HashEntry, at_head, on_read, after_advance, same_watermark, resume, stamp_cursor, forget_hashes,
  Move, turn, read_rows, save, return, stamp, forget,
}

-- No stored block has a hash that the node's answer contradicts.
abbrev pub Agrees : (ℕ → HeightRows) → Store → Type 0
Agrees node db = (k : ℕ) → decide k (node k) db ≡ write

-- The worker has met no fault, and holds what the node answers.
abbrev pub IsSound : (ℕ → HeightRows) → Pc → Type 0
IsSound node (saving h rows) = rows ≡ node h
IsSound node (halting h f) = ⊥
IsSound node (failing h m) = ⊥
IsSound node _ = Unit

-- A step that reads a height reads what the node answers.
abbrev pub ReadsFrom : (ℕ → HeightRows) → Pc → Pc → Type 0
ReadsFrom node (fetching h) q = q ≡ saving h (node h)
ReadsFrom node _ q = Unit

-- A way on for one worker, by which nothing fails.
pub record Onward (node : ℕ → HeightRows) (j : Job) (s : Shared) (p : Pc) : Type 0 where
  pub shared : Shared
  pub pc : Pc
  pub move : Move j s p shared pc
  pub reads : ReadsFrom node p pc
  pub clean : shared.first_error ≡ none
  pub sound : IsSound node pc
  pub agrees : Agrees node shared.store

module _ (node : ℕ → HeightRows) where
  written-Agrees : (h : ℕ) (db : Store) → Agrees node db → Agrees node (write_rows h (node h) db)
  unfolding decide
  written-Agrees h db ok k =
      rw (find_block-write_rows k h (node h) db) (elim (Bool-cases (h == k)) [
        | inl e ↦ rw e (
            subst (λ x. compare_hashes (row_hash (node h)) (node x).block_hash ≡ write)
              ((==_iff h k).0 e) (same_hash (node h).block_hash (node h).raw_hash))
        | inr e ↦ rw e (ok k)
      ])

  head-IsSound : (j : Job) (s : Shared) → IsSound node (at_head j s).1
  unfolding at_head
  head-IsSound j s = elim (Bool-cases (is_some s.first_error)) [
    | inl e ↦ rw e tt
    | inr e ↦ rw e (elim (Bool-cases (ltb j.end' s.next)) [ inl f ↦ rw f tt | inr f ↦ rw f tt ])
  ]

  head_clean : (j : Job) (s : Shared) → (at_head j s).0.first_error ≡ s.first_error
  unfolding at_head
  head_clean j s = ground arith

  head_store : (j : Job) (s : Shared) → (at_head j s).0.store ≡ s.store
  unfolding at_head
  head_store j s = ground arith

  advance-IsSound :
      (h : ℕ) (before o : Option ℕ) (hashes : List HashEntry)
      → IsSound node (after_advance h before o hashes)
  advance-IsSound h before none hashes = tt
  advance-IsSound h before (some l) hashes = elim (Bool-cases (same_watermark before (some l))) [
    | inl e ↦ rw e tt
    | inr e ↦ rw e tt
  ]

  fetched :
      (j : Job) (s : Shared) (h : ℕ)
      → s.first_error ≡ none
      → Agrees node s.store
      → Onward node j s (fetching h)
  fetched j s h clean ok = record {
    shared = s;
    pc = saving h (node h);
    move =
        subst (λ d. Move j s (fetching h) s (on_read h (node h) d)) (ok h) (read_rows h (node h));
    reads = refl;
    clean = clean;
    sound = refl;
    agrees = ok;
  }

  pub onward :
      (j : Job) (s : Shared) (p : Pc)
      → s.first_error ≡ none
      → IsSound node p
      → Agrees node s.store
      → (p ≡ done) ⊎ Onward node j s p
  unfolding resume stamp_cursor forget_hashes decide find_block
  onward j s done clean sound ok = inl refl
  onward j s head clean sound ok = inr (record {
    shared = (at_head j s).0;
    pc = (at_head j s).1;
    move = turn;
    reads = tt;
    clean = head_clean j s ∙ clean;
    sound = head-IsSound j s;
    agrees = subst (Agrees node) (sym (head_store j s)) ok;
  })
  onward j s (fetching h) clean sound ok = inr (fetched j s h clean ok)
  onward j s (saving h rows) clean sound ok = inr (record {
    shared = _;
    pc = _;
    move = save h rows;
    reads = tt;
    clean = clean;
    sound = tt;
    agrees =
        subst (λ r. Agrees node (write_rows h r s.store)) (sym sound) (written-Agrees h s.store ok);
  })
  onward j s (saved h hash) clean sound ok = inr (record {
    shared = _;
    pc = _;
    move = return h hash;
    reads = tt;
    clean = clean;
    sound = search advance-IsSound;
    agrees = ok;
  })
  onward j s (stamping h l hash) clean sound ok = inr (record {
    shared = _;
    pc = _;
    move = stamp h l hash;
    reads = tt;
    clean = clean;
    sound = tt;
    agrees = ok;
  })
  onward j s (stamped h) clean sound ok = inr (record {
    shared = _;
    pc = _;
    move = forget h;
    reads = tt;
    clean = clean;
    sound = tt;
    agrees = ok;
  })
  onward j s (halting h f) clean sound ok = absurd sound
  onward j s (failing h m) clean sound ok = absurd sound
