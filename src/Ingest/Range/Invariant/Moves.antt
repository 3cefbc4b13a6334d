-- ===== src/Ingest/Range/Invariant/Moves.antt =====
-- Every step of a worker of `ingestRange` keeps what the range's variables and the database say.
use twilight_core_explorer.Common.{
  ℕ, ◌+◌, ◌≤◌, ◌<◌, ◌≡◌, ◌≢◌, ◌⊎◌, inl, inr, true, Option, none, some, String, arith, refl, ◌∷◌,
  Bool-cases, is_some, ltb, ltb→lt,
}
use twilight_core_explorer.Ingest.Cursor.{
  idle, halted_error, halted_hash_mismatch, halt_cursor_error, halt_cursor_hash_mismatch,
  update_cursor_success,
}
use twilight_core_explorer.Ingest.Store.{Store, HeightRows, write_rows, find_block}
use twilight_core_explorer.Ingest.Store.Laws.{
  Indexed, write_rows-Indexed_other, write_rows-Indexed_self,
}
use twilight_core_explorer.Ingest.Height.{
  Decision, write, halt_mismatch, halt_at, halt_mismatch_at, decide, mismatch_message,
}
use twilight_core_explorer.Ingest.Range.Advance.{advance_watermark_lem}
use twilight_core_explorer.Ingest.Range.Worker.{
  RangeError, Job, Shared, Pc, head, fetching, saving, halting, failing, saved, stamping, stamped,
  done, Fault, mismatch, other, at_head, on_read, halt_for, resume, stamp_cursor, forget_hashes,
  catch, with_store, Move, turn, read_rows, read_fails, save, save_fails, halt, halt_fails, return,
  stamp, stamp_fails, forget, fail,
}
use twilight_core_explorer.Ingest.Range.Invariant.Defs.{Upto, Claimed, Knows, Honest, Settled}
use twilight_core_explorer.Ingest.Range.Invariant.Progress.{Moved, failed_now, unchanged, restored}
use twilight_core_explorer.Ingest.Range.Invariant.Resume.{resumed-Moved}

stopped :
    (j : Job) (s : Shared)
    → Settled j s
    → (s.first_error ≢ none) ⊎ (j.end' < s.next)
    → Moved j s head s done
stopped j s c w = unchanged j s head done c w (λ k h. h)

claims :
    (j : Job) (s : Shared)
    → Settled j s
    → s.next ≤ j.end'
    → Moved j s head (record s { next = s.next + 1 }) (fetching s.next)
claims j s c le = record {
  grows = record {
    next_up = omega arith;
    front_up = omega arith;
    error_up = λ h. h;
    indexed = λ k h. h;
    waiting = λ k h. inl h;
  };
  settled = record {
    next_low = let a = c.next_low in omega arith;
    next_high = omega arith;
    front_low = c.front_low;
    front_high = let a = c.front_high in omega arith;
    front_open = c.front_open;
    below = c.below;
    ahead = λ k h. let ((a, b), d) = c.ahead k h in ((a, omega arith), d);
    honest = c.honest;
  };
  knows = (c.next_low, omega arith);
  handed = λ k h. elim h [ ];
  taken = λ k a b. omega arith;
}

not-none : (e : Option RangeError) → is_some e ≡ true → e ≢ none
not-none none h = λ k. ground arith
not-none (some e) h = λ k. ground arith

at_head-Moved :
    (j : Job) (s : Shared) → Settled j s → Moved j s head (at_head j s).0 (at_head j s).1
unfolding at_head
at_head-Moved j s c = elim (Bool-cases (is_some s.first_error)) [
  | inl e ↦ rw e (stopped j s c (inl (not-none s.first_error e)))
  | inr e ↦ rw e (elim (Bool-cases (ltb j.end' s.next)) [
    | inl past ↦ rw past (stopped j s c (inr (ltb→lt j.end' s.next past)))
    | inr more ↦ rw more (claims j s c (ground arith))
  ])
]

on_read-Moved :
    (j : Job) (s : Shared) (h : ℕ) (rows : HeightRows) (d : Decision)
    → Settled j s
    → Claimed j s h
    → Moved j s (fetching h) s (on_read h rows d)
on_read-Moved j s h rows write c w = unchanged j s (fetching h) (saving h rows) c w (λ k e. e)
on_read-Moved j s h rows (halt_mismatch stored fetched) c w =
    unchanged j s (fetching h) (halting h mismatch) c w (λ k e. e)

save-Moved :
    (j : Job) (s : Shared) (h : ℕ) (rows : HeightRows)
    → Settled j s
    → Claimed j s h
    → Moved j s (saving h rows) (with_store s (write_rows h rows s.store)) (saved h rows.block_hash)
unfolding write_rows
save-Moved j s h rows c w =
    let up : (k : ℕ) → Indexed k s.store → Indexed k (write_rows h rows s.store) =
      λ k. write_rows-Indexed_other k h rows s.store in
    restored j s (saving h rows) (saved h rows.block_hash) (write_rows h rows s.store) c up
      (record {
        cursor = c.honest.cursor;
        stored = c.honest.stored;
        upto = λ k a b. up k (c.honest.upto k a b);
      })
      (w, write_rows-Indexed_self h rows s.store) (λ k e. e)

-- a cursor that halts keeps its height, and the blocks stay
halt_for-Indexed :
    (f : Fault) (h : ℕ) (db : Store) (k : ℕ) → Indexed k db → Indexed k (halt_for f h db)
unfolding halt_for halt_at halt_mismatch_at find_block
halt_for-Indexed mismatch h db k i = i
halt_for-Indexed (other message) h db k i = i

halt_for-Honest :
    (j : Job) (f : Fault) (h : ℕ) (db : Store) → Honest j db → Honest j (halt_for f h db)
unfolding halt_for halt_at halt_mismatch_at halt_cursor_error halt_cursor_hash_mismatch
halt_for-Honest j mismatch h db c = record {
  cursor = record c.cursor { status = halted_hash_mismatch; error = some mismatch_message };
  stored = rw c.stored refl;
  upto = λ k a b. halt_for-Indexed mismatch h db k (c.upto k a b);
}
halt_for-Honest j (other message) h db c = record {
  cursor = record c.cursor { status = halted_error; error = some message };
  stored = rw c.stored refl;
  upto = λ k a b. halt_for-Indexed (other message) h db k (c.upto k a b);
}

-- a cursor's success with a watermark that is true
stamp-Moved :
    (j : Job) (s : Shared) (h l : ℕ) (hash : Option String)
    → Settled j s
    → Upto j l s.store
    → Moved j s (stamping h l hash) (stamp_cursor j l hash s) (stamped h)
unfolding stamp_cursor update_cursor_success find_block
stamp-Moved j s h l hash c w =
    restored j s (stamping h l hash) (stamped h) _ c (λ k i. i)
      (record {
        cursor = record {
          last_indexed_height = l;
          last_indexed_hash = hash;
          latest_chain_height = some j.latest_chain_height;
          status = idle;
          error = none;
        };
        stored = rw c.honest.stored refl;
        upto = w;
      })
      tt (λ k e. e)

forget-Moved :
    (j : Job) (s : Shared) (h : ℕ) → Settled j s → Moved j s (stamped h) (forget_hashes s) head
unfolding forget_hashes
forget-Moved j s h c = record {
  grows = record {
    next_up = omega arith;
    front_up = omega arith;
    error_up = λ e. e;
    indexed = λ k i. i;
    waiting = λ k e. inl e;
  };
  settled = record {
    next_low = c.next_low;
    next_high = c.next_high;
    front_low = c.front_low;
    front_high = c.front_high;
    front_open = c.front_open;
    below = c.below;
    ahead = c.ahead;
    honest = c.honest;
  };
  knows = tt;
  handed = λ k e. elim e [ ];
  taken = λ k a b. absurd (omega arith);
}

catch-Moved :
    (j : Job) (s : Shared) (h : ℕ) (m : String)
    → Settled j s
    → Moved j s (failing h m) (catch h m s) done
unfolding catch
catch-Moved j s h m c = record {
  grows = record {
    next_up = omega arith;
    front_up = omega arith;
    error_up = λ e x. ground arith;
    indexed = λ k i. i;
    waiting = λ k e. inl e;
  };
  settled = record {
    next_low = c.next_low;
    next_high = c.next_high;
    front_low = c.front_low;
    front_high = c.front_high;
    front_open = c.front_open;
    below = c.below;
    ahead = c.ahead;
    honest = c.honest;
  };
  knows = inl (λ x. ground arith);
  handed = λ k e. failed_now (λ x. ground arith);
  taken = λ k a b. absurd (omega arith);
}

pub Move-Moved :
    {j : Job} {s t : Shared} {p q : Pc}
    → Move j s p t q
    → Settled j s
    → Knows j s p
    → Moved j s p t q
unfolding resume
Move-Moved {j} {s} turn c w = at_head-Moved j s c
Move-Moved {j} {s} (read_rows h rows) c w = on_read-Moved j s h rows (decide h rows s.store) c w
Move-Moved {j} {s} (read_fails h m) c w =
    unchanged j s (fetching h) (halting h (other m)) c w (λ k e. e)
Move-Moved {j} {s} (save h rows) c w = save-Moved j s h rows c w
Move-Moved {j} {s} (save_fails h rows m) c w =
    unchanged j s (saving h rows) (halting h (other m)) c w (λ k e. e)
Move-Moved {j} {s} (halt h f) c w =
    restored j s (halting h f) _ (halt_for f h s.store) c (halt_for-Indexed f h s.store)
      (halt_for-Honest j f h s.store c.honest) tt (λ k e. e)
Move-Moved {j} {s} (halt_fails h mismatch m) c w =
    unchanged j s (halting h mismatch) (halting h (other m)) c w (λ k e. e)
Move-Moved {j} {s} (halt_fails h (other f) m) c w =
    unchanged j s (halting h (other f)) (failing h m) c tt (λ k e. e)
Move-Moved {j} {s} (return h hash) c w =
    resumed-Moved j h hash s c w.0 w.1 _
      (advance_watermark_lem j.start (h ∷ s.completed_ahead) s.last_contiguous) _
Move-Moved {j} {s} (stamp h l hash) c w = stamp-Moved j s h l hash c w
Move-Moved {j} {s} (stamp_fails h l hash m) c w =
    unchanged j s (stamping h l hash) (failing h m) c tt (λ k e. elim e [ ])
Move-Moved {j} {s} (forget h) c w = forget-Moved j s h c
Move-Moved {j} {s} (fail h m) c w = catch-Moved j s h m c
