-- ===== src/Ingest/Range/Invariant/Progress.antt =====
-- What one step of one worker has to show, and the steps that change little.
use twilight_core_explorer.Common.{ℕ, ◌≤◌, ◌<◌, ◌≡◌, ◌≢◌, ◌⊎◌, inl, true, none, arith}
use twilight_core_explorer.Ingest.Store.{Store}
use twilight_core_explorer.Ingest.Store.Laws.{Indexed}
use twilight_core_explorer.Ingest.Range.Advance.{has}
use twilight_core_explorer.Ingest.Range.Worker.{Job, Shared, Pc, with_store}
use twilight_core_explorer.Ingest.Range.Invariant.Defs.{front_of, Knows, Owns, Honest, Settled}

-- What never goes back.
pub record Grows (j : Job) (s t : Shared) : Type 0 where
  pub next_up : s.next ≤ t.next
  pub front_up : front_of j s ≤ front_of j t
  pub error_up : s.first_error ≢ none → t.first_error ≢ none
  pub indexed : (k : ℕ) → Indexed k s.store → Indexed k t.store
  pub waiting :
      (k : ℕ)
      → has k s.completed_ahead ≡ true
      → (has k t.completed_ahead ≡ true) ⊎ (k < front_of j t)

-- A height that the worker no longer answers for is elsewhere.
pub data Handed (j : Job) (t : Shared) (q : Pc) (k : ℕ) : Type 0 where
  still : Owns q k → Handed j t q k
  done_with : has k t.completed_ahead ≡ true → Handed j t q k
  passed : k < front_of j t → Handed j t q k
  failed_now : t.first_error ≢ none → Handed j t q k

pub record Moved (j : Job) (s : Shared) (p : Pc) (t : Shared) (q : Pc) : Type 0 where
  pub grows : Grows j s t
  pub settled : Settled j t
  pub knows : Knows j t q
  pub handed : (k : ℕ) → Owns p k → Handed j t q k
  pub taken : (k : ℕ) → s.next ≤ k → k < t.next → Owns q k

pub Grows-refl : (j : Job) (s : Shared) → Grows j s s
Grows-refl j s = record {
  next_up = omega arith;
  front_up = omega arith;
  error_up = λ h. h;
  indexed = λ k h. h;
  waiting = λ k h. inl h;
}

-- nothing shared changes
pub unchanged :
    (j : Job) (s : Shared) (p q : Pc)
    → Settled j s
    → Knows j s q
    → ((k : ℕ) → Owns p k → Owns q k)
    → Moved j s p s q
unchanged j s p q c w o = record {
  grows = Grows-refl j s;
  settled = c;
  knows = w;
  handed = λ k h. still (o k h);
  taken = λ k a b. absurd (omega arith);
}

-- the database changes, and keeps the blocks that it has
pub restored :
    (j : Job) (s : Shared) (p q : Pc) (db : Store)
    → Settled j s
    → ((k : ℕ) → Indexed k s.store → Indexed k db)
    → Honest j db
    → Knows j (with_store s db) q
    → ((k : ℕ) → Owns p k → Owns q k)
    → Moved j s p (with_store s db) q
restored j s p q db c up honest w o = record {
  grows = record {
    next_up = omega arith;
    front_up = omega arith;
    error_up = λ h. h;
    indexed = up;
    waiting = λ k h. inl h;
  };
  settled = record {
    next_low = c.next_low;
    next_high = c.next_high;
    front_low = c.front_low;
    front_high = c.front_high;
    front_open = c.front_open;
    below = λ k a b. up k (c.below k a b);
    ahead = λ k h. let (a, b) = c.ahead k h in (a, up k b);
    honest = honest;
  };
  knows = w;
  handed = λ k h. still (o k h);
  taken = λ k a b. absurd (omega arith);
}
