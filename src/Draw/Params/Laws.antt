-- ===== src/Draw/Params/Laws.antt =====
-- When the published parameters are accepted.
use twilight_core_explorer.Common.{
  All, ℕ, ◌≤◌, ◌<◌, ◌≡◌, ◌↔◌, Bool, true, false, ◌||◌, List, [], ◌∷◌, arith, ltb, ◌==◌,
  if◌then◌else◌,
}
use twilight_core_explorer.Draw.Params.{
  DrawParameters, Rule, rules, run_rules, parsed, validate, max_window_blocks,
}

-- The reference rules on draw parameters, with this explorer's cap on the window.
pub record IsSound (p : DrawParameters) : Type 0 where
  pub rate : (0 < p.selection_rate_bps) × (p.selection_rate_bps ≤ 5000)
  pub selected : 0 < p.max_selected_participants
  pub per_selection : 0 < p.max_selected_participants_per_selection
  pub params_version : 0 < p.selection_params_version
  pub policy_version : 0 < p.selection_policy_version
  pub offset : 0 < p.beacon_start_offset_blocks
  pub window : (0 < p.beacon_window_blocks) × (p.beacon_window_blocks ≤ max_window_blocks)
  pub candidates : 0 < p.max_candidates_per_selection
  pub chain :
      (0 < p.chain_min_external_beacon_blocks) × (0 < p.chain_min_distinct_external_proposers)
  pub blocks :
      (0 < p.min_external_beacon_blocks)
      × (p.min_external_beacon_blocks ≤ p.chain_min_external_beacon_blocks)
      × (p.min_external_beacon_blocks ≤ p.beacon_window_blocks)
  pub proposers :
      (0 < p.min_distinct_external_proposers)
      × (p.min_distinct_external_proposers ≤ p.chain_min_distinct_external_proposers)
      × (p.min_distinct_external_proposers ≤ p.min_external_beacon_blocks)
  pub excluded : p.exclude_target_slot_proposals ≡ true

run_rules_iff :
    (rs : List Rule) (p : DrawParameters)
    → (run_rules rs p ≡ parsed p) ↔ All (λ r. r.fails ≡ false) rs
unfolding run_rules
run_rules_iff [] p = ground arith
run_rules_iff (r ∷ rs) p = ground (arith, run_rules_iff rs p)

nonzero_iff : (n : ℕ) → ((n == 0) ≡ false) ↔ (0 < n)
nonzero_iff n = ground arith

within_iff : (a b : ℕ) → (ltb a b ≡ false) ↔ (b ≤ a)
within_iff a b = ground arith

neither_iff : (a b : Bool) → (a || b ≡ false) ↔ ((a ≡ false) × (b ≡ false))
neither_iff a b = ground arith

set_iff : (b : Bool) → ((if b then false else true) ≡ false) ↔ (b ≡ true)
set_iff b = ground arith

rules-IsSound : (p : DrawParameters) → All (λ r. r.fails ≡ false) (rules p) → IsSound p
rules-IsSound p
      (
        rate,
        (
          selected,
          (
            per,
            (
              version,
              (
                policy,
                (
                  offset,
                  (
                    window,
                    (
                      capped,
                      (
                        candidates,
                        (
                          chain,
                          (
                            blocks,
                            (
                              proposers,
                              (some_blocks, (some_proposers, (enough, (fits, (flag, _))))),
                            ),
                          ),
                        ),
                      ),
                    ),
                  ),
                ),
              ),
            ),
          ),
        ),
      ) =
    record {
      rate = (
        (nonzero_iff _).0 ((neither_iff _ _).0 rate).0,
        (within_iff _ _).0 ((neither_iff _ _).0 rate).1,
      );
      selected = (nonzero_iff _).0 selected;
      per_selection = (nonzero_iff _).0 per;
      params_version = (nonzero_iff _).0 version;
      policy_version = (nonzero_iff _).0 policy;
      offset = (nonzero_iff _).0 offset;
      window = ((nonzero_iff _).0 window, (within_iff _ _).0 capped);
      candidates = (nonzero_iff _).0 candidates;
      chain = (
        (nonzero_iff _).0 ((neither_iff _ _).0 chain).0,
        (nonzero_iff _).0 ((neither_iff _ _).0 chain).1,
      );
      blocks = ((nonzero_iff _).0 some_blocks, (within_iff _ _).0 blocks, (within_iff _ _).0 fits);
      proposers = (
        (nonzero_iff _).0 some_proposers,
        (within_iff _ _).0 proposers,
        (within_iff _ _).0 enough,
      );
      excluded = (set_iff _).0 flag;
    }

IsSound-rules : (p : DrawParameters) → IsSound p → All (λ r. r.fails ≡ false) (rules p)
IsSound-rules p s = (
  (neither_iff _ _).1 ((nonzero_iff _).1 s.rate.0, (within_iff _ _).1 s.rate.1),
  (
    (nonzero_iff _).1 s.selected,
    (
      (nonzero_iff _).1 s.per_selection,
      (
        (nonzero_iff _).1 s.params_version,
        (
          (nonzero_iff _).1 s.policy_version,
          (
            (nonzero_iff _).1 s.offset,
            (
              (nonzero_iff _).1 s.window.0,
              (
                (within_iff _ _).1 s.window.1,
                (
                  (nonzero_iff _).1 s.candidates,
                  (
                    (neither_iff _ _).1 ((nonzero_iff _).1 s.chain.0, (nonzero_iff _).1 s.chain.1),
                    (
                      (within_iff _ _).1 s.blocks.1,
                      (
                        (within_iff _ _).1 s.proposers.1,
                        (
                          (nonzero_iff _).1 s.blocks.0,
                          (
                            (nonzero_iff _).1 s.proposers.0,
                            (
                              (within_iff _ _).1 s.proposers.2,
                              ((within_iff _ _).1 s.blocks.2, ((set_iff _).1 s.excluded, tt)),
                            ),
                          ),
                        ),
                      ),
                    ),
                  ),
                ),
              ),
            ),
          ),
        ),
      ),
    ),
  ),
)

-- Parameters that have been read are accepted, as they are, exactly where every rule holds.
pub validate_iff : (p : DrawParameters) → (validate p ≡ parsed p) ↔ IsSound p
unfolding validate
validate_iff p = (
  λ e. rules-IsSound p ((run_rules_iff (rules p) p).0 e),
  λ s. (run_rules_iff (rules p) p).1 (IsSound-rules p s),
)
