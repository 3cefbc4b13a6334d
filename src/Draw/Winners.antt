-- ===== src/Draw/Winners.antt =====
-- `winnerCount` of draw-verify.ts, and the ranking of the candidates by their tickets.
pub mod Laws
use twilight_core_explorer.Common.{
  ℕ, zero, suc, ◌+◌, ◌*◌, ◌/◌, ◌%◌, Bool, true, false, List, [], ◌∷◌, ltb, ◌==◌, length, take, map,
  if◌then◌else◌,
}
use twilight_core_explorer.Draw.Bytes.{Bytes, lt_bytes}

-- `if (cap < k) k = cap`
abbrev pub cap_at : ℕ → ℕ → ℕ
cap_at cap k = if ltb cap k then cap else k

-- `winnerCount`: K = min(max(1, rate_k), M, P, floor(C/2))
unfoldable pub winner_count : ℕ → ℕ → ℕ → ℕ → ℕ
winner_count c rate_bps max_sel max_per_sel =
    if c == 0
    then 0
    else if c == 1
    then 1
    else let rate_k : ℕ = c / 10000 * rate_bps + c % 10000 * rate_bps / 10000 in
      let k : ℕ = if ltb rate_k 1 then 1 else rate_k in
      cap_at (c / 2) (cap_at max_per_sel (cap_at max_sel k))

pub record Ranked : Type 0 where
  pub id : Bytes
  pub ticket : Bytes

-- the comparison of `sort`: by ticket, then by id; `true` where `a` may stand before `b`
unfoldable pub ranks_before : Ranked → Ranked → Bool
unfolding lt_bytes
ranks_before a b =
    if lt_bytes a.ticket b.ticket
    then true
    else if lt_bytes b.ticket a.ticket
    then false
    else if lt_bytes b.id a.id
    then false
    else true

unfoldable pub insert_ranked : Ranked → List Ranked → List Ranked
unfolding ranks_before
insert_ranked r [] = r ∷ []
insert_ranked r (s ∷ ss) = if ranks_before r s then r ∷ s ∷ ss else s ∷ insert_ranked r ss

unfoldable pub rank : List Ranked → List Ranked
unfolding insert_ranked
rank [] = []
rank (r ∷ rs) = insert_ranked r (rank rs)

-- the re-drawn winners: the first `k` ids by ticket
unfoldable pub draw_winners : (Bytes → Bytes) → ℕ → List Bytes → List Bytes
unfolding rank
draw_winners ticket_of k ids =
    map (λ (r : Ranked). r.id)
      (take k (rank (map (λ i. record { id = i; ticket = ticket_of i }) ids)))
