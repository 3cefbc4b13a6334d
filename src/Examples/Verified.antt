-- ===== src/Examples/Verified.antt =====
-- The small draw verifies, and a record that publishes the other candidate does not.
use twilight_core_explorer.Common.{◌≡◌, refl}
use twilight_core_explorer.Draw.Verify.{verified, mismatch}
use twilight_core_explorer.Draw.Verify.Run.{verify_draw}
use twilight_core_explorer.Draw.Verify.Verified.{IsReproduced, verified-IsReproduced}
use twilight_core_explorer.Examples.Draw.{env, input_of, first_id, second_id}

small_draw : (verify_draw env (input_of first_id)).result ≡ verified
unfolding verify_draw twilight_core_explorer.Draw.Bytes.big_endian
    twilight_core_explorer.Draw.Hashes.candidate_set_preimage
    twilight_core_explorer.Draw.Hashes.beacon_preimage
    twilight_core_explorer.Draw.Verify.Outcome.outcome_checks
    twilight_core_explorer.Draw.Verify.Outcome.winner_checks
    twilight_core_explorer.Draw.Hashes.ticket_preimage
    twilight_core_explorer.Draw.Hashes.selected_draw_ids_preimage
small_draw = refl

other_winner : (verify_draw env (input_of second_id)).result ≡ mismatch
unfolding verify_draw twilight_core_explorer.Draw.Bytes.big_endian
    twilight_core_explorer.Draw.Hashes.candidate_set_preimage
    twilight_core_explorer.Draw.Hashes.beacon_preimage
    twilight_core_explorer.Draw.Verify.Outcome.outcome_checks
    twilight_core_explorer.Draw.Verify.Outcome.winner_checks
    twilight_core_explorer.Draw.Hashes.ticket_preimage
    twilight_core_explorer.Draw.Hashes.selected_draw_ids_preimage
other_winner = refl

verified-IsReproduced_example : IsReproduced env (input_of first_id)
verified-IsReproduced_example = verified-IsReproduced env (input_of first_id) small_draw
