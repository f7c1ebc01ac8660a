-- ===== src/Relay/Hops/Runs.antt =====
-- A tracker with two packets, and the theorems at it.
use relaymeshnet.Base.{◌≡◌, refl, true, false, List, [], ◌∷◌}
use relaymeshnet.Base.{bytes_eq, if◌then◌else◌}
use relaymeshnet.Base.Maps.{lookup, insert}
use relaymeshnet.Relay.Hops.{HopTracker, new_hop_tracker, track, ack, is_acked, cleanup}
use relaymeshnet.Relay.Hops.Laws.{tracked, is_acked_after, Call, tracks, acks, step, run}

abbrev calls : List Call
calls = tracks (1 ∷ []) 0 3 ∷ tracks (2 ∷ []) 1 3 ∷ acks 10 (1 ∷ []) ∷ []

abbrev tracker : HopTracker
tracker = run calls new_hop_tracker

one_acked : is_acked (1 ∷ []) tracker ≡ true
unfolding run step track ack is_acked new_hop_tracker lookup insert bytes_eq
one_acked = refl

cleanup_removes : (cleanup 100 60 tracker).1 ≡ 1
unfolding run step track ack cleanup new_hop_tracker lookup insert bytes_eq
cleanup_removes = refl

is_acked_after_example :
    (is_acked (2 ∷ []) (track (1 ∷ []) 0 3 tracker)
      ≡ (if bytes_eq (1 ∷ []) (2 ∷ []) then false else is_acked (2 ∷ []) tracker))
    × ((ack 20 (1 ∷ []) tracker).1 ≡ tracked (1 ∷ []) tracker)
    × (is_acked (2 ∷ []) (ack 20 (1 ∷ []) tracker).0 ≡ (
        if bytes_eq (1 ∷ []) (2 ∷ []) then tracked (1 ∷ []) tracker else is_acked (2 ∷ []) tracker))
is_acked_after_example = is_acked_after (1 ∷ []) (2 ∷ []) 20 0 3 tracker
