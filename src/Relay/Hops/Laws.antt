-- ===== src/Relay/Hops/Laws.antt =====
-- The tracker as a map from packet ids to acknowledgements.
use relaymeshnet.Base.{ℕ, ◌+◌, ◌≡◌, refl, ◌∙◌, arith}
use relaymeshnet.Base.{Bool, true, false, List, [], ◌∷◌, none, some, length}
use relaymeshnet.Base.{bytes_eq, bytes_eq→eq, if◌then◌else◌, Option-cases, inl, inr}
use relaymeshnet.Base.Maps.{IsMap, lookup, insert, keep, lookup-insert, insert-IsMap, purge-IsMap}
use relaymeshnet.Base.Maps.{lookup-purge, length-purge}
use relaymeshnet.Relay.Hops.{HopState, HopTracker, new_hop_tracker, track, ack, is_acked, is_stale}
use relaymeshnet.Relay.Hops.{cleanup}

-- A packet is tracked when the map has it.
abbrev pub tracked : List ℕ → HopTracker → Bool
tracked id ht = elim (lookup id ht.hops) [ none ↦ false | some state ↦ true ]

is_acked-insert :
    (id other : List ℕ) (state : HopState) (ht : HopTracker)
    → is_acked other (record ht { hops = insert id state ht.hops })
      ≡ (if bytes_eq id other then state.acked else is_acked other ht)
unfolding is_acked
is_acked-insert id other state ht = ground (arith, lookup-insert id other state ht.hops)

ack_missing :
    (now : ℕ) (id : List ℕ) (ht : HopTracker)
    → lookup id ht.hops ≡ none
    → ack now id ht ≡ (ht, false)
unfolding ack
ack_missing now id ht e = rw (e, ack) refl

abbrev acked_state : ℕ → HopState → HopState
acked_state now state = record state { acked = true; acked_at = now }

ack_found :
    (now : ℕ) (id : List ℕ) (ht : HopTracker) (state : HopState)
    → lookup id ht.hops ≡ some state
    → ack now id ht ≡ (record ht { hops = insert id (acked_state now state) ht.hops }, true)
unfolding ack
ack_found now id ht state e = rw (e, ack) refl

is_acked-ack :
    (id other : List ℕ) (now : ℕ) (ht : HopTracker)
    → is_acked other (ack now id ht).0
      ≡ (if bytes_eq id other then tracked id ht else is_acked other ht)
is_acked-ack id other now ht = elim (Option-cases (lookup id ht.hops)) [
  | inl e ↦ rw (ack_missing now id ht e) (unfold is_acked in ground (arith, bytes_eq→eq id other))
  | inr (state, e) ↦
      rw (ack_found now id ht state e)
        (is_acked-insert id other (acked_state now state) ht ∙ ground arith)
]

ack-IsMap : (now : ℕ) (id : List ℕ) (ht : HopTracker) → IsMap ht.hops → IsMap (ack now id ht).0.hops
ack-IsMap now id ht h = elim (Option-cases (lookup id ht.hops)) [
  | inl e ↦ rw (ack_missing now id ht e) h
  | inr (state, e) ↦
      rw (ack_found now id ht state e) (insert-IsMap id (acked_state now state) ht.hops h)
]

-- `Track` starts a packet as not acknowledged, also one that was acknowledged before, and `ACK`
-- acknowledges the packet and answers whether it is tracked. Both leave the acknowledgements of all
-- other packets alone.
pub is_acked_after :
    (id other : List ℕ) (now hop total : ℕ) (ht : HopTracker)
    → (is_acked other (track id hop total ht)
        ≡ (if bytes_eq id other then false else is_acked other ht))
      × ((ack now id ht).1 ≡ tracked id ht)
      × (is_acked other (ack now id ht).0
          ≡ (if bytes_eq id other then tracked id ht else is_acked other ht))
unfolding track
is_acked_after id other now hop total ht =
    (is_acked-insert id other _ ht, unfold ack in ground arith, is_acked-ack id other now ht)

-- A call of a method that writes.
pub data Call : Type 0 where
  tracks : List ℕ → ℕ → ℕ → Call
  acks : ℕ → List ℕ → Call
  cleanups : ℕ → ℕ → Call

unfoldable pub step : Call → HopTracker → HopTracker
step (tracks id hop total) ht = track id hop total ht
step (acks now id) ht = (ack now id ht).0
step (cleanups now older_than) ht = (cleanup now older_than ht).0

unfoldable pub run : List Call → HopTracker → HopTracker
run [] ht = ht
run (c ∷ cs) ht = run cs (step c ht)

step-IsMap : (c : Call) (ht : HopTracker) → IsMap ht.hops → IsMap (step c ht).hops
unfolding step track cleanup
step-IsMap (tracks id hop total) ht h = insert-IsMap id _ ht.hops h
step-IsMap (acks now id) ht h = ack-IsMap now id ht h
step-IsMap (cleanups now older_than) ht h = purge-IsMap _ ht.hops h

run-IsMap : (cs : List Call) (ht : HopTracker) → IsMap ht.hops → IsMap (run cs ht).hops
unfolding run
run-IsMap [] ht h = h
run-IsMap (c ∷ cs) ht h = run-IsMap cs (step c ht) (step-IsMap c ht h)

-- After any calls on a new tracker, `Cleanup` removes exactly the packets that were acknowledged
-- longer ago than the limit, keeps the state of every other, and returns how many it removed.
pub cleanup_drops :
    (cs : List Call) (now older_than : ℕ) (id : List ℕ)
    → let ht = run cs new_hop_tracker in
      (lookup id (cleanup now older_than ht).0.hops
        ≡ keep (is_stale now older_than) (lookup id ht.hops))
      × (length (cleanup now older_than ht).0.hops + (cleanup now older_than ht).1 ≡ length ht.hops)
unfolding cleanup
cleanup_drops cs now older_than id =
    let h = run-IsMap cs new_hop_tracker (unfold new_hop_tracker in tt) in
    (lookup-purge _ id (run cs new_hop_tracker).hops h, length-purge _ _)
