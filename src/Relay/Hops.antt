-- ===== src/Relay/Hops.antt =====
-- `HopTracker` of pkg/relay/queue.go: which hops of a packet's route have acknowledged it. Packet
-- ids are byte lists, times are numbers, and the zero time is 0. Each method holds the mutex
-- throughout. The proofs are in the modules below.
pub mod Laws
mod Runs
use relaymeshnet.Base.{ℕ, ◌+◌, Bool, true, false, ◌&&◌, List, [], Option, none, some, length}
use relaymeshnet.Base.{select, ltb}
use relaymeshnet.Base.Maps.{lookup, insert, purge}

pub record HopState : Type 0 where
  pub packet_id : List ℕ
  pub hop_index : ℕ
  pub total_hops : ℕ
  pub acked : Bool
  pub acked_at : ℕ

pub record HopTracker : Type 0 where
  pub hops : List (List ℕ × HopState)

unfoldable pub new_hop_tracker : HopTracker
new_hop_tracker = record { hops = [] }

unfoldable pub track : List ℕ → ℕ → ℕ → HopTracker → HopTracker
track packet_id hop_index total_hops ht =
    let state : HopState = record {
      packet_id = packet_id;
      hop_index = hop_index;
      total_hops = total_hops;
      acked = false;
      acked_at = 0;
    } in
    record ht { hops = insert packet_id state ht.hops }

unfoldable pub ack : ℕ → List ℕ → HopTracker → HopTracker × Bool
ack now packet_id ht = elim (lookup packet_id ht.hops) [
  | none ↦ (ht, false)
  | some state ↦
      let state' : HopState = record state { acked = true; acked_at = now } in
      (record ht { hops = insert packet_id state' ht.hops }, true)
]

unfoldable pub is_acked : List ℕ → HopTracker → Bool
is_acked packet_id ht = elim (lookup packet_id ht.hops) [ none ↦ false | some state ↦ state.acked ]

-- `state.ACKed && state.ACKedAt.Before(now.Add(-olderThan))`
abbrev pub is_stale : ℕ → ℕ → HopState → Bool
is_stale now older_than state = state.acked && ltb (state.acked_at + older_than) now

unfoldable pub cleanup : ℕ → ℕ → HopTracker → HopTracker × ℕ
cleanup now older_than ht = (
  record ht { hops = purge (is_stale now older_than) ht.hops },
  length (select (λ e. is_stale now older_than e.1) ht.hops),
)
