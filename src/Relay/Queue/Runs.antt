-- ===== src/Relay/Queue/Runs.antt =====
-- A queue with three packets, and the theorems at it.
use relaymeshnet.Base.{ℕ, ◌+◌, ◌≡◌, refl, arith, List, [], ◌∷◌, ◌++◌}
use relaymeshnet.Base.{length, ◌==◌, if◌then◌else◌}
use relaymeshnet.Relay.Queue.{Packet, Queue, ok, new_queue, find_slot}
use relaymeshnet.Relay.Queue.{stamp, push, priority_high, priority_normal, priority_low}
use relaymeshnet.Relay.Queue.Lanes.{Behaves, run_answers, new_queue-Behaves}
use relaymeshnet.Relay.Queue.Order.{class}
use relaymeshnet.Relay.Queue.Laws.{IsValid, push-class}
use relaymeshnet.Relay.Queue.Laws.{pushes, pops}

abbrev toy_hash : List ℕ → List ℕ
toy_hash xs = 1 ∷ xs

abbrev packet : ℕ → ℕ → Packet
packet n priority = record {
  id = toy_hash (n ∷ []);
  from = [];
  to = [];
  body = n ∷ [];
  priority = priority;
  created_at = 5;
  acks = [];
}

abbrev full : Queue
full = record { packets = packet 1 priority_high ∷ packet 2 priority_low ∷ []; max_size = 2 }

abbrev roomy : Queue
roomy = record full { max_size = 9 }

roomy-IsValid : IsValid roomy
roomy-IsValid = record { ordered = omega arith; bounded = omega arith }

abbrev pushed : Queue
pushed = record roomy {
  packets = packet 1 priority_high ∷ packet 3 priority_normal ∷ packet 2 priority_low ∷ [];
}

push_between : push toy_hash 5 (packet 3 priority_normal) roomy ≡ ok pushed
unfolding push find_slot
push_between = refl

push-class_example :
    IsValid pushed
    × (length pushed.packets ≡ length roomy.packets + 1)
    × ((p : ℕ)
        → class p pushed.packets
          ≡ class p roomy.packets
            ++ (if priority_normal == p
                then stamp toy_hash 5 (packet 3 priority_normal) ∷ []
                else []))
push-class_example =
    push-class toy_hash 5 (packet 3 priority_normal) roomy pushed roomy-IsValid push_between

new_queue-Behaves_example :
    Behaves toy_hash
      (record { lane = λ p. []; held = 0; room = 2 })
      (pushes 5 (packet 2 priority_low) ∷ pops ∷ [])
      (run_answers toy_hash (pushes 5 (packet 2 priority_low) ∷ pops ∷ []) (new_queue 2))
new_queue-Behaves_example =
    new_queue-Behaves toy_hash (pushes 5 (packet 2 priority_low) ∷ pops ∷ []) 2
