-- ===== src/Relay/Queue.antt =====
-- `Queue` of pkg/relay/queue.go. SHA-256 is the parameter `hash`, the clock's reading the argument
-- `now`. A packet is a value: the queue's pointers are shared with nobody who writes. Each method
-- holds the mutex throughout. The proofs are in the modules below.
pub mod Order
pub mod Laws
pub mod Lanes
mod Runs
use relaymeshnet.Base.{ℕ, suc, ◌+◌, Bool, List, [], ◌∷◌, ◌++◌, Option, none, some}
use relaymeshnet.Base.{length, take, drop, set, ltb, leb, ◌==◌, if◌then◌else◌}

abbrev pub priority_high : ℕ
priority_high = 0

abbrev pub priority_normal : ℕ
priority_normal = 1

abbrev pub priority_low : ℕ
priority_low = 2

-- `body` is the field Data.
pub record Packet : Type 0 where
  pub id : List ℕ
  pub from : List ℕ
  pub to : List ℕ
  pub body : List ℕ
  pub priority : ℕ
  pub created_at : ℕ
  pub acks : List Bool

pub record Queue : Type 0 where
  pub packets : List Packet
  pub max_size : ℕ

pub data Result {ℓ} (A : Type ℓ) : Type ℓ where
  ok : A → Result A
  queue_full : Result A

unfoldable pub new_queue : ℕ → Queue
new_queue max_size = record { packets = []; max_size = max_size }

-- The loop of `Push`: the index of the first packet that is less urgent. `i` is the loop's index.
unfoldable pub find_slot : ℕ → Packet → List Packet → Option ℕ
find_slot i pkt [] = none
find_slot i pkt (existing ∷ rest) =
    if ltb pkt.priority existing.priority then some i else find_slot (suc i) pkt rest

-- The slot is opened by `append(q.packets[:i+1], q.packets[i:]...)`, which copies the packet at `i`
-- to `i + 1`, and is then overwritten.
unfoldable pub insert_packet : Packet → List Packet → List Packet
unfolding find_slot
insert_packet pkt packets = elim (find_slot 0 pkt packets) [
  | some i ↦ set (take (suc i) packets ++ drop i packets) i pkt
  | none ↦ packets ++ pkt ∷ []
]

-- The packet that the queue takes in, with the fields that `Push` sets.
unfoldable pub stamp : (List ℕ → List ℕ) → ℕ → Packet → Packet
stamp hash now pkt = record pkt { id = hash pkt.body; created_at = now }

unfoldable pub push : (List ℕ → List ℕ) → ℕ → Packet → Queue → Result Queue
unfolding stamp insert_packet
push hash now pkt q =
    if leb q.max_size (length q.packets)
    then queue_full
    else ok (record q { packets = insert_packet (stamp hash now pkt) q.packets })

pop_front : List Packet → Queue → Queue × Option Packet
pop_front [] q = (q, none)
pop_front (pkt ∷ rest) q = (record q { packets = rest }, some pkt)

-- `none` is the nil packet of an empty queue.
unfoldable pub pop : Queue → Queue × Option Packet
unfolding pop_front
pop q = pop_front q.packets q

unfoldable pub len : Queue → ℕ
len q = length q.packets

unfoldable pub is_empty : Queue → Bool
unfolding len
is_empty q = len q == 0
