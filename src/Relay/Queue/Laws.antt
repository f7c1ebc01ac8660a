-- ===== src/Relay/Queue/Laws.antt =====
-- `Push` and `Pop` refine one first-come-first-served list for each priority, on every history.
use relaymeshnet.Base.{ℕ, ◌+◌, ◌≤◌, ◌<◌, ◌≡◌, ◌↔◌, refl, arith, ◌⊎◌, inl, inr}
use relaymeshnet.Base.{List, [], ◌∷◌, ◌++◌, Option, none, some}
use relaymeshnet.Base.{length, ◌==◌, if◌then◌else◌, All}
use relaymeshnet.Relay.Queue.{Packet, Queue, Result, ok, queue_full, new_queue, stamp, push, pop}
use relaymeshnet.Relay.Queue.Order.{IsOrdered, class, place, insert_packet-place, place-IsOrdered}
use relaymeshnet.Relay.Queue.Order.{class-place, length-place}

pub record IsValid (q : Queue) : Type 0 where
  pub ordered : IsOrdered q.packets
  pub bounded : length q.packets ≤ q.max_size

module _ (hash : List ℕ → List ℕ) (now : ℕ) (pkt : Packet) (q : Queue) where
  -- `Push` returns ErrQueueFull exactly when the queue holds its maximum.
  pub push-queue_full : (push hash now pkt q ≡ queue_full) ↔ (q.max_size ≤ length q.packets)
  unfolding push
  push-queue_full = ((λ h. ground arith), (λ h. ground arith))

  pub push_ok :
      (q' : Queue)
      → push hash now pkt q ≡ ok q'
      → (length q.packets < q.max_size)
        × (q' ≡ record q { packets = place (stamp hash now pkt) q.packets })
  unfolding push
  push_ok q' h = ground (arith, insert_packet-place (stamp hash now pkt) q.packets)

  -- A successful `Push` keeps the queue valid, lengthens it by one, and puts the stamped packet
  -- behind the packets of its priority: the packets of every priority are as before, in the same
  -- order, with the new one at the end of its own.
  pub push-class :
      (q' : Queue)
      → IsValid q
      → push hash now pkt q ≡ ok q'
      → IsValid q'
        × (length q'.packets ≡ length q.packets + 1)
        × ((p : ℕ)
            → class p q'.packets
              ≡ class p q.packets ++ (if pkt.priority == p then stamp hash now pkt ∷ [] else []))
  push-class q' v h =
      let (room, e) = push_ok q' h in
      let new = stamp hash now pkt in
      rw e (
        record {
          ordered = place-IsOrdered new q.packets v.ordered;
          bounded = omega (arith, length-place new q.packets);
        },
        length-place new q.packets,
        λ p. unfold stamp in class-place p new q.packets v.ordered,
      )

-- What `Pop` does to a valid queue: nothing to an empty one. Otherwise the packet that it takes is at
-- least as urgent as all that stay, it was the first of its priority, and the packets of every other
-- priority are as before.
abbrev pub Pops : Queue → Queue × Option Packet → Type 0
Pops q r =
    ((q.packets ≡ []) × (r ≡ (q, none)))
    ⊎ ((pkt : Packet) × (q' : Queue) × (r ≡ (q', some pkt))
        × IsValid q'
        × All (λ r. pkt.priority ≤ r.priority) q'.packets
        × ((p : ℕ)
            → class p q.packets
              ≡ (if pkt.priority == p then pkt ∷ [] else []) ++ class p q'.packets))

pop_list :
    (xs : List Packet) (m : ℕ)
    → IsValid (record { packets = xs; max_size = m })
    → Pops (record { packets = xs; max_size = m }) (pop (record { packets = xs; max_size = m }))
unfolding pop
pop_list [] m v = inl (refl, refl)
pop_list (pkt ∷ rest) m v = inr (
  pkt,
  record { packets = rest; max_size = m },
  refl,
  record { ordered = v.ordered.1; bounded = omega (arith, v.bounded) },
  v.ordered.0,
  λ p. ground arith,
)

-- `Pop` on a sorted queue returns nil exactly when it is empty; otherwise it takes off the front packet,
-- which is the oldest of the most urgent priority, and keeps the rest of the queue in its order.
pub pop-class : (q : Queue) → IsValid q → Pops q (pop q)
pop-class q v = pop_list q.packets q.max_size v

-- A history of calls; a `Push` that fails leaves the queue as it was.
pub data Call : Type 0 where
  pushes : ℕ → Packet → Call
  pops : Call

abbrev after : Queue → Result Queue → Queue
after q (ok q') = q'
after q queue_full = q

module _ (hash : List ℕ → List ℕ) where
  unfoldable pub step : Call → Queue → Queue
  step (pushes now pkt) q = after q (push hash now pkt q)
  step pops q = (pop q).0

  unfoldable pub run : List Call → Queue → Queue
  run [] q = q
  run (c ∷ cs) q = run cs (step c q)

pub Result-cases : (r : Result Queue) → (r ≡ queue_full) ⊎ ((q : Queue) × (r ≡ ok q))
Result-cases (ok q) = inr (q, refl)
Result-cases queue_full = inl refl

module _ (hash : List ℕ → List ℕ) where
  pub step-IsValid : (c : Call) (q : Queue) → IsValid q → IsValid (step hash c q)
  unfolding step
  step-IsValid (pushes now pkt) q v = elim (Result-cases (push hash now pkt q)) [
    | inl full ↦ rw full v
    | inr (q', done) ↦ rw done (push-class hash now pkt q q' v done).0
  ]
  step-IsValid pops q v = elim (pop-class q v) [
    | inl (_, e) ↦ rw (e, step) v
    | inr (pkt, q', e, v', _, _) ↦ rw (e, step) v'
  ]

  run-IsValid : (cs : List Call) (q : Queue) → IsValid q → IsValid (run hash cs q)
  unfolding run
  run-IsValid [] q v = v
  run-IsValid (c ∷ cs) q v = run-IsValid cs (step hash c q) (step-IsValid c q v)

  -- After any calls on a new queue its packets are sorted by priority, and no more than its maximum.
  pub run-new_queue-IsValid : (cs : List Call) (m : ℕ) → IsValid (run hash cs (new_queue m))
  run-new_queue-IsValid cs m =
      run-IsValid cs _ (unfold new_queue in record { ordered = tt; bounded = omega arith })
