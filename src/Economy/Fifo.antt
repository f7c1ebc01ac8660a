-- ===== src/Economy/Fifo.antt =====
-- The relay queue is first in, first out, on every history of calls.
use relaymeshnet.Base.{ℕ, ◌≡◌, sym, ap, ◌∙◌, List, [], ◌∷◌, ◌++◌, Option, none, some}
use mathlib.Core.List.{append_assoc, append-nil}
use relaymeshnet.Economy.{RelayQueue, new_relay_queue, push, pop, pop_front}

pub data Call : Type 0 where
  pushes : List ℕ → Call
  pops : Call

-- The queue after the calls, and what the calls of `Pop` returned, the oldest first.
abbrev prepend : Option (List ℕ) → RelayQueue × List (List ℕ) → RelayQueue × List (List ℕ)
prepend none r = r
prepend (some packet) r = (r.0, packet ∷ r.1)

unfoldable pub run : List Call → RelayQueue → RelayQueue × List (List ℕ)
run [] q = (q, [])
run (pushes packet ∷ cs) q = run cs (push packet q)
run (pops ∷ cs) q = prepend (pop q).1 (run cs (pop q).0)

-- The packets that the calls push, in their order.
unfoldable pub pushed : List Call → List (List ℕ)
pushed [] = []
pushed (pushes packet ∷ cs) = packet ∷ pushed cs
pushed (pops ∷ cs) = pushed cs

run-packets :
    (cs : List Call) (packets : List (List ℕ))
    → let r = run cs (record { packets = packets }) in r.1 ++ r.0.packets ≡ packets ++ pushed cs
unfolding run pushed push pop pop_front
run-packets [] packets = sym (append-nil packets)
run-packets (pushes packet ∷ cs) packets =
    run-packets cs (packets ++ packet ∷ []) ∙ append_assoc packets (packet ∷ []) (pushed cs)
run-packets (pops ∷ cs) [] = run-packets cs []
run-packets (pops ∷ cs) (packet ∷ packets) = ap (λ xs. packet ∷ xs) (run-packets cs packets)

-- After any calls on a new queue, the packets that were popped and then those that are still there
-- are the packets that were pushed, in the order in which they were.
pub run-new_relay_queue :
    (cs : List Call) → (run cs new_relay_queue).1 ++ (run cs new_relay_queue).0.packets ≡ pushed cs
unfolding new_relay_queue
run-new_relay_queue cs = run-packets cs []
