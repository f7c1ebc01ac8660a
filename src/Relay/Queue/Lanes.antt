-- ===== src/Relay/Queue/Lanes.antt =====
-- What a client sees of `Queue`: a bounded set of lanes, one for each priority, each first come first
-- served. The queue's one sorted list refines it.
use relaymeshnet.Base.{ℕ, ◌+◌, ◌≤◌, ◌<◌, ◌≡◌, refl, sym, ap, subst, arith, inl, inr}
use relaymeshnet.Base.{List, [], ◌∷◌, ◌++◌, Option, none, some}
use relaymeshnet.Base.{length, ◌==◌, if◌then◌else◌, All}
use relaymeshnet.Relay.Queue.{Packet, Queue, Result, ok, queue_full, new_queue, stamp, push, pop}
use relaymeshnet.Relay.Queue.Order.{class}
use relaymeshnet.Relay.Queue.Laws.{
  IsValid, push-queue_full, push_ok, push-class, step, step-IsValid, Call, pushes, pops,
}
use relaymeshnet.Relay.Queue.Laws.{Result-cases}

pub record Lanes : Type 0 where
  pub lane : ℕ → List Packet
  pub held : ℕ
  pub room : ℕ

pub data Answer : Type 0 where
  accepted refused : Answer
  served : Option Packet → Answer

-- The abstract machine. A push that finds room goes to the end of its lane; a pop takes the first
-- packet of the most urgent lane that has one.
pub data Step (hash : List ℕ → List ℕ) (s : Lanes) : Call → Answer → Lanes → Type 0 where
  refuses : (now : ℕ) (pkt : Packet) → s.room ≤ s.held → Step hash s (pushes now pkt) refused s
  accepts :
      (now : ℕ) (pkt : Packet) (s' : Lanes)
      → s.held < s.room
      → s'.held ≡ s.held + 1
      → s'.room ≡ s.room
      → ((p : ℕ)
          → s'.lane p ≡ s.lane p ++ (if pkt.priority == p then stamp hash now pkt ∷ [] else []))
      → Step hash s (pushes now pkt) accepted s'
  finds_nothing : ((p : ℕ) → s.lane p ≡ []) → Step hash s pops (served none) s
  serves :
      (pkt : Packet) (s' : Lanes)
      → s.held ≡ s'.held + 1
      → s'.room ≡ s.room
      → ((p : ℕ) → p < pkt.priority → s.lane p ≡ [])
      → ((p : ℕ) → s.lane p ≡ (if pkt.priority == p then pkt ∷ [] else []) ++ s'.lane p)
      → Step hash s pops (served (some pkt)) s'

-- The answers that the machine can give to the calls.
pub data Behaves (hash : List ℕ → List ℕ) : Lanes → List Call → List Answer → Type 0 where
  ends : (s : Lanes) → Behaves hash s [] []
  goes :
      (s : Lanes) (c : Call) (a : Answer) (s' : Lanes) (cs : List Call) (answers : List Answer)
      → Step hash s c a s'
      → Behaves hash s' cs answers
      → Behaves hash s (c ∷ cs) (a ∷ answers)

abbrev pub lanes_of : Queue → Lanes
lanes_of q = record { lane = λ p. class p q.packets; held = length q.packets; room = q.max_size }

answer_push : Queue → Result Queue → Queue × Answer
answer_push q (ok q') = (q', accepted)
answer_push q queue_full = (q, refused)

-- A call of the queue with its answer.
unfoldable pub call : (List ℕ → List ℕ) → Call → Queue → Queue × Answer
unfolding answer_push
call hash (pushes now pkt) q = answer_push q (push hash now pkt q)
call hash pops q = ((pop q).0, served (pop q).1)

unfoldable pub run_answers : (List ℕ → List ℕ) → List Call → Queue → List Answer
unfolding call
run_answers hash [] q = []
run_answers hash (c ∷ cs) q = (call hash c q).1 ∷ run_answers hash cs (call hash c q).0

class-below : (c p : ℕ) (xs : List Packet) → All (λ r. c ≤ r.priority) xs → p < c → class p xs ≡ []
class-below c p [] h lt = refl
class-below c p (x ∷ xs) h lt = ground (arith, h, lt, class-below c p xs h.1 lt)

module _ (hash : List ℕ → List ℕ) where
  pop-Step :
      (xs : List Packet) (m : ℕ)
      → let q : Queue = record { packets = xs; max_size = m } in
        IsValid q → Step hash (lanes_of q) pops (served (pop q).1) (lanes_of (pop q).0)
  unfolding pop
  pop-Step [] m v = finds_nothing (λ p. refl)
  pop-Step (pkt ∷ rest) m v =
      serves pkt _ (omega arith) refl
        (λ p lt. class-below pkt.priority p (pkt ∷ rest) (omega arith, v.ordered.0) lt)
        (λ p. ground arith)

  call-Step :
      (c : Call) (q : Queue)
      → IsValid q
      → Step hash (lanes_of q) c (call hash c q).1 (lanes_of (call hash c q).0)
  unfolding call
  call-Step (pushes now pkt) q v = elim (Result-cases (push hash now pkt q)) [
    | inl full ↦ rw full (refuses now pkt ((push-queue_full hash now pkt q).0 full))
    | inr (q', done) ↦
        let (room, made) = push_ok hash now pkt q q' done in
        let (_, longer, behind) = push-class hash now pkt q q' v done in
        rw done (accepts now pkt _ room longer (ap (λ r. r.max_size) made) behind)
  ]
  call-Step pops q v = pop-Step q.packets q.max_size v

  call-step : (c : Call) (q : Queue) → (call hash c q).0 ≡ step hash c q
  unfolding call step
  call-step (pushes now pkt) q = elim (Result-cases (push hash now pkt q)) [
    | inl full ↦ rw full refl
    | inr (q', done) ↦ rw done refl
  ]
  call-step pops q = refl

  run_answers-Behaves :
      (cs : List Call) (q : Queue)
      → IsValid q
      → Behaves hash (lanes_of q) cs (run_answers hash cs q)
  unfolding run_answers
  run_answers-Behaves [] q v = ends _
  run_answers-Behaves (c ∷ cs) q v =
      goes _ c _ (lanes_of (call hash c q).0) cs _ (call-Step c q v) (
        run_answers-Behaves cs (call hash c q).0
          (subst IsValid (sym (call-step c q)) (step-IsValid hash c q v)))

  -- Whatever calls a client makes on a new queue, the answers are ones that the lanes can give: a push
  -- is refused only when the queue holds its maximum, and a pop serves the oldest packet of the most
  -- urgent priority that has one, or nothing when there is none.
  pub new_queue-Behaves :
      (cs : List Call) (m : ℕ)
      → Behaves hash
          (record { lane = λ p. []; held = 0; room = m })
          cs
          (run_answers hash cs (new_queue m))
  unfolding new_queue
  new_queue-Behaves cs m =
      run_answers-Behaves cs (record { packets = []; max_size = m })
        (record { ordered = tt; bounded = omega arith })
