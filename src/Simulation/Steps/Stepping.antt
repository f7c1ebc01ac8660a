-- ===== src/Simulation/Steps/Stepping.antt =====
-- The statuses and marks of all nodes through the steps.
use relaymeshnet.Base.{ℕ, zero, suc, ◌+◌, ◌%◌, ◌==◌, inl, inr}
use relaymeshnet.Base.{◌||◌, ltb, bytes_eq, Bool-cases, Option-cases, if◌then◌else◌}
use relaymeshnet.Base.{List, [], ◌∷◌, length}
use relaymeshnet.Base.Float.{Float}
use relaymeshnet.Simulation.Config.{Config}
use relaymeshnet.Simulation.Schedule.{is_online, should_send, schedule_next_send}
use relaymeshnet.Simulation.Node.{Node, tick, demur, reward_storage}
use relaymeshnet.Simulation.World.{
  World, ActiveMsg, Transmission, write, is_file, all_nodes, online_nodes,
}
use relaymeshnet.Simulation.Path.{peer_of, find_path}
use relaymeshnet.Simulation.Flight.{
  advance, count_received, receive, settle, count_message, deliver, deliver_messages,
}
use relaymeshnet.Simulation.Collision.{
  record_collision, strike, check_from, check_collisions, expired, first_collision,
}
use relaymeshnet.Simulation.Collision.{count_failed, collide_msg}
use relaymeshnet.Simulation.Scenario.{change_status, change_statuses}
use relaymeshnet.Simulation.Scenario.Marks.{IsMarked, change_status-IsMarked}
use relaymeshnet.Simulation.Scenario.Switching.{AllMarked, write-AllMarked, for_each-AllMarked}
use relaymeshnet.Simulation.Steps.{
  TrafficDraws, TransferDraws, StepDraws, pick_target, choose_size, plan_send,
}
use relaymeshnet.Simulation.Steps.{
  traffic_at, traffic, pick_payee, move_balance, transfer, transfer_at, transfers,
}
use relaymeshnet.Simulation.Steps.{run_step, tick_all, run_steps, repeat}
use relaymeshnet.Simulation.Steps.Quiet.{either}
use relaymeshnet.Simulation.Steps.Marking.{Marked, send_and_post-Marked}

module _ (float : Float) (hash : List ℕ → List ℕ) where
  traffic_at-Marked :
      (d : TrafficDraws float hash) (p : ℕ) (online : List ℕ) (w : World float)
      → Marked float hash w
      → Marked float hash (traffic_at float hash d p online w)
  unfolding traffic_at schedule_next_send
  traffic_at-Marked d p online w h =
      let planned : (v : World float)
          → Marked float hash v
          → Marked float hash (plan_send float hash d.next_intn p v) =
        λ v k. record {
          marks =
              write-AllMarked float p
                (λ n. record n { schedule = schedule_next_send d.next_intn v.tick n.schedule }) v
                (λ n m. m) k.marks;
        } in
      elim (Bool-cases (should_send w.tick (w.store p).schedule)) [
        | inr e ↦ rw (traffic_at, e) h
        | inl e ↦ elim (Option-cases (pick_target float hash d w p online 0 20)) [
          | inl n ↦ rw (traffic_at, e, n) (planned w h)
          | inr (target, n) ↦
              let (kind, size) = choose_size float hash d w p target online in
              rw (traffic_at, e, n)
                (planned _ (
                  send_and_post-Marked float hash (is_file kind) d.send w p target kind size online
                    h))
        ]
      ]

  traffic-Marked :
      (draws : ℕ → TrafficDraws float hash) (ps online : List ℕ) (w : World float)
      → Marked float hash w
      → Marked float hash (traffic float hash draws ps online w)
  unfolding traffic
  traffic-Marked draws [] online w h = h
  traffic-Marked draws (p ∷ ps) online w h =
      traffic-Marked draws ps online _ (traffic_at-Marked (draws p) p online w h)

  strike-Marked :
      (tx : Transmission) (txs : List Transmission) (v : World float)
      → Marked float hash v
      → Marked float hash (strike float tx txs v).0
  unfolding strike record_collision
  strike-Marked tx txs v k = elim (Bool-cases (expired float v tx)) [
    | inl e ↦ rw (strike, e) k
    | inr e ↦ elim (Option-cases (first_collision float v tx txs)) [
      | inl n ↦ rw (strike, e, n) k
      | inr (tx2, n) ↦
          let w1 = write float tx.from_node (count_failed float) v in
          let w2 = write float tx2.from_node (count_failed float) w1 in
          rw (strike, e, n)
            (record {
              marks =
                  write-AllMarked float tx2.from_node (collide_msg float) w2 (λ m j. j)
                    (write-AllMarked float tx2.from_node (count_failed float) w1 (λ m j. j)
                      (write-AllMarked float tx.from_node (count_failed float) v (λ m j. j)
                        k.marks));
            })
    ]
  ]

  check_from-Marked :
      (txs : List Transmission) (v : World float)
      → Marked float hash v
      → Marked float hash (check_from float txs v).0
  unfolding check_from
  check_from-Marked [] v k = k
  check_from-Marked (tx ∷ txs) v k = check_from-Marked txs _ (strike-Marked tx txs v k)

  check_collisions-Marked :
      (w : World float) → Marked float hash w → Marked float hash (check_collisions float w)
  unfolding check_collisions
  check_collisions-Marked w h = record {
    marks = (check_from-Marked w.active_transmissions w h).marks;
  }

  receive-Marked :
      (msg : ActiveMsg) (ps : List ℕ) (w : World float)
      → Marked float hash w
      → Marked float hash (receive float hash msg ps w)
  unfolding receive count_received
  receive-Marked msg [] w h = h
  receive-Marked msg (p ∷ ps) w h = elim (Bool-cases (bytes_eq (peer_of float hash w p) msg.to)) [
    | inl found ↦
        rw (receive, found)
          (record {
            marks =
                write-AllMarked float p (count_received float hash msg.msg_type) w (λ n k. k)
                  h.marks;
          })
    | inr other ↦ rw (receive, other) (receive-Marked msg ps w h)
  ]

  settle-Marked :
      (all : List ℕ) (msg : ActiveMsg) (w : World float)
      → Marked float hash w
      → Marked float hash (settle float hash all msg w)
  unfolding settle
  settle-Marked all msg w h = either (Marked float hash) msg.collided w _ h (
      either (Marked float hash) ((advance msg).remaining == 0)
        (count_message float hash (receive float hash (advance msg) all w)) w
        (record { marks = (receive-Marked (advance msg) all w h).marks }) h)

  deliver-Marked :
      (all : List ℕ) (msgs : List ActiveMsg) (w : World float)
      → Marked float hash w
      → Marked float hash (deliver float hash all msgs w).0
  unfolding deliver
  deliver-Marked all [] w h = h
  deliver-Marked all (msg ∷ msgs) w h =
      deliver-Marked all msgs (settle float hash all msg w) (settle-Marked all msg w h)

  move_balance-Marked :
      (p target : ℕ) (amount : float.F) (w : World float)
      → Marked float hash w
      → Marked float hash (move_balance float hash p target amount w)
  unfolding move_balance
  move_balance-Marked p target amount w h = record {
    marks = λ q. elim (Bool-cases (q == p)) [
      | inl paying ↦ elim (Bool-cases (q == target)) [
        | inl both ↦ rw (paying, both) (h.marks q)
        | inr one ↦ rw (paying, one) (h.marks q)
      ]
      | inr other ↦ elim (Bool-cases (q == target)) [
        | inl paid ↦ rw (other, paid) (h.marks q)
        | inr neither ↦ rw (other, neither) (h.marks q)
      ]
    ];
  }

  transfer-Marked :
      (d : TransferDraws float hash) (p target : ℕ) (online : List ℕ) (w : World float)
      → Marked float hash w
      → Marked float hash (transfer float hash d p target online w)
  unfolding transfer
  transfer-Marked d p target online w h =
      let amount =
        float.times (w.store p).balance
          (float.plus (float.ratio 1 10) (float.times d.share (float.ratio 2 10))) in
      either (Marked float hash)
        (float.less amount (float.ratio 1 1)
          || ltb (length (find_path float hash d.route_intn w p target online)) 2)
        w (move_balance float hash p target amount w) h (move_balance-Marked p target amount w h)

  transfer_at-Marked :
      (d : TransferDraws float hash) (p : ℕ) (online : List ℕ) (w : World float)
      → Marked float hash w
      → Marked float hash (transfer_at float hash d p online w)
  unfolding transfer_at
  transfer_at-Marked d p online w h =
      elim (Option-cases (pick_payee float hash d w p online 0 10)) [
        | inl n ↦ rw (transfer_at, n) (either (Marked float hash) _ w w h h)
        | inr (target, n) ↦
            rw (transfer_at, n)
              (either (Marked float hash) _ (transfer float hash d p target online w) w
                (transfer-Marked d p target online w h) h)
      ]

  transfers-Marked :
      (draws : ℕ → TransferDraws float hash) (ps online : List ℕ) (w : World float)
      → Marked float hash w
      → Marked float hash (transfers float hash draws ps online w)
  unfolding transfers
  transfers-Marked draws [] online w h = h
  transfers-Marked draws (p ∷ ps) online w h =
      transfers-Marked draws ps online _ (transfer_at-Marked (draws p) p online w h)

  tick-IsMarked :
      (cfg : Config float) (n : Node float) → IsMarked float n → IsMarked float (tick float cfg n)
  unfolding tick demur reward_storage
  tick-IsMarked cfg n h =
      either (IsMarked float) (is_online n.schedule.status) _ _
        (either (IsMarked float) (float.less (float.ratio 0 1) n.storage_bytes) _ _ h h) h

  tick_all-Marked :
      (ps : List ℕ) (w : World float)
      → Marked float hash w
      → Marked float hash (tick_all float hash ps w)
  unfolding tick_all
  tick_all-Marked [] w h = h
  tick_all-Marked (p ∷ ps) w h = tick_all-Marked ps _ (
      either (Marked float hash) (is_online (w.store p).schedule.status)
        (write float p (tick float w.config) w) w
        (record {
          marks =
              write-AllMarked float p (tick float w.config) w (λ n k. tick-IsMarked w.config n k)
                h.marks;
        })
        h)

  run_step-Marked :
      (d : StepDraws float hash) (w : World float)
      → Marked float hash w
      → Marked float hash (run_step float hash d w)
  unfolding run_step change_statuses deliver_messages
  run_step-Marked d w h =
      let begun : World float = record w { tick = w.tick + 1 } in
      let checked = check_collisions float begun in
      let changed = change_statuses float d.status_intn checked in
      let moved = deliver_messages float hash changed in
      let online = online_nodes float moved in
      let sent = traffic float hash d.traffic_draws online online moved in
      let clear : Marked float hash checked =
        check_collisions-Marked begun (record { marks = h.marks }) in
      let same : Marked float hash changed = record {
        marks =
            for_each-AllMarked float (λ p. change_status float (d.status_intn p) checked.tick)
              (all_nodes float checked) checked
              (λ p n. change_status-IsMarked float (d.status_intn p) checked.tick n) clear.marks;
      } in
      let left : Marked float hash moved = record {
        marks =
            (deliver-Marked (all_nodes float changed) changed.active_messages changed same).marks;
      } in
      let busy = traffic-Marked d.traffic_draws online online moved left in
      either (Marked float hash) (sent.tick % 6000 == 0)
        (transfers float hash d.transfer_draws online online sent) sent
        (transfers-Marked d.transfer_draws online online sent busy) busy

  repeat-Marked :
      (f : ℕ → World float → World float) (n : ℕ) (w : World float)
      → ((s : ℕ) (v : World float) → Marked float hash v → Marked float hash (f s v))
      → Marked float hash w
      → Marked float hash (repeat float hash n f w)
  repeat-Marked f zero w keeps h = h
  repeat-Marked f (suc n) w keeps h = repeat-Marked f n (f n w) keeps (keeps n w h)

  pub run_steps-AllMarked :
      (draws : ℕ → StepDraws float hash) (n : ℕ) (w : World float)
      → AllMarked float w
      → AllMarked float (run_steps float hash draws n w)
  unfolding run_steps
  run_steps-AllMarked draws n w h =
      let steps = if ltb n 1 then 1 else n in
      let all = all_nodes float w in
      (repeat-Marked (λ s. run_step float hash (draws s)) steps _
        (λ s v k. run_step-Marked (draws s) v k)
        (repeat-Marked (λ s. tick_all float hash all) steps w (λ s v k. tick_all-Marked all v k)
          (record { marks = h }))).marks
