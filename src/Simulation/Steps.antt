-- ===== src/Simulation/Steps.antt =====
-- World.RunSteps of simulation/world.go.
pub mod Quiet
pub mod Invariant
pub mod Draining
pub mod Marking
pub mod Stepping
pub mod Reach
use relaymeshnet.Base.{ℕ, zero, suc, ◌+◌, ◌-◌, ◌*◌, ◌%◌, Bool, true, false, ◌&&◌, ◌||◌, not}
use relaymeshnet.Base.{List, [], ◌∷◌, Option, none, some, length, get_or}
use relaymeshnet.Base.{ltb, leb, ◌==◌, bytes_eq, if◌then◌else◌}
use relaymeshnet.Base.Float.{Float}
use relaymeshnet.Simulation.Schedule.{is_online, should_send, schedule_next_send}
use relaymeshnet.Simulation.Node.{Node, available, credit_limit}
use relaymeshnet.Simulation.Node
use relaymeshnet.Simulation.World.{
  World, MsgType, msg_text, msg_file, is_file, write, all_nodes, online_nodes,
}
use relaymeshnet.Simulation.Path.{find_path}
use relaymeshnet.Simulation.Flight.{deliver_messages}
use relaymeshnet.Simulation.Collision.{check_collisions}
use relaymeshnet.Simulation.Scenario.{change_statuses}
use relaymeshnet.Simulation.Sending.{SendDraws}
use relaymeshnet.Simulation.Dispatch.{send_and_post}

module _ (float : Float) (hash : List ℕ → List ℕ) where
  -- What one node draws when it sends.
  pub record TrafficDraws : Type 0 where
    pub target_intn : ℕ → ℕ → ℕ
    pub path_intn : ℕ → ℕ → ℕ
    pub text_intn : ℕ → ℕ
    pub file_draw : float.F
    pub file_intn : ℕ → ℕ
    pub cost_intn : ℕ → ℕ
    pub send : SendDraws float hash
    pub next_intn : ℕ → ℕ

  -- The attempts from `i` on, `k` of them left.
  unfoldable pub pick_target : TrafficDraws → World float → ℕ → List ℕ → ℕ → ℕ → Option ℕ
  unfolding find_path
  pick_target d w p online i zero = none
  pick_target d w p online i (suc k) =
      let target = get_or online (d.target_intn i (length online)) p in
      let rest = pick_target d w p online (suc i) k in
      if not (bytes_eq (w.store target).id (w.store p).id)
        && leb 2 (length (find_path float hash (d.path_intn i) w p target online))
      then some target
      else rest

  unfoldable pub choose_size : TrafficDraws → World float → ℕ → ℕ → List ℕ → MsgType × ℕ
  unfolding find_path available credit_limit
  choose_size d w p target online =
      let n = w.store p in
      let file_size = 10000 + d.file_intn 40000 in
      let rc = length (find_path float hash d.cost_intn w p target online) - 2 in
      let cost =
        float.times (float.over (float.of_nat (rc * file_size)) (float.ratio 1024 1))
          w.config.send_cost in
      if float.less d.file_draw (float.ratio 15 100)
        && (float.greater_eq (available float n) cost
            || float.greater_eq (float.minus n.balance cost) (float.negate (credit_limit float n)))
      then (msg_file, file_size)
      else (msg_text, 100 + d.text_intn 400)

  abbrev pub plan_send : (ℕ → ℕ) → ℕ → World float → World float
  plan_send intn p w =
      write float p (λ n. record n { schedule = schedule_next_send intn w.tick n.schedule }) w

  unfoldable pub traffic_at : TrafficDraws → ℕ → List ℕ → World float → World float
  unfolding should_send pick_target choose_size send_and_post schedule_next_send
  traffic_at d p online w =
      if not (should_send w.tick (w.store p).schedule)
      then w
      else elim (pick_target d w p online 0 20) [
        | none ↦ plan_send d.next_intn p w
        | some target ↦
            let (kind, size) = choose_size d w p target online in
            plan_send d.next_intn p
              (send_and_post float hash (is_file kind) d.send w p target kind size online).0
      ]

  unfoldable pub traffic : (ℕ → TrafficDraws) → List ℕ → List ℕ → World float → World float
  unfolding traffic_at
  traffic draws [] online w = w
  traffic draws (p ∷ ps) online w = traffic draws ps online (traffic_at (draws p) p online w)

  pub record TransferDraws : Type 0 where
    pub starts : float.F
    pub payee_intn : ℕ → ℕ → ℕ
    pub share : float.F
    pub route_intn : ℕ → ℕ

  unfoldable pub pick_payee : TransferDraws → World float → ℕ → List ℕ → ℕ → ℕ → Option ℕ
  pick_payee d w p online i zero = none
  pick_payee d w p online i (suc k) =
      let target = get_or online (d.payee_intn i (length online)) p in
      let rest = pick_payee d w p online (suc i) k in
      if not (bytes_eq (w.store target).id (w.store p).id)
        && float.less (w.store target).balance (float.ratio 10 1)
      then some target
      else rest

  unfoldable pub move_balance : ℕ → ℕ → float.F → World float → World float
  move_balance p target amount w =
      let paid = write float p (λ n. record n { balance = float.minus n.balance amount }) w in
      record (write float target (λ n. record n { balance = float.plus n.balance amount }) paid) {
        total_transfers = w.total_transfers + 1;
      }

  unfoldable pub transfer : TransferDraws → ℕ → ℕ → List ℕ → World float → World float
  unfolding find_path move_balance
  transfer d p target online w =
      let amount =
        float.times (w.store p).balance
          (float.plus (float.ratio 1 10) (float.times d.share (float.ratio 2 10))) in
      if float.less amount (float.ratio 1 1)
        || ltb (length (find_path float hash d.route_intn w p target online)) 2
      then w
      else move_balance p target amount w

  unfoldable pub transfer_at : TransferDraws → ℕ → List ℕ → World float → World float
  unfolding pick_payee transfer
  transfer_at d p online w =
      if float.less (float.ratio 50 1) (w.store p).balance && float.less d.starts (float.ratio 1 10)
      then elim (pick_payee d w p online 0 10) [
        | none ↦ w
        | some target ↦ transfer d p target online w
      ]
      else w

  unfoldable pub transfers : (ℕ → TransferDraws) → List ℕ → List ℕ → World float → World float
  unfolding transfer_at
  transfers draws [] online w = w
  transfers draws (p ∷ ps) online w = transfers draws ps online (transfer_at (draws p) p online w)

  -- What one step draws, by the node.
  pub record StepDraws : Type 0 where
    pub status_intn : ℕ → ℕ → ℕ
    pub traffic_draws : ℕ → TrafficDraws
    pub transfer_draws : ℕ → TransferDraws

  unfoldable pub run_step : StepDraws → World float → World float
  unfolding check_collisions change_statuses deliver_messages online_nodes traffic transfers
  run_step d w =
      let checked = check_collisions float (record w { tick = w.tick + 1 }) in
      let moved = deliver_messages float hash (change_statuses float d.status_intn checked) in
      let online = online_nodes float moved in
      let w' = traffic d.traffic_draws online online moved in
      if w'.tick % 6000 == 0 then transfers d.transfer_draws online online w' else w'

  unfoldable pub tick_all : List ℕ → World float → World float
  unfolding Node.tick
  tick_all [] w = w
  tick_all (p ∷ ps) w = tick_all ps (
      if is_online (w.store p).schedule.status
      then write float p (Node.tick float w.config) w
      else w)

  abbrev pub repeat : ℕ → (ℕ → World float → World float) → World float → World float
  repeat zero f w = w
  repeat (suc n) f w = repeat n f (f n w)

  unfoldable pub run_steps : (ℕ → StepDraws) → ℕ → World float → World float
  unfolding run_step tick_all all_nodes
  run_steps draws n w =
      let steps = if ltb n 1 then 1 else n in
      repeat steps (λ s. run_step (draws s)) (repeat steps (λ s. tick_all (all_nodes float w)) w)
