-- ===== src/Simulation/Scenario.antt =====
-- The calls of simulation/world.go that switch nodes on and off: ToggleNode, SetJamming, Partition,
-- SpawnSybil, SetDayNight, and the part of RunSteps that changes statuses.
pub mod Marks
pub mod Switching
pub mod Regions
use relaymeshnet.Base.{
  ℕ, zero, suc, ◌+◌, ◌-◌, ◌%◌, Bool, true, false, List, [], ◌∷◌, Option, none, some,
}
use relaymeshnet.Base.{length, ltb, ◌==◌, set, get_or, if◌then◌else◌}
use relaymeshnet.Base.Int.{ℤ, pos, negsuc}
use relaymeshnet.Base.Float.{Float}
use relaymeshnet.Simulation.Config.{Config}
use relaymeshnet.Simulation.Schedule.{
  status_online, status_offline, is_online, is_unstable, profile_chatter,
}
use relaymeshnet.Simulation.Schedule.{
  schedule_next_send, schedule_next_status, should_change_status,
}
use relaymeshnet.Simulation.Node.{Node, new_node, minus_one, update_reputation}
use relaymeshnet.Simulation.World.{World, write, allocate, node_at, all_nodes}

module _ (float : Float) where
  -- What `NewNode` draws, the text of the id included.
  pub record Draws : Type 0 where
    pub id : List ℕ
    pub profile_draw : float.F
    pub send_intn : ℕ → ℕ
    pub status_intn : ℕ → ℕ
    pub status_draw : float.F

  unfoldable pub drawn_node : Draws → ℕ → ℕ → Node float
  unfolding new_node
  drawn_node d x y = new_node float d.id d.profile_draw d.send_intn d.status_intn d.status_draw x y

  abbrev pub go_offline : ℕ → Node float → Node float
  go_offline t n = record n {
    schedule = record n.schedule { status = status_offline };
    offline_since = pos t;
  }

  abbrev pub go_online : Node float → Node float
  go_online n = record n {
    schedule = record n.schedule { status = status_online };
    offline_since = minus_one;
  }

  unfoldable pub toggle : (ℕ → ℕ) → ℕ → Node float → Node float
  unfolding schedule_next_send schedule_next_status
  toggle intn t n =
      let awake = go_online n in
      if is_online n.schedule.status then go_offline t n else record awake {
        schedule = schedule_next_status intn t (schedule_next_send intn t awake.schedule);
      }

  unfoldable pub toggle_node : (ℕ → ℕ) → ℤ → ℤ → World float → World float
  unfolding node_at toggle
  toggle_node intn x y w = elim (node_at float w x y) [
    | none ↦ w
    | some p ↦ write float p (toggle intn w.tick) w
  ]

  unfoldable pub set_jamming : List (ℕ × ℕ) → World float → World float
  set_jamming cells w = record w {
    config = record w.config { jamming_enabled = ltb 0 (length cells); jamming_cells = cells };
  }

  unfoldable pub switch : Bool → ℕ → Node float → Node float
  switch blocked t n = if blocked then go_offline t n else go_online n

  -- `count` cells of the row `y`, from column `x` on. A corner below 0 is cut off by `NodeAt`.
  unfoldable pub partition_row : Bool → ℕ → ℕ → ℕ → World float → World float
  unfolding node_at switch
  partition_row blocked y x zero w = w
  partition_row blocked y x (suc count) w =
      let w' : World float = elim (node_at float w (pos x) (pos y)) [
        | none ↦ w
        | some p ↦ write float p (switch blocked w.tick) w
      ] in
      partition_row blocked y (suc x) count w'

  unfoldable pub partition_rows : Bool → ℕ → ℕ → ℕ → ℕ → World float → World float
  unfolding partition_row
  partition_rows blocked x width y zero w = w
  partition_rows blocked x width y (suc count) w =
      partition_rows blocked x width (suc y) count (partition_row blocked y x width w)

  -- The nodes of one rectangle are switched, where the source's comments speak of the links between
  -- two. The corners are not below 0.
  unfoldable pub partition : ℕ → ℕ → ℕ → ℕ → Bool → World float → World float
  unfolding partition_rows
  partition x1 y1 x2 y2 blocked w = partition_rows blocked x1 (suc x2 - x1) y1 (suc y2 - y1) w

  -- `w.Nodes[y][x] = n`; the cell is one of the grid, since it is drawn below its sizes.
  unfoldable pub place : ℕ → ℕ → ℕ → World float → World float
  place x y p w = record w { grid = set w.grid y (set (get_or w.grid y []) x p) }

  unfoldable pub sybil : Draws → ℕ → ℕ → Node float
  unfolding drawn_node
  sybil d x y =
      let n = drawn_node d x y in
      let zero_float = float.ratio 0 1 in
      record n {
        reputation = zero_float;
        balance = zero_float;
        schedule = record n.schedule { status = status_online; profile = profile_chatter };
      }

  -- One entry for each node: its cell and what it draws.
  unfoldable pub spawn_sybil : List ((ℕ × ℕ) × Draws) → World float → World float
  unfolding allocate sybil place
  spawn_sybil [] w = w
  spawn_sybil (((x, y), d) ∷ draws) w =
      let w' = allocate float (sybil d x y) w in spawn_sybil draws (place x y w.allocated w')

  unfoldable pub day_night : float.F → float.F → ℕ → Node float → Node float
  day_night draw online_prob t n =
      if is_unstable n.schedule.profile
      then n
      else (if float.less online_prob draw
          then (if is_online n.schedule.status then go_offline t n else n)
          else (if is_online n.schedule.status then n else go_online n))

  abbrev pub for_each : (ℕ → Node float → Node float) → List ℕ → World float → World float
  for_each f [] w = w
  for_each f (p ∷ ps) w = for_each f ps (write float p (f p) w)

  -- `draw p` is what `rand.Float64()` gives at the node `p`.
  unfoldable pub set_day_night : (ℕ → float.F) → float.F → World float → World float
  unfolding all_nodes day_night
  set_day_night draw online_prob w =
      for_each (λ p. day_night (draw p) online_prob w.tick) (all_nodes float w) w

  abbrev pub flip_status : (ℕ → ℕ) → ℕ → Node float → Node float
  flip_status intn t n =
      let awake = go_online n in
      if is_online n.schedule.status
      then go_offline t n
      else record awake { schedule = schedule_next_send intn t awake.schedule }

  unfoldable pub change_status : (ℕ → ℕ) → ℕ → Node float → Node float
  unfolding update_reputation schedule_next_status should_change_status
  change_status intn t n =
      let m = if t % 300 == 0 then update_reputation float n else n in
      let flipped = flip_status intn t m in
      if should_change_status t m.schedule
      then record flipped { schedule = schedule_next_status intn t flipped.schedule }
      else m

  -- The statuses of one step of `RunSteps`, whose tick `w.Tick` already is.
  unfoldable pub change_statuses : (ℕ → ℕ → ℕ) → World float → World float
  unfolding all_nodes change_status
  change_statuses intn w = for_each (λ p. change_status (intn p) w.tick) (all_nodes float w) w
