-- ===== src/Simulation/Steps/Reach.antt =====
-- The worlds of the simulation, and that their nodes are marked.
use relaymeshnet.Base.{ℕ, suc, Bool, List}
use relaymeshnet.Base.{◌-◌}
use relaymeshnet.Base.Int.{ℤ}
use relaymeshnet.Base.Float.{Float}
use relaymeshnet.Simulation.Config.{Config}
use relaymeshnet.Simulation.World.{World, all_nodes, new_world}
use relaymeshnet.Simulation.Scenario.{Draws, drawn_node, toggle_node, set_jamming}
use relaymeshnet.Simulation.Scenario.{partition, spawn_sybil}
use relaymeshnet.Simulation.Scenario.{day_night, set_day_night}
use relaymeshnet.Simulation.Scenario.Marks.{drawn_node-IsMarked, day_night-IsMarked}
use relaymeshnet.Simulation.Scenario.Switching.{
  AllMarked, for_each-AllMarked, new_rows-AllMarked, toggle_node-AllMarked,
  partition_rows-AllMarked, spawn_sybil-AllMarked,
}
use relaymeshnet.Simulation.Steps.{StepDraws, run_steps}
use relaymeshnet.Simulation.Steps.Stepping.{run_steps-AllMarked}

module _ (float : Float) (hash : List ℕ → List ℕ) where
  -- The worlds that steps and scenario calls reach.
  pub data Simulated (cfg : Config float) (fresh : ℕ → ℕ → Draws float) : World float → Type 0 where
    starts : Simulated cfg fresh (new_world float cfg (λ x y. drawn_node float (fresh x y) x y))
    runs :
        (draws : ℕ → StepDraws float hash) (n : ℕ) (w : World float)
        → Simulated cfg fresh w
        → Simulated cfg fresh (run_steps float hash draws n w)
    toggles :
        (intn : ℕ → ℕ) (x y : ℤ) (w : World float)
        → Simulated cfg fresh w
        → Simulated cfg fresh (toggle_node float intn x y w)
    jams :
        (cells : List (ℕ × ℕ)) (w : World float)
        → Simulated cfg fresh w
        → Simulated cfg fresh (set_jamming float cells w)
    partitions :
        (x1 y1 x2 y2 : ℕ) (blocked : Bool) (w : World float)
        → Simulated cfg fresh w
        → Simulated cfg fresh (partition float x1 y1 x2 y2 blocked w)
    spawns :
        (draws : List ((ℕ × ℕ) × Draws float)) (w : World float)
        → Simulated cfg fresh w
        → Simulated cfg fresh (spawn_sybil float draws w)
    darkens :
        (draw : ℕ → float.F) (prob : float.F) (w : World float)
        → Simulated cfg fresh w
        → Simulated cfg fresh (set_day_night float draw prob w)

  -- In every world that runs of steps and the scenario calls reach from a new one, in whatever order
  -- and with whatever they draw, each node is offline or has -1 as the tick since which it is.
  pub Simulated-AllMarked :
      (cfg : Config float) (fresh : ℕ → ℕ → Draws float) (w : World float)
      → Simulated cfg fresh w
      → AllMarked float w
  unfolding set_jamming partition set_day_night new_world
  Simulated-AllMarked cfg fresh _ starts =
      new_rows-AllMarked float (λ x y. drawn_node float (fresh x y) x y) cfg.grid_width 0
        cfg.grid_height _ (λ x y. drawn_node-IsMarked float (fresh x y) x y)
        (λ p. drawn_node-IsMarked float (fresh 0 0) 0 0)
  Simulated-AllMarked cfg fresh _ (runs draws n w s) =
      run_steps-AllMarked float hash draws n w (Simulated-AllMarked cfg fresh w s)
  Simulated-AllMarked cfg fresh _ (toggles intn x y w s) =
      toggle_node-AllMarked float intn x y w (Simulated-AllMarked cfg fresh w s)
  Simulated-AllMarked cfg fresh _ (jams cells w s) = Simulated-AllMarked cfg fresh w s
  Simulated-AllMarked cfg fresh _ (partitions x1 y1 x2 y2 blocked w s) =
      partition_rows-AllMarked float blocked x1 (suc x2 - x1) y1 (suc y2 - y1) w
        (Simulated-AllMarked cfg fresh w s)
  Simulated-AllMarked cfg fresh _ (spawns draws w s) =
      spawn_sybil-AllMarked float draws w (Simulated-AllMarked cfg fresh w s)
  Simulated-AllMarked cfg fresh _ (darkens draw prob w s) =
      for_each-AllMarked float (λ p. day_night float (draw p) prob w.tick) (all_nodes float w) w
        (λ p n. day_night-IsMarked float (draw p) prob w.tick n) (Simulated-AllMarked cfg fresh w s)
