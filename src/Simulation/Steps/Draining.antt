-- ===== src/Simulation/Steps/Draining.antt =====
-- The messages of a simulation arrive or are lost.
use relaymeshnet.Base.{ℕ, zero, suc, ◌+◌, ◌≤◌, ◌≡◌, ◌∙◌, refl, sym, subst, arith, not}
use relaymeshnet.Base.{List, [], ◌∷◌, select, length, All}
use relaymeshnet.Base.Float.{Float}
use relaymeshnet.Simulation.Config.{Config}
use relaymeshnet.Simulation.Node.{Node}
use relaymeshnet.Simulation.World.{World, ActiveMsg, new_row, new_rows, new_world}
use relaymeshnet.Simulation.Flight.Delivery.{deliver_n, deliver_n_empties}
use relaymeshnet.Simulation.Dispatch.Launch.{IsUnderWay}
use relaymeshnet.Simulation.Steps.{StepDraws, run_steps}
use relaymeshnet.Simulation.Steps.Invariant.{AllUnderWay, run_steps-AllUnderWay}

IsUnderWay-in_time :
    (msgs : List ActiveMsg) → All IsUnderWay msgs → All (λ m. m.remaining ≤ 3000) msgs
IsUnderWay-in_time [] h = tt
IsUnderWay-in_time (msg ∷ msgs) (now, rest) =
    (omega (arith, now.bounded, now.launched.in_time), IsUnderWay-in_time msgs rest)

module _ (float : Float) (hash : List ℕ → List ℕ) where
  new_row-messages :
      (fresh : ℕ → ℕ → Node float) (y x count : ℕ) (w : World float)
      → (new_row float fresh y x count w).0.active_messages ≡ w.active_messages
  unfolding new_row
  new_row-messages fresh y x zero w = refl
  new_row-messages fresh y x (suc count) w = new_row-messages fresh y (suc x) count _

  new_rows-messages :
      (fresh : ℕ → ℕ → Node float) (width y count : ℕ) (w : World float)
      → (new_rows float fresh width y count w).0.active_messages ≡ w.active_messages
  unfolding new_rows
  new_rows-messages fresh width y zero w = refl
  new_rows-messages fresh width y (suc count) w =
      new_rows-messages fresh width (suc y) count _ ∙ new_row-messages fresh y 0 width w

  new_world-AllUnderWay :
      (cfg : Config float) (fresh : ℕ → ℕ → Node float)
      → AllUnderWay float hash (new_world float cfg fresh)
  unfolding new_world
  new_world-AllUnderWay cfg fresh =
      subst (All IsUnderWay) (sym (new_rows-messages fresh cfg.grid_width 0 cfg.grid_height _)) tt

  -- However long a new world has run and whatever was drawn, after 3000 more ticks of delivery, with no
  -- new traffic, no message is active any more, and every one that had not collided has been counted as
  -- received.
  pub run_steps-drains :
      (cfg : Config float) (fresh : ℕ → ℕ → Node float) (draws : ℕ → StepDraws float hash) (n : ℕ)
      → let w = run_steps float hash draws n (new_world float cfg fresh) in
        let w' = deliver_n float hash 3000 w in
        (w'.active_messages ≡ [])
        × (w'.total_received
            ≡ w.total_received + length (select (λ m. not m.collided) w.active_messages))
  run_steps-drains cfg fresh draws n =
      let first = new_world float cfg fresh in
      let w = run_steps float hash draws n first in
      let under_way =
        run_steps-AllUnderWay float hash draws n first (new_world-AllUnderWay cfg fresh) in
      deliver_n_empties float hash 2999 w (IsUnderWay-in_time w.active_messages under_way)
