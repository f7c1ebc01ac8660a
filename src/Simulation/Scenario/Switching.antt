-- ===== src/Simulation/Scenario/Switching.antt =====
-- The marks of all nodes, through the calls that switch nodes on and off.
use relaymeshnet.Base.{ℕ, zero, suc, inl, inr, Bool, List, [], ◌∷◌}
use relaymeshnet.Base.{Bool-cases, Option-cases, ◌==◌}
use relaymeshnet.Base.Int.{ℤ, pos}
use relaymeshnet.Base.Float.{Float}
use relaymeshnet.Simulation.Node.{Node}
use relaymeshnet.Simulation.World.{World, write, allocate, node_at, new_row, new_rows}
use relaymeshnet.Simulation.Scenario.{Draws, toggle, toggle_node, switch}
use relaymeshnet.Simulation.Scenario.{partition_row, partition_rows, place, sybil, spawn_sybil}
use relaymeshnet.Simulation.Scenario.{for_each}
use relaymeshnet.Simulation.Scenario.Marks.{
  IsMarked, toggle-IsMarked, switch-IsMarked, sybil-IsMarked,
}

module _ (float : Float) where
  abbrev pub AllMarked : World float → Type 0
  AllMarked w = (p : ℕ) → IsMarked float (w.store p)

  pub write-AllMarked :
      (p : ℕ) (f : Node float → Node float) (w : World float)
      → ((n : Node float) → IsMarked float n → IsMarked float (f n))
      → AllMarked w
      → AllMarked (write float p f w)
  write-AllMarked p f w keeps h q = elim (Bool-cases (q == p)) [
    | inl e ↦ rw e (keeps (w.store q) (h q))
    | inr e ↦ rw e (h q)
  ]

  pub for_each-AllMarked :
      (f : ℕ → Node float → Node float) (ps : List ℕ) (w : World float)
      → ((p : ℕ) (n : Node float) → IsMarked float n → IsMarked float (f p n))
      → AllMarked w
      → AllMarked (for_each float f ps w)
  for_each-AllMarked f [] w keeps h = h
  for_each-AllMarked f (p ∷ ps) w keeps h =
      for_each-AllMarked f ps (write float p (f p) w) keeps (write-AllMarked p (f p) w (keeps p) h)

  pub allocate-AllMarked :
      (n : Node float) (w : World float)
      → IsMarked float n
      → AllMarked w
      → AllMarked (allocate float n w)
  unfolding allocate
  allocate-AllMarked n w m h q = elim (Bool-cases (q == w.allocated)) [
    | inl e ↦ rw e m
    | inr e ↦ rw e (h q)
  ]

  pub partition_row-AllMarked :
      (blocked : Bool) (y x count : ℕ) (w : World float)
      → AllMarked w
      → AllMarked (partition_row float blocked y x count w)
  unfolding partition_row
  partition_row-AllMarked blocked y x zero w h = h
  partition_row-AllMarked blocked y x (suc count) w h =
      elim (Option-cases (node_at float w (pos x) (pos y))) [
        | inl e ↦ rw (partition_row, e) (partition_row-AllMarked blocked y (suc x) count w h)
        | inr (p, e) ↦
            rw (partition_row, e)
              (partition_row-AllMarked blocked y (suc x) count _ (
                write-AllMarked p (switch float blocked w.tick) w
                  (λ n m. switch-IsMarked float blocked w.tick n) h))
      ]

  pub partition_rows-AllMarked :
      (blocked : Bool) (x width y count : ℕ) (w : World float)
      → AllMarked w
      → AllMarked (partition_rows float blocked x width y count w)
  unfolding partition_rows
  partition_rows-AllMarked blocked x width y zero w h = h
  partition_rows-AllMarked blocked x width y (suc count) w h =
      partition_rows-AllMarked blocked x width (suc y) count _
        (partition_row-AllMarked blocked y x width w h)

  pub spawn_sybil-AllMarked :
      (draws : List ((ℕ × ℕ) × Draws float)) (w : World float)
      → AllMarked w
      → AllMarked (spawn_sybil float draws w)
  unfolding spawn_sybil place
  spawn_sybil-AllMarked [] w h = h
  spawn_sybil-AllMarked (((x, y), d) ∷ draws) w h =
      spawn_sybil-AllMarked draws _
        (allocate-AllMarked (sybil float d x y) w (sybil-IsMarked float d x y) h)

  pub toggle_node-AllMarked :
      (intn : ℕ → ℕ) (x y : ℤ) (w : World float)
      → AllMarked w
      → AllMarked (toggle_node float intn x y w)
  unfolding toggle_node
  toggle_node-AllMarked intn x y w h = elim (Option-cases (node_at float w x y)) [
    | inl e ↦ rw (toggle_node, e) h
    | inr (p, e) ↦
        rw (toggle_node, e)
          (write-AllMarked p (toggle float intn w.tick) w
            (λ n m. toggle-IsMarked float intn w.tick n) h)
  ]

  pub new_row-AllMarked :
      (fresh : ℕ → ℕ → Node float) (y x count : ℕ) (w : World float)
      → ((x y : ℕ) → IsMarked float (fresh x y))
      → AllMarked w
      → AllMarked (new_row float fresh y x count w).0
  unfolding new_row
  new_row-AllMarked fresh y x zero w marked h = h
  new_row-AllMarked fresh y x (suc count) w marked h =
      new_row-AllMarked fresh y (suc x) count _ marked
        (allocate-AllMarked (fresh x y) w (marked x y) h)

  pub new_rows-AllMarked :
      (fresh : ℕ → ℕ → Node float) (width y count : ℕ) (w : World float)
      → ((x y : ℕ) → IsMarked float (fresh x y))
      → AllMarked w
      → AllMarked (new_rows float fresh width y count w).0
  unfolding new_rows
  new_rows-AllMarked fresh width y zero w marked h = h
  new_rows-AllMarked fresh width y (suc count) w marked h =
      new_rows-AllMarked fresh width (suc y) count _ marked
        (new_row-AllMarked fresh y 0 width w marked h)
