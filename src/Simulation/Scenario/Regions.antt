-- ===== src/Simulation/Scenario/Regions.antt =====
-- What Partition does inside its rectangle, and what it leaves outside.
use relaymeshnet.Base.{
  ℕ, zero, suc, ◌+◌, ◌-◌, ◌≤◌, ◌<◌, ◌≡◌, ◌≢◌, ◌⊎◌, ◌∙◌, refl, subst, sym, ap, arith, inl, inr,
}
use relaymeshnet.Base.{
  Bool, true, false, none, some, ◌==◌, ==_iff, Bool-cases, Option-cases, if◌then◌else◌,
}
use relaymeshnet.Base.Int.{ℤ, pos, negsuc}
use relaymeshnet.Base.Float.{Float}
use relaymeshnet.Simulation.Schedule.{status_online, status_offline}
use relaymeshnet.Simulation.Node.{Node, minus_one}
use relaymeshnet.Simulation.World.{World, write, node_at}
use relaymeshnet.Simulation.Scenario.{switch, partition_row, partition_rows, partition}

module _ (float : Float) (blocked : Bool) where
  -- The state that `Partition` leaves a node in, at the tick `t`.
  abbrev pub IsSwitched : ℕ → Node float → Type 0
  IsSwitched t n =
      (n.schedule.status ≡ (if blocked then status_offline else status_online))
      × (n.offline_since ≡ (if blocked then pos t else minus_one))

  switch-IsSwitched :
      (b : Bool) (t : ℕ) (n : Node float) → b ≡ blocked → IsSwitched t (switch float b t n)
  unfolding switch
  switch-IsSwitched true t n e = rw (sym e) (refl, refl)
  switch-IsSwitched false t n e = rw (sym e) (refl, refl)

  -- What one cell does.
  cell : ℕ → ℕ → World float → World float
  unfolding node_at switch
  cell x y w = elim (node_at float w (pos x) (pos y)) [
    | none ↦ w
    | some p ↦ write float p (switch float blocked w.tick) w
  ]

  cell_keeps :
      (x y : ℕ) (w : World float) → ((cell x y w).tick ≡ w.tick) × ((cell x y w).grid ≡ w.grid)
  unfolding cell
  cell_keeps x y w = elim (Option-cases (node_at float w (pos x) (pos y))) [
    | inl e ↦ rw (cell, e) (refl, refl)
    | inr (p, e) ↦ rw (cell, e) (refl, refl)
  ]

  cell_hits :
      (x y p : ℕ) (w : World float)
      → node_at float w (pos x) (pos y) ≡ some p
      → IsSwitched w.tick ((cell x y w).store p)
  unfolding cell
  cell_hits x y p w e =
      let self : (p == p) ≡ true = ground arith in
      rw (cell, e) (rw self (switch-IsSwitched blocked w.tick (w.store p) refl))

  cell_stays :
      (x y p : ℕ) (w : World float)
      → IsSwitched w.tick (w.store p)
      → IsSwitched w.tick ((cell x y w).store p)
  unfolding cell
  cell_stays x y p w h = elim (Option-cases (node_at float w (pos x) (pos y))) [
    | inl e ↦ rw (cell, e) h
    | inr (q, e) ↦ elim (Bool-cases (p == q)) [
      | inl same ↦ rw (cell, e, same) (switch-IsSwitched blocked w.tick (w.store p) refl)
      | inr other ↦ rw (cell, e, other) h
    ]
  ]

  cell_misses :
      (x y p : ℕ) (w : World float)
      → node_at float w (pos x) (pos y) ≢ some p
      → (cell x y w).store p ≡ w.store p
  unfolding cell
  cell_misses x y p w miss = elim (Option-cases (node_at float w (pos x) (pos y))) [
    | inl e ↦ rw (cell, e) refl
    | inr (q, e) ↦ elim (Bool-cases (p == q)) [
      | inl same ↦ absurd (miss (e ∙ ap some (sym ((==_iff p q).0 same))))
      | inr other ↦ rw (cell, e, other) refl
    ]
  ]

  node_at-grid :
      (w v : World float) (x y : ℤ) → v.grid ≡ w.grid → node_at float v x y ≡ node_at float w x y
  unfolding node_at
  node_at-grid w v (pos x) (pos y) e = rw e refl
  node_at-grid w v (negsuc x) (pos y) e = refl
  node_at-grid w v x (negsuc y) e = refl

  -- From the world `w` to the world `v` the nodes of the cells were switched, and no others changed.
  pub record Sweeps (cells : ℕ → ℕ → Type 0) (w v : World float) : Type 0 where
    pub tick : v.tick ≡ w.tick
    pub grid : v.grid ≡ w.grid
    pub stays : (p : ℕ) → IsSwitched w.tick (w.store p) → IsSwitched w.tick (v.store p)
    pub hits :
        (x y p : ℕ)
        → cells x y
        → node_at float w (pos x) (pos y) ≡ some p
        → IsSwitched w.tick (v.store p)
    pub misses :
        (p : ℕ)
        → ((x y : ℕ) → cells x y → node_at float w (pos x) (pos y) ≢ some p)
        → v.store p ≡ w.store p

  cell-Sweeps : (x y : ℕ) (w : World float) → Sweeps (λ a b. (a ≡ x) × (b ≡ y)) w (cell x y w)
  cell-Sweeps x y w = record {
    tick = (cell_keeps x y w).0;
    grid = (cell_keeps x y w).1;
    stays = λ p h. cell_stays x y p w h;
    hits = λ a b p (same : (a ≡ x) × (b ≡ y)) e. cell_hits x y p w (rw⁻¹ (same.0, same.1) e);
    misses = λ p h. cell_misses x y p w (h x y (refl, refl));
  }

  -- One after the other. The cells of the whole are those of the two.
  Sweeps-both :
      (A B C : ℕ → ℕ → Type 0) (w v u : World float)
      → Sweeps A w v
      → Sweeps B v u
      → ((x y : ℕ) → C x y → A x y ⊎ B x y)
      → ((x y : ℕ) → A x y → C x y)
      → ((x y : ℕ) → B x y → C x y)
      → Sweeps C w u
  Sweeps-both A B C w v u a b parts left right = record {
    tick = b.tick ∙ a.tick;
    grid = b.grid ∙ a.grid;
    stays = λ p h. later p (a.stays p h);
    hits = λ x y p c e. elim (parts x y c) [
      | inl first ↦ later p (a.hits x y p first e)
      | inr second ↦
          subst (λ t. IsSwitched t (u.store p)) a.tick
            (b.hits x y p second (node_at-grid w v (pos x) (pos y) a.grid ∙ e))
    ];
    misses = λ p none_of.
        b.misses p
          (λ x y c e. none_of x y (right x y c) (sym (node_at-grid w v (pos x) (pos y) a.grid) ∙ e))
        ∙ a.misses p (λ x y c. none_of x y (left x y c));
  }
    where
      later : (p : ℕ) → IsSwitched w.tick (v.store p) → IsSwitched w.tick (u.store p)
      later p h =
          subst (λ t. IsSwitched t (u.store p)) a.tick
            (b.stays p (subst (λ t. IsSwitched t (v.store p)) (sym a.tick) h))

  Sweeps-nothing :
      (C : ℕ → ℕ → Type 0) (w : World float)
      → ((x y p : ℕ) → C x y → IsSwitched w.tick (w.store p))
      → Sweeps C w w
  Sweeps-nothing C w never = record {
    tick = refl;
    grid = refl;
    stays = λ p h. h;
    hits = λ x y p c e. never x y p c;
    misses = λ p h. refl;
  }

  -- The cells of a rectangle by its corner and its sizes.
  abbrev pub In : ℕ → ℕ → ℕ → ℕ → ℕ → ℕ → Type 0
  In x width y height a b = (x ≤ a) × (a < x + width) × (y ≤ b) × (b < y + height)

  partition_row-Sweeps :
      (y x count : ℕ) (w : World float)
      → Sweeps (In x count y 1) w (partition_row float blocked y x count w)
  unfolding partition_row cell
  partition_row-Sweeps y x zero w =
      Sweeps-nothing (In x 0 y 1) w (λ a b p c. absurd (omega (arith, c.0, c.1)))
  partition_row-Sweeps y x (suc count) w =
      Sweeps-both _ (In (suc x) count y 1) (In x (suc count) y 1) w (cell x y w)
        (partition_row float blocked y (suc x) count (cell x y w)) (cell-Sweeps x y w)
        (partition_row-Sweeps y (suc x) count (cell x y w))
        (λ a b c. elim (Bool-cases (a == x)) [
          | inl e ↦ inl ((==_iff a x).0 e, omega (arith, c.2, c.3))
          | inr e ↦ inr (ground (arith, e, c.0), omega (arith, c.1), c.2, c.3)
        ])
        (λ a b c. (omega (arith, c.0), omega (arith, c.0), omega (arith, c.1), omega (arith, c.1)))
        (λ a b c. (omega (arith, c.0), omega (arith, c.1), c.2, c.3))

  partition_rows-Sweeps :
      (x width y count : ℕ) (w : World float)
      → Sweeps (In x width y count) w (partition_rows float blocked x width y count w)
  unfolding partition_rows
  partition_rows-Sweeps x width y zero w =
      Sweeps-nothing (In x width y 0) w (λ a b p c. absurd (omega (arith, c.2, c.3)))
  partition_rows-Sweeps x width y (suc count) w =
      let first = partition_row float blocked y x width w in
      Sweeps-both (In x width y 1) (In x width (suc y) count) (In x width y (suc count)) w first
        (partition_rows float blocked x width (suc y) count first)
        (partition_row-Sweeps y x width w) (partition_rows-Sweeps x width (suc y) count first)
        (λ a b c. elim (Bool-cases (b == y)) [
          | inl e ↦ inl (c.0, c.1, c.2, ground (arith, e))
          | inr e ↦ inr (c.0, c.1, ground (arith, e, c.2), omega (arith, c.3))
        ])
        (λ a b c. (c.0, c.1, c.2, omega (arith, c.3)))
        (λ a b c. (c.0, c.1, omega (arith, c.2), omega (arith, c.3)))

  -- The cells between two corners.
  abbrev pub Between : ℕ → ℕ → ℕ → ℕ → ℕ → ℕ → Type 0
  Between x1 y1 x2 y2 a b = (x1 ≤ a) × (a ≤ x2) × (y1 ≤ b) × (b ≤ y2)

  -- `Partition` leaves every node of a cell between the corners, the corners included, offline since
  -- the tick of the world when it blocks, and otherwise online with no mark; and it leaves every node
  -- of no such cell as it is, and the grid and the tick too.
  pub partition-Sweeps :
      (x1 y1 x2 y2 : ℕ) (w : World float)
      → Sweeps (Between x1 y1 x2 y2) w (partition float x1 y1 x2 y2 blocked w)
  unfolding partition
  partition-Sweeps x1 y1 x2 y2 w =
      let s = partition_rows-Sweeps x1 (suc x2 - x1) y1 (suc y2 - y1) w in
      let inside : (a b : ℕ) → Between x1 y1 x2 y2 a b → In x1 (suc x2 - x1) y1 (suc y2 - y1) a b =
        λ a b c. (c.0, omega (arith, c.0, c.1), c.2, omega (arith, c.2, c.3)) in
      let between : (a b : ℕ) → In x1 (suc x2 - x1) y1 (suc y2 - y1) a b → Between x1 y1 x2 y2 a b =
        λ a b c. (c.0, omega (arith, c.0, c.1), c.2, omega (arith, c.2, c.3)) in
      record {
        tick = s.tick;
        grid = s.grid;
        stays = s.stays;
        hits = λ x y p c e. s.hits x y p (inside x y c) e;
        misses = λ p h. s.misses p (λ x y c e. h x y (between x y c) e);
      }
