-- ===== src/Simulation/Collision/Clear.antt =====
-- The transmissions that checkCollisions keeps.
use relaymeshnet.Base.{ℕ, ◌≡◌, ◌⊎◌, ◌∙◌, refl, sym, inl, inr, true, false}
use relaymeshnet.Base.{List, [], ◌∷◌, none, All, ◌==◌}
use relaymeshnet.Base.{Bool-cases, Option-cases}
use relaymeshnet.Base.Float.{Float}
use relaymeshnet.Simulation.Node.{Node, distance_to}
use relaymeshnet.Simulation.World.{World, Transmission, write}
use relaymeshnet.Simulation.Collision.{
  expired, collides, first_collision, count_failed, collide_msg,
}
use relaymeshnet.Simulation.Collision.{record_collision, strike, check_from, check_collisions}

module _ (float : Float) where
  -- What the test of a collision reads of a world.
  record Agrees (w v : World float) : Type 0 where
    tick : v.tick ≡ w.tick
    config : v.config ≡ w.config
    x : (p : ℕ) → (v.store p).x ≡ (w.store p).x
    y : (p : ℕ) → (v.store p).y ≡ (w.store p).y

  Agrees-refl : (w : World float) → Agrees w w
  Agrees-refl w = record { tick = refl; config = refl; x = λ p. refl; y = λ p. refl }

  Agrees-sym : (w v : World float) → Agrees w v → Agrees v w
  Agrees-sym w v a = record {
    tick = sym a.tick;
    config = sym a.config;
    x = λ p. sym (a.x p);
    y = λ p. sym (a.y p);
  }

  Agrees-trans : (w v u : World float) → Agrees w v → Agrees v u → Agrees w u
  Agrees-trans w v u a b = record {
    tick = b.tick ∙ a.tick;
    config = b.config ∙ a.config;
    x = λ p. b.x p ∙ a.x p;
    y = λ p. b.y p ∙ a.y p;
  }

  -- A write of counters.
  write-Agrees :
      (p : ℕ) (f : Node float → Node float) (w : World float)
      → ((n : Node float) → ((f n).x ≡ n.x) × ((f n).y ≡ n.y))
      → Agrees w (write float p f w)
  write-Agrees p f w h = record {
    tick = refl;
    config = refl;
    x = λ q. elim (Bool-cases (q == p)) [ inl e ↦ rw e (h (w.store q)).0 | inr e ↦ rw e refl ];
    y = λ q. elim (Bool-cases (q == p)) [ inl e ↦ rw e (h (w.store q)).1 | inr e ↦ rw e refl ];
  }

  record_collision-Agrees :
      (tx tx2 : Transmission) (w : World float) → Agrees w (record_collision float tx tx2 w)
  unfolding record_collision
  record_collision-Agrees tx tx2 w =
      let w1 = write float tx.from_node (count_failed float) w in
      let w2 = write float tx2.from_node (count_failed float) w1 in
      let w3 = write float tx2.from_node (collide_msg float) w2 in
      let a1 = write-Agrees tx.from_node (count_failed float) w (λ n. (refl, refl)) in
      let a2 = write-Agrees tx2.from_node (count_failed float) w1 (λ n. (refl, refl)) in
      let a3 = write-Agrees tx2.from_node (collide_msg float) w2 (λ n. (refl, refl)) in
      let a = Agrees-trans w w1 w3 a1 (Agrees-trans w1 w2 w3 a2 a3) in
      record { tick = a.tick; config = a.config; x = a.x; y = a.y }

  collides-Agrees :
      (w v : World float) (tx tx2 : Transmission)
      → Agrees w v
      → collides float v tx tx2 ≡ collides float w tx tx2
  unfolding collides distance_to
  collides-Agrees w v tx tx2 a =
      rw
        (a.tick, a.config, a.x tx.from_node, a.x tx2.from_node, a.y tx.from_node, a.y tx2.from_node)
        refl

  first_collision-none :
      (w : World float) (tx : Transmission) (txs : List Transmission)
      → first_collision float w tx txs ≡ none
      → All (λ tx2. collides float w tx tx2 ≡ false) txs
  unfolding first_collision
  first_collision-none w tx [] h = tt
  first_collision-none w tx (tx2 ∷ txs) h = elim (Bool-cases (collides float w tx tx2)) [
    | inl e ↦ let found = rw e at h in absurd (cc found)
    | inr e ↦ let rest = rw e at h in (e, first_collision-none w tx txs rest)
  ]

  -- What it means that `strike` keeps a transmission.
  abbrev Keeps : World float → Transmission → List Transmission → Type 0
  Keeps w tx txs = (expired float w tx ≡ false) × All (λ tx2. collides float w tx tx2 ≡ false) txs

  strike_lem :
      (tx : Transmission) (txs : List Transmission) (w : World float)
      → Agrees w (strike float tx txs w).0
        × (((strike float tx txs w).1 ≡ true)
            ⊎ (((strike float tx txs w).1 ≡ false) × Keeps w tx txs))
  unfolding strike
  strike_lem tx txs w = elim (Bool-cases (expired float w tx)) [
    | inl e ↦ rw e (Agrees-refl w, inl refl)
    | inr e ↦ elim (Option-cases (first_collision float w tx txs)) [
      | inl n ↦ rw (e, n) (Agrees-refl w, inr (refl, (refl, first_collision-none w tx txs n)))
      | inr (tx2, n) ↦ rw (e, n) (record_collision-Agrees tx tx2 w, inl refl)
    ]
  ]

  check_from-Agrees :
      (txs : List Transmission) (w : World float) → Agrees w (check_from float txs w).0
  unfolding check_from
  check_from-Agrees [] w = Agrees-refl w
  check_from-Agrees (tx ∷ txs) w =
      let w' = (strike float tx txs w).0 in
      Agrees-trans w w' (check_from float txs w').0 (strike_lem tx txs w).0
        (check_from-Agrees txs w')

  check_from-All :
      (P : Transmission → Type 0) (txs : List Transmission) (w : World float)
      → All P txs
      → All P (check_from float txs w).1
  unfolding check_from
  check_from-All P [] w h = tt
  check_from-All P (tx ∷ txs) w h =
      let rest = check_from-All P txs (strike float tx txs w).0 h.1 in
      elim (Bool-cases (strike float tx txs w).1) [ inl e ↦ rw e rest | inr e ↦ rw e (h.0, rest) ]

  -- No transmission has ended, and none collides with a later one.
  abbrev pub IsClear : World float → List Transmission → Type 0
  IsClear w [] = Unit
  IsClear w (tx ∷ txs) = Keeps w tx txs × IsClear w txs

  Keeps-Agrees :
      (w v : World float) (tx : Transmission) (txs : List Transmission)
      → Agrees w v
      → Keeps v tx txs
      → Keeps w tx txs
  Keeps-Agrees w v tx txs a (live, apart) = (rw⁻¹ a.tick live, apart_from txs apart)
    where
      apart_from :
          (us : List Transmission)
          → All (λ tx2. collides float v tx tx2 ≡ false) us
          → All (λ tx2. collides float w tx tx2 ≡ false) us
      apart_from [] h = tt
      apart_from (u ∷ us) h = (sym (collides-Agrees w v tx u a) ∙ h.0, apart_from us h.1)

  check_from-IsClear :
      (u : World float) (txs : List Transmission) (w : World float)
      → Agrees u w
      → IsClear u (check_from float txs w).1
  unfolding check_from
  check_from-IsClear u [] w a = tt
  check_from-IsClear u (tx ∷ txs) w a =
      let w' = (strike float tx txs w).0 in
      let (moved, cases) = strike_lem tx txs w in
      let rest = check_from-IsClear u txs w' (Agrees-trans u w w' a moved) in
      elim cases [
        | inl dropped ↦ rw dropped rest
        | inr (kept, (live, apart)) ↦ rw kept (
          Keeps-Agrees u w tx (check_from float txs w').1 a
              (live, check_from-All (λ tx2. collides float w tx tx2 ≡ false) txs w' apart),
          rest,
        )
      ]

  -- After the check the transmissions on the air have not ended, and none of them collides with a later
  -- one of the list, by the test of the check itself in the world that it leaves.
  pub check_collisions-IsClear :
      (w : World float) → let w' = check_collisions float w in IsClear w' w'.active_transmissions
  unfolding check_collisions
  check_collisions-IsClear w =
      let txs = w.active_transmissions in
      let last = (check_from float txs w).0 in
      let a = Agrees-sym w last (check_from-Agrees txs w) in
      check_from-IsClear (record last { active_transmissions = (check_from float txs w).1 }) txs w
        (record { tick = a.tick; config = a.config; x = a.x; y = a.y })
