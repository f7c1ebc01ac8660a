-- ===== src/Simulation/Collision/Counts.antt =====
-- What checkCollisions counts.
use relaymeshnet.Base.{ℕ, ◌+◌, ◌*◌, ◌≡◌, subst, refl, arith, inl, inr, Bool, true, false, not}
use relaymeshnet.Base.{List, [], ◌∷◌, select, length, ltb}
use relaymeshnet.Base.{Bool-cases, Option-cases, if◌then◌else◌}
use relaymeshnet.Base.Float.{Float}
use relaymeshnet.Simulation.World.{World, Transmission}
use relaymeshnet.Simulation.Collision.{
  expired, first_collision, record_collision, strike, check_from,
}
use relaymeshnet.Simulation.Collision.{check_collisions}

module _ (float : Float) where
  -- The counters of a world.
  abbrev Counted : World float → World float → ℕ → ℕ → Type 0
  Counted w v kept live =
      (v.total_collisions + 2 * kept ≡ w.total_collisions + 2 * live)
      × (v.total_failed + 2 * kept ≡ w.total_failed + 2 * live)

  abbrev one_if : Bool → ℕ
  one_if b = if b then 1 else 0

  strike-Counted :
      (tx : Transmission) (txs : List Transmission) (w : World float)
      → let (v, dropped) = strike float tx txs w in
        Counted w v (one_if (not dropped)) (one_if (not (expired float w tx)))
  unfolding strike record_collision
  strike-Counted tx txs w = elim (Bool-cases (expired float w tx)) [
    | inl e ↦ rw e (refl, refl)
    | inr e ↦ elim (Option-cases (first_collision float w tx txs)) [
      | inl n ↦ rw (e, n) (refl, refl)
      | inr (tx2, n) ↦ rw (e, n) (omega arith, omega arith)
    ]
  ]

  strike-tick :
      (tx : Transmission) (txs : List Transmission) (w : World float)
      → (strike float tx txs w).0.tick ≡ w.tick
  unfolding strike record_collision
  strike-tick tx txs w = elim (Bool-cases (expired float w tx)) [
    | inl e ↦ rw e refl
    | inr e ↦ elim (Option-cases (first_collision float w tx txs)) [
      | inl n ↦ rw (e, n) refl
      | inr (tx2, n) ↦ rw (e, n) refl
    ]
  ]

  -- The transmissions that have not ended.
  abbrev pub live_at : ℕ → List Transmission → List Transmission
  live_at t txs = select (λ tx. not (ltb tx.end_tick t)) txs

  length-unless :
      (dropped : Bool) (tx : Transmission) (txs : List Transmission)
      → length (if dropped then txs else tx ∷ txs) ≡ length txs + one_if (not dropped)
  length-unless true tx txs = omega arith
  length-unless false tx txs = omega arith

  length-live_at :
      (t : ℕ) (tx : Transmission) (txs : List Transmission)
      → length (live_at t (tx ∷ txs)) ≡ length (live_at t txs) + one_if (not (ltb tx.end_tick t))
  length-live_at t tx txs = ground arith

  check_from-Counted :
      (txs : List Transmission) (w : World float)
      → let (v, kept) = check_from float txs w in
        Counted w v (length kept) (length (live_at w.tick txs))
  unfolding check_from
  check_from-Counted [] w = (refl, refl)
  check_from-Counted (tx ∷ txs) w =
      let (v, dropped) = strike float tx txs w in
      let (now, now_failed) = strike-Counted tx txs w in
      let (last, rem) = check_from float txs v in
      let rest : Counted v last (length rem) (length (live_at w.tick txs)) =
        subst (λ t. Counted v last (length rem) (length (live_at t txs))) (strike-tick tx txs w)
          (check_from-Counted txs v) in
      let kept = length-unless dropped tx rem in
      let live = length-live_at w.tick tx txs in
      (omega (arith, now, rest.0, kept, live), omega (arith, now_failed, rest.1, kept, live))

  -- The check adds two to the collisions and two to the failures for each transmission that has not
  -- ended and that it takes off the air, and nothing else.
  pub check_collisions-counts :
      (w : World float)
      → let w' = check_collisions float w in
        let kept = length w'.active_transmissions in
        let live = length (live_at w.tick w.active_transmissions) in
        (w'.total_collisions + 2 * kept ≡ w.total_collisions + 2 * live)
        × (w'.total_failed + 2 * kept ≡ w.total_failed + 2 * live)
  unfolding check_collisions
  check_collisions-counts w = check_from-Counted w.active_transmissions w
