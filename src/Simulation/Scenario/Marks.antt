-- ===== src/Simulation/Scenario/Marks.antt =====
-- A node that is online has no mark of when it went offline.
use relaymeshnet.Base.{ℕ, ◌≡◌, ◌⊎◌, inl, inr, refl, Bool, true, false}
use relaymeshnet.Base.{Bool-cases, ◌==◌, if◌then◌else◌, ◌%◌}
use relaymeshnet.Base.Float.{Float}
use relaymeshnet.Simulation.Schedule.{is_online, is_unstable, should_change_status}
use relaymeshnet.Simulation.Schedule.{schedule_next_status}
use relaymeshnet.Simulation.Node.{Node, new_node, minus_one, update_reputation}
use relaymeshnet.Simulation.Scenario.{Draws, drawn_node, toggle, switch}
use relaymeshnet.Simulation.Scenario.{sybil}
use relaymeshnet.Simulation.Scenario.{flip_status, day_night, change_status}

module _ (float : Float) where
  abbrev pub IsMarked : Node float → Type 0
  IsMarked n = (is_online n.schedule.status ≡ false) ⊎ (n.offline_since ≡ minus_one)

  pub toggle-IsMarked : (intn : ℕ → ℕ) (t : ℕ) (n : Node float) → IsMarked (toggle float intn t n)
  unfolding toggle
  toggle-IsMarked intn t n = elim (Bool-cases (is_online n.schedule.status)) [
    | inl on ↦ rw on (inl refl)
    | inr off ↦ rw off (inr refl)
  ]

  pub switch-IsMarked :
      (blocked : Bool) (t : ℕ) (n : Node float) → IsMarked (switch float blocked t n)
  unfolding switch
  switch-IsMarked true t n = inl refl
  switch-IsMarked false t n = inr refl

  pub drawn_node-IsMarked : (d : Draws float) (x y : ℕ) → IsMarked (drawn_node float d x y)
  unfolding drawn_node new_node
  drawn_node-IsMarked d x y = inr refl

  pub sybil-IsMarked : (d : Draws float) (x y : ℕ) → IsMarked (sybil float d x y)
  unfolding sybil drawn_node new_node
  sybil-IsMarked d x y = inr refl

  pub day_night-IsMarked :
      (draw prob : float.F) (t : ℕ) (n : Node float)
      → IsMarked n
      → IsMarked (day_night float draw prob t n)
  unfolding day_night
  day_night-IsMarked draw prob t n h = elim (Bool-cases (is_unstable n.schedule.profile)) [
    | inl skip ↦ rw skip h
    | inr settled ↦ elim (Bool-cases (float.less prob draw)) [
      | inl down ↦ elim (Bool-cases (is_online n.schedule.status)) [
        | inl on ↦ rw (settled, down, on) (inl refl)
        | inr off ↦ rw (settled, down, off) h
      ]
      | inr up ↦ elim (Bool-cases (is_online n.schedule.status)) [
        | inl on ↦ rw (settled, up, on) h
        | inr off ↦ rw (settled, up, off) (inr refl)
      ]
    ]
  ]

  renewed :
      (t : ℕ) (n : Node float)
      → IsMarked n
      → IsMarked (if t % 300 == 0 then update_reputation float n else n)
  unfolding update_reputation
  renewed t n h = elim (Bool-cases (t % 300 == 0)) [ inl e ↦ rw e h | inr e ↦ rw e h ]

  rescheduled :
      (intn : ℕ → ℕ) (t : ℕ) (n : Node float)
      → IsMarked n
      → IsMarked (record n { schedule = schedule_next_status intn t n.schedule })
  unfolding schedule_next_status
  rescheduled intn t n h = elim (Bool-cases (is_unstable n.schedule.profile)) [
    | inl e ↦ rw e h
    | inr e ↦ rw e h
  ]

  pub flip_status-IsMarked :
      (intn : ℕ → ℕ) (t : ℕ) (m : Node float) → IsMarked (flip_status float intn t m)
  flip_status-IsMarked intn t m = elim (Bool-cases (is_online m.schedule.status)) [
    | inl on ↦ rw on (inl refl)
    | inr off ↦ rw off (inr refl)
  ]

  pub change_status-IsMarked :
      (intn : ℕ → ℕ) (t : ℕ) (n : Node float) → IsMarked n → IsMarked (change_status float intn t n)
  unfolding change_status
  change_status-IsMarked intn t n h =
      let m = if t % 300 == 0 then update_reputation float n else n in
      elim (Bool-cases (should_change_status t m.schedule)) [
        | inr keeps ↦ rw keeps (renewed t n h)
        | inl due ↦
            rw due (rescheduled intn t (flip_status float intn t m) (flip_status-IsMarked intn t m))
      ]
