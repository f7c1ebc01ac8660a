-- ===== src/Simulation/Flight/Waiting.antt =====
-- The messages that are still under way after some ticks, as lists.
use relaymeshnet.Base.{ℕ, zero, suc, ◌+◌, ◌≤◌, ◌≡◌, refl, ap, arith, inl, inr}
use relaymeshnet.Base.{Bool, true, false, not, ◌&&◌, List, [], ◌∷◌, map, select, length, All}
use relaymeshnet.Base.{ltb, leb, Bool-cases}
use relaymeshnet.Simulation.World.{ActiveMsg}
use relaymeshnet.Simulation.Flight.{advance, is_done}

abbrev pub advance_n : ℕ → ActiveMsg → ActiveMsg
advance_n zero msg = msg
advance_n (suc n) msg = advance_n n (advance msg)

-- The messages still under way after `n` ticks, and those that have arrived.
abbrev pub in_flight : ℕ → ActiveMsg → Bool
in_flight n msg = not msg.collided && ltb n msg.remaining

abbrev pub arrives : ℕ → ActiveMsg → Bool
arrives n msg = not msg.collided && leb msg.remaining n

pub in_flight-is_done : (msg : ActiveMsg) → in_flight 1 msg ≡ not (is_done msg)
unfolding is_done advance
in_flight-is_done msg = ground arith

pub in_flight-advance :
    (n : ℕ) (msg : ActiveMsg) → in_flight n (advance msg) ≡ in_flight (suc n) msg
unfolding advance
in_flight-advance n msg = ground arith

pub arrives-advance : (n : ℕ) (msg : ActiveMsg) → arrives n (advance msg) ≡ arrives (suc n) msg
unfolding advance
arrives-advance n msg = ground arith

pub later_in_flight :
    (n : ℕ) (msg : ActiveMsg) → in_flight (suc (suc n)) msg ≡ true → in_flight 1 msg ≡ true
later_in_flight n msg h = ground (arith, h)

pub sooner_arrives :
    (n : ℕ) (msg : ActiveMsg) → in_flight 1 msg ≡ false → arrives (suc (suc n)) msg ≡ arrives 1 msg
sooner_arrives n msg h = ground (arith, h)

pub not_both : (n : ℕ) (msg : ActiveMsg) → in_flight n msg ≡ true → arrives n msg ≡ false
not_both n msg h = ground (arith, h)

-- The messages that are left after more ticks.
pub select-map-select :
    (n : ℕ) (msgs : List ActiveMsg)
    → select (in_flight (suc n)) (map advance (select (in_flight 1) msgs))
      ≡ map advance (select (in_flight (suc (suc n))) msgs)
select-map-select n [] = refl
select-map-select n (msg ∷ msgs) =
    let ih = select-map-select n msgs in
    let step = in_flight-advance (suc n) msg in
    elim (Bool-cases (in_flight 1 msg)) [
      | inl one ↦ elim (Bool-cases (in_flight (suc (suc n)) msg)) [
        | inl e ↦ rw (one, step, e) (ap (◌∷◌ (advance msg)) ih)
        | inr e ↦ rw (one, step, e) ih
      ]
      | inr gone ↦ elim (Bool-cases (in_flight (suc (suc n)) msg)) [
        | inl e ↦ absurd (cc (later_in_flight n msg e, gone))
        | inr e ↦ rw (gone, e) ih
      ]
    ]

-- Those that arrive later and those that arrive now.
pub length-arrivals :
    (n : ℕ) (msgs : List ActiveMsg)
    → length (select (arrives 1) msgs)
        + length (select (arrives (suc n)) (map advance (select (in_flight 1) msgs)))
      ≡ length (select (arrives (suc (suc n))) msgs)
length-arrivals n [] = omega arith
length-arrivals n (msg ∷ msgs) =
    let ih = length-arrivals n msgs in
    let step = arrives-advance (suc n) msg in
    elim (Bool-cases (in_flight 1 msg)) [
      | inl one ↦
          let late = not_both 1 msg one in
          elim (Bool-cases (arrives (suc (suc n)) msg)) [
            | inl e ↦ rw (one, late, step, e) (omega (arith, ih))
            | inr e ↦ rw (one, late, step, e) ih
          ]
      | inr gone ↦
          let same = sooner_arrives n msg gone in
          elim (Bool-cases (arrives 1 msg)) [
            | inl e ↦ rw (gone, same, e) (omega (arith, ih))
            | inr e ↦ rw (gone, same, e) ih
          ]
    ]

pub step_of_all :
    (n : ℕ) (msgs : List ActiveMsg)
    → map (advance_n n) (map advance msgs) ≡ map (advance_n (suc n)) msgs
step_of_all n [] = refl
step_of_all n (msg ∷ msgs) = ap (◌∷◌ (advance_n n (advance msg))) (step_of_all n msgs)

-- Nothing is left of messages whose counter is not above `n`.
pub none_in_flight :
    (n : ℕ) (msgs : List ActiveMsg)
    → All (λ m. m.remaining ≤ n) msgs
    → select (in_flight n) msgs ≡ []
none_in_flight n [] h = refl
none_in_flight n (msg ∷ msgs) h =
    let gone : in_flight n msg ≡ false = ground (arith, h.0) in rw gone (none_in_flight n msgs h.1)

pub every_one_arrives :
    (n : ℕ) (msgs : List ActiveMsg)
    → All (λ m. m.remaining ≤ n) msgs
    → select (arrives n) msgs ≡ select (λ m. not m.collided) msgs
every_one_arrives n [] h = refl
every_one_arrives n (msg ∷ msgs) h =
    let comes : arrives n msg ≡ not msg.collided = ground (arith, h.0) in
    rw (comes, every_one_arrives n msgs h.1) refl
