-- ===== src/Simulation/Schedule.antt =====
-- Node of simulation/node.go: when it sends and when it changes its status.
use relaymeshnet.Base.{
  ℕ, suc, ◌+◌, ◌*◌, ◌-◌, ◌≤◌, ◌<◌, ◌≡◌, inl, inr, refl, arith, Bool, true, false, ◌&&◌,
}
use relaymeshnet.Base.{ltb, leb, Bool-cases, if◌then◌else◌}
use relaymeshnet.Base.Int.{ℤ, pos, negsuc}

pub data NodeStatus : Type 0 where
  status_online status_offline : NodeStatus

pub data BehaviorProfile : Type 0 where
  profile_chatter profile_normal profile_lurker profile_relay_only profile_unstable :
      BehaviorProfile

-- The fields that the schedule reads and writes.
pub record Node : Type 0 where
  pub status : NodeStatus
  pub profile : BehaviorProfile
  pub last_send_tick : ℤ
  pub next_send_tick : ℕ
  pub next_status_tick : ℕ

abbrev pub min_ticks : BehaviorProfile → ℕ
min_ticks profile_chatter = 250
min_ticks profile_normal = 500
min_ticks profile_lurker = 2500
min_ticks profile_relay_only = 99999999
min_ticks profile_unstable = 500

abbrev pub max_ticks : BehaviorProfile → ℕ
max_ticks profile_chatter = 1000
max_ticks profile_normal = 2500
max_ticks profile_lurker = 15000
max_ticks profile_relay_only = 99999999
max_ticks profile_unstable = 5000

-- `intn n` is the number that `rand.Intn(n)` draws.
unfoldable pub schedule_next_send : (ℕ → ℕ) → ℕ → Node → Node
schedule_next_send intn current_tick n =
    let first_delay = if ltb 0 current_tick then 0 else intn 300 + 50 in
    record n {
      next_send_tick =
          current_tick
          + first_delay
          + min_ticks n.profile
          + intn (max_ticks n.profile - min_ticks n.profile + 1);
    }

-- `now - n.LastSendTick >= 500`
abbrev pub rested : ℕ → ℤ → Bool
rested now (pos t) = leb (t + 500) now
rested now (negsuc t) = leb 500 (now + suc t)

abbrev pub is_online : NodeStatus → Bool
is_online status_online = true
is_online status_offline = false

abbrev pub relays_only : BehaviorProfile → Bool
relays_only profile_chatter = false
relays_only profile_normal = false
relays_only profile_lurker = false
relays_only profile_relay_only = true
relays_only profile_unstable = false

unfoldable pub should_send : ℕ → Node → Bool
should_send now n =
    if relays_only n.profile
    then false
    else (if is_online n.status
        then leb n.next_send_tick now && rested now n.last_send_tick
        else false)

abbrev pub is_unstable : BehaviorProfile → Bool
is_unstable profile_chatter = false
is_unstable profile_normal = false
is_unstable profile_lurker = false
is_unstable profile_relay_only = false
is_unstable profile_unstable = true

-- `120.0 / SecondsPerTick` and `900.0 / SecondsPerTick` are the constants 1000 and 7500, at 60 seconds
-- for 500 ticks.
unfoldable pub schedule_next_status : (ℕ → ℕ) → ℕ → Node → Node
schedule_next_status intn current_tick n =
    if is_unstable n.profile
    then record n { next_status_tick = current_tick + 1000 + intn (7500 - 1000 + 1) }
    else record n { next_status_tick = current_tick + 3600 * 500 }

unfoldable pub should_change_status : ℕ → Node → Bool
should_change_status now n = is_unstable n.profile && leb n.next_status_tick now

min-le-max : (p : BehaviorProfile) → min_ticks p ≤ max_ticks p
min-le-max profile_chatter = omega arith
min-le-max profile_normal = omega arith
min-le-max profile_lurker = omega arith
min-le-max profile_relay_only = omega arith
min-le-max profile_unstable = omega arith

not_due : (t : ℕ) (n : Node) → t < n.next_send_tick → should_send t n ≡ false
unfolding should_send
not_due t n h = elim (Bool-cases (relays_only n.profile)) [
  | inl relay ↦ rw relay refl
  | inr other ↦ elim (Bool-cases (is_online n.status)) [
    | inl online ↦ ground arith
    | inr offline ↦ rw (other, offline) refl
  ]
]

-- After `scheduleNextSend` at a tick, while every draw is below its bound, the node does not send
-- before the least delay of its profile has passed, whatever its state; and it is due at the latest
-- when the greatest has passed, with 349 ticks more at the start of the simulation.
schedule_next_send_lem :
    (intn : ℕ → ℕ) (now t : ℕ) (n : Node)
    → ((k : ℕ) → 0 < k → intn k < k)
    → t < now + min_ticks n.profile
    → let n' = schedule_next_send intn now n in
      (should_send t n' ≡ false)
      × (n'.next_send_tick ≤ (if ltb 0 now then now else 349) + max_ticks n.profile)
unfolding schedule_next_send
schedule_next_send_lem intn now t n draws early =
    let spread = draws (max_ticks n.profile - min_ticks n.profile + 1) (omega arith) in
    let first = draws 300 (omega arith) in
    let order = min-le-max n.profile in
    (
      not_due t (schedule_next_send intn now n) (omega (arith, early)),
      ground (arith, spread, first, order),
    )
