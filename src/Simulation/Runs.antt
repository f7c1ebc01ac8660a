-- ===== src/Simulation/Runs.antt =====
-- A world of three nodes in a row, with a toy float64 of natural numbers, and the theorems at it.
use relaymeshnet.Base.{ℕ, suc, ◌+◌, ◌-◌, ◌*◌, ◌/◌, ◌≡◌, refl, arith}
use relaymeshnet.Base.{bytes_eq, true, false, not, ◌||◌, ltb, leb, if◌then◌else◌}
use relaymeshnet.Base.{List, [], ◌∷◌, Option, none, some, map, select, length}
use relaymeshnet.Base.Int.{ℤ, pos, negsuc}
use relaymeshnet.Base.Float.{Float}
use relaymeshnet.Crypto.Identity.{encode_hex}
use relaymeshnet.Simulation.Config.{Config, default_config}
use relaymeshnet.Simulation.World.{
  World, ActiveMsg, Transmission, msg_text, new_world, has_connection,
}
use relaymeshnet.Simulation.Path.{peer_of, find_path, find_path_direct}
use relaymeshnet.Simulation.Flight.Waiting.{advance_n, in_flight, arrives}
use relaymeshnet.Simulation.Flight.Delivery.{deliver_n, deliver_n_lem}
use relaymeshnet.Simulation.Flight.Acks.{IsLaunched, hops, last_ack, last_ack-advance_n}
use relaymeshnet.Simulation.Collision.{check_collisions}
use relaymeshnet.Simulation.Collision.Clear.{IsClear, check_collisions-IsClear}
use relaymeshnet.Simulation.Collision.Counts.{live_at, check_collisions-counts}
use relaymeshnet.Simulation.Scenario.{Draws, drawn_node, partition}
use relaymeshnet.Simulation.Scenario.Regions.{Between, Sweeps, partition-Sweeps}
use relaymeshnet.Simulation.Scenario.Switching.{AllMarked}
use relaymeshnet.Simulation.Steps.Reach.{starts, runs, partitions, Simulated-AllMarked}
use relaymeshnet.Simulation.Sending.{SendDraws}
use relaymeshnet.Simulation.Sending.Routes.{IsRoute}
use relaymeshnet.Simulation.Dispatch.{send_msg}
use relaymeshnet.Simulation.Dispatch.Launch.{IsUnderWay, send_msg-IsRoute}
use relaymeshnet.Simulation.Steps.{TrafficDraws, TransferDraws, StepDraws, run_steps}
use relaymeshnet.Simulation.Steps.Draining.{run_steps-drains}
use relaymeshnet.Simulation.Steps.Invariant.{AllUnderWay, run_steps-AllUnderWay}

abbrev absolute : ℤ → ℕ
absolute (pos n) = n
absolute (negsuc n) = suc n

abbrev toy_float : Float
toy_float = record {
  F = ℕ;
  zero_float = 0;
  debt_limit = 0;
  plus = λ x y. x + y;
  minus = λ x y. x - y;
  less = ltb;
  greater_eq = λ x y. leb y x;
  times = λ x y. x * y;
  over = λ x y. x / y;
  negate = λ x. 0;
  exp = λ x. x;
  sqrt = λ x. x / 20;
  max_float = λ x y. if ltb x y then y else x;
  ceil = λ x. x;
  of_nat = λ n. n;
  ratio = λ n m. n / m;
  ln2 = 1;
  log10 = λ x. x;
  pow = λ x y. x;
  abs_float = λ x. x;
  of_int = absolute;
  truncate = λ x. pos x;
  tick_exponent = 1;
}

abbrev toy_hash : List ℕ → List ℕ
toy_hash bs = bs

abbrev three : Config toy_float
three = record (default_config toy_float) { grid_width = 3; grid_height = 1 }

abbrev toy_draws : ℕ → ℕ → Draws toy_float
toy_draws x y = record {
  id = x ∷ y ∷ [];
  profile_draw = 0;
  send_intn = λ k. 0;
  status_intn = λ k. 0;
  status_draw = 7;
}

abbrev row : World toy_float
row = new_world toy_float three (λ x y. drawn_node toy_float (toy_draws x y) x y)

abbrev no_draws : SendDraws toy_float toy_hash
no_draws = record { path_intn = λ k. 0; relay_intn = λ j k. 0; emission_draw = 0 }

find_path_direct_example : find_path toy_float toy_hash (λ k. 0) row 0 2 (0 ∷ 1 ∷ 2 ∷ []) ≡ (
    if has_connection toy_float row 0 2
    then peer_of toy_float toy_hash row 0 ∷ peer_of toy_float toy_hash row 2 ∷ []
    else [])
find_path_direct_example = find_path_direct toy_float toy_hash (λ k. 0) row 0 2 (0 ∷ 1 ∷ 2 ∷ [])

abbrev letter : ActiveMsg
letter = record {
  id = 1 ∷ [];
  from = 1 ∷ [];
  to = 2 ∷ [];
  path = (1 ∷ []) ∷ (3 ∷ []) ∷ (2 ∷ []) ∷ [];
  remaining = 3;
  total = 3;
  size = 100;
  msg_type = msg_text;
  acks = false ∷ false ∷ [];
  collided = false;
}

letter-IsLaunched : IsLaunched letter
letter-IsLaunched = record {
  has_hops = omega arith;
  one_each = refl;
  in_time = omega arith;
  takes_time = omega arith;
}

last_ack-advance_n_example :
    last_ack (advance_n 2 letter) ≡ (last_ack letter || ltb ((3 - 2) * hops letter) 3)
last_ack-advance_n_example = last_ack-advance_n 1 letter letter-IsLaunched

abbrev busy : World toy_float
busy = record row { active_messages = letter ∷ record letter { collided = true } ∷ [] }

deliver_n_lem_example :
    let w' = deliver_n toy_float toy_hash 2 busy in
    (w'.active_messages ≡ map (advance_n 2) (select (in_flight 2) busy.active_messages))
    × (w'.total_received ≡ busy.total_received + length (select (arrives 2) busy.active_messages))
deliver_n_lem_example = deliver_n_lem toy_float toy_hash 1 busy

abbrev on_air : ℕ → ℕ → ℕ → Transmission
on_air p start end = record {
  msg_id = p ∷ [];
  from_node = p;
  start_tick = start;
  end_tick = end;
  sf = 9;
}

abbrev noisy : World toy_float
noisy = record row {
  tick = 5;
  active_transmissions = on_air 0 1 6 ∷ on_air 1 2 7 ∷ on_air 2 0 4 ∷ [];
}

check_collisions-IsClear_example :
    let w' = check_collisions toy_float noisy in IsClear toy_float w' w'.active_transmissions
check_collisions-IsClear_example = check_collisions-IsClear toy_float noisy

check_collisions-counts_example :
    let w' = check_collisions toy_float noisy in
    let kept = length w'.active_transmissions in
    let live = length (live_at toy_float 5 noisy.active_transmissions) in
    (w'.total_collisions + 2 * kept ≡ noisy.total_collisions + 2 * live)
    × (w'.total_failed + 2 * kept ≡ noisy.total_failed + 2 * live)
check_collisions-counts_example = check_collisions-counts toy_float noisy

abbrev quiet_traffic : TrafficDraws toy_float toy_hash
quiet_traffic = record {
  target_intn = λ i k. i;
  path_intn = λ i k. 0;
  text_intn = λ k. 0;
  file_draw = 1;
  file_intn = λ k. 0;
  cost_intn = λ k. 0;
  send = no_draws;
  next_intn = λ k. 0;
}

abbrev quiet_transfer : TransferDraws toy_float toy_hash
quiet_transfer = record { starts = 1; payee_intn = λ i k. 0; share = 0; route_intn = λ k. 0 }

abbrev step_draws : ℕ → StepDraws toy_float toy_hash
step_draws s = record {
  status_intn = λ p k. 0;
  traffic_draws = λ p. quiet_traffic;
  transfer_draws = λ p. quiet_transfer;
}

letter-IsUnderWay : IsUnderWay letter
letter-IsUnderWay = record {
  launched = letter-IsLaunched;
  to_go = omega arith;
  bounded = omega arith;
}

run_steps-AllUnderWay_example :
    AllUnderWay toy_float toy_hash
      (run_steps toy_float toy_hash step_draws 2 (record row { active_messages = letter ∷ [] }))
run_steps-AllUnderWay_example =
    run_steps-AllUnderWay toy_float toy_hash step_draws 2
      (record row { active_messages = letter ∷ [] }) (letter-IsUnderWay, tt)

abbrev first_of : Option ActiveMsg → ActiveMsg
first_of none = letter
first_of (some msg) = msg

abbrev sent_letter : ActiveMsg
sent_letter =
    first_of
      (send_msg toy_float toy_hash no_draws row 0 1 msg_text 100 (0 ∷ 1 ∷ 2 ∷ [])
        (0 ∷ 1 ∷ 2 ∷ [])).1

sent :
    (send_msg toy_float toy_hash no_draws row 0 1 msg_text 100 (0 ∷ 1 ∷ 2 ∷ []) (0 ∷ 1 ∷ 2 ∷ [])).1
    ≡ some sent_letter
unfolding send_msg new_world drawn_node default_config bytes_eq encode_hex
sent = refl

send_msg-IsRoute_example :
    (has_connection toy_float row 0 1 ≡ true)
    × IsRoute toy_float toy_hash row 0 1 1 sent_letter.path
    × IsUnderWay sent_letter
    × (sent_letter.remaining ≡ sent_letter.total)
    × (sent_letter.collided ≡ false)
unfolding new_world default_config
send_msg-IsRoute_example =
    send_msg-IsRoute toy_float toy_hash no_draws row 0 1 msg_text 100 (0 ∷ 1 ∷ 2 ∷ [])
      (0 ∷ 1 ∷ 2 ∷ []) sent_letter (λ j k h. h) sent

partition-Sweeps_example :
    Sweeps toy_float true
      (Between toy_float true 0 0 1 0)
      row
      (partition toy_float 0 0 1 0 true row)
partition-Sweeps_example = partition-Sweeps toy_float true 0 0 1 0 row

run_steps-drains_example :
    let w = run_steps toy_float toy_hash step_draws 2 row in
    let w' = deliver_n toy_float toy_hash 3000 w in
    (w'.active_messages ≡ [])
    × (w'.total_received
        ≡ w.total_received + length (select (λ m. not m.collided) w.active_messages))
run_steps-drains_example =
    run_steps-drains toy_float toy_hash three (λ x y. drawn_node toy_float (toy_draws x y) x y)
      step_draws 2

Simulated-AllMarked_example :
    AllMarked toy_float
      (partition toy_float 0 0 1 0 true (run_steps toy_float toy_hash step_draws 2 row))
Simulated-AllMarked_example =
    Simulated-AllMarked toy_float toy_hash three toy_draws _
      (partitions 0 0 1 0 true _ (runs step_draws 2 row starts))
