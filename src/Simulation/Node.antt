-- ===== src/Simulation/Node.antt =====
-- Node of simulation/node.go. The fields of its schedule are the record of Simulation/Schedule; the
-- name, RelayBytesIn and the mutex are left out. `cfg` is the configuration the node points to.
use relaymeshnet.Base.{ℕ, ◌+◌, ◌-◌, ◌*◌, List, take, ltb, if◌then◌else◌}
use relaymeshnet.Base.Int.{ℤ, pos, negsuc, sub_ℕ}
use relaymeshnet.Base.Float.{Float}
use relaymeshnet.Crypto.Identity.{encode_hex}
use relaymeshnet.Simulation.Config.{Config, seconds_per_tick}
use relaymeshnet.Simulation.Radio.{sf7, sf9, sf12, max_payload, fragments_needed}
use relaymeshnet.Simulation.Schedule
use relaymeshnet.Simulation.Schedule.{NodeStatus, status_online, status_offline, is_online}
use relaymeshnet.Simulation.Schedule.{
  BehaviorProfile, profile_chatter, profile_normal, profile_lurker,
}
use relaymeshnet.Simulation.Schedule.{profile_relay_only, profile_unstable}
use relaymeshnet.Simulation.Schedule.{schedule_next_send, schedule_next_status}
use relaymeshnet.Simulation.Signal.{RadioModel, snr, air_time, duty_cycle_delay}

-- -1
abbrev pub minus_one : ℤ
minus_one = negsuc 0

-- Between 1 and 3000.
abbrev pub clamp_ticks : ℤ → ℕ
clamp_ticks (pos n) = if ltb n 1 then 1 else (if ltb 3000 n then 3000 else n)
clamp_ticks (negsuc n) = 1

abbrev pub at_least_two : ℤ → ℤ
at_least_two (pos n) = if ltb n 2 then pos 2 else pos n
at_least_two (negsuc n) = pos 2

module _ (float : Float) where
  pub record Node : Type 0 where
    pub id : List ℕ
    pub x : ℕ
    pub y : ℕ
    pub schedule : Schedule.Node
    pub offline_since : ℤ
    pub uptime : float.F
    pub balance : float.F
    pub locked_out : float.F
    pub reputation : float.F
    pub ewma_work : float.F
    pub relay_bytes_out : float.F
    pub storage_bytes : float.F
    pub storage_hours : float.F
    pub sent_count : ℕ
    pub received_count : ℕ
    pub failed_count : ℕ
    pub file_sent : ℕ
    pub file_received : ℕ
    pub collided_count : ℕ

  -- `PeerID`
  abbrev pub peer_id : (List ℕ → List ℕ) → Node → List ℕ
  peer_id hash n = encode_hex (take 16 (hash n.id))

  unfoldable pub random_profile : float.F → BehaviorProfile
  random_profile r =
      if float.less r (float.ratio 10 100)
      then profile_chatter
      else (if float.less r (float.ratio 55 100)
          then profile_normal
          else (if float.less r (float.ratio 75 100)
              then profile_lurker
              else (if float.less r (float.ratio 85 100)
                  then profile_relay_only
                  else profile_unstable)))

  -- The draws are those of the id's text, the profile, the two schedules and the status.
  unfoldable pub new_node : List ℕ → float.F → (ℕ → ℕ) → (ℕ → ℕ) → float.F → ℕ → ℕ → Node
  unfolding random_profile schedule_next_send schedule_next_status
  new_node id profile_draw send_intn status_intn status_draw x y =
      let fresh : Schedule.Node = record {
        status = status_online;
        profile = random_profile profile_draw;
        last_send_tick = negsuc 9998;
        next_send_tick = 0;
        next_status_tick = 0;
      } in
      let planned = schedule_next_status status_intn 0 (schedule_next_send send_intn 0 fresh) in
      let zero_float = float.zero_float in
      record {
        id = id;
        x = x;
        y = y;
        schedule =
            if float.less status_draw (float.ratio 5 100)
            then record planned { status = status_offline }
            else planned;
        offline_since = minus_one;
        uptime = zero_float;
        balance = zero_float;
        locked_out = zero_float;
        reputation = zero_float;
        ewma_work = zero_float;
        relay_bytes_out = zero_float;
        storage_bytes = zero_float;
        storage_hours = zero_float;
        sent_count = 0;
        received_count = 0;
        failed_count = 0;
        file_sent = 0;
        file_received = 0;
        collided_count = 0;
      }

  unfoldable pub available : Node → float.F
  available n = float.minus n.balance n.locked_out

  unfoldable pub credit_limit : Node → float.F
  credit_limit n =
      float.times (float.ratio 20 1) (float.sqrt (float.max_float n.reputation (float.ratio 1 100)))

  unfoldable pub effective_sf : float.F → ℕ
  effective_sf s =
      if float.less (float.ratio 5 1) s
      then sf7
      else (if float.less (float.negate (float.ratio 5 1)) s then sf9 else sf12)

  abbrev pub onion_packet_size : ℕ → ℕ
  onion_packet_size message_bytes = message_bytes + 185

  -- The fragments, the air time of one of them, and the spreading factor.
  unfoldable pub fragments_for :
      Config float → ℕ → RadioModel float → float.F → ℕ → ℕ → ℕ × float.F × ℕ
  unfolding effective_sf snr fragments_needed max_payload air_time
  fragments_for cfg message_bytes radio dist walls floors =
      let s = snr float radio dist walls floors cfg.wall_atten cfg.floor_atten cfg.noise_floor in
      let sf = effective_sf s in
      let pkt = onion_packet_size message_bytes in
      let frag_size = if ltb pkt (max_payload sf) then pkt else max_payload sf in
      (fragments_needed pkt sf, air_time float sf frag_size, sf)

  unfoldable pub delivery_ticks : Config float → ℕ → RadioModel float → float.F → ℕ → ℕ → ℕ
  unfolding fragments_for duty_cycle_delay
  delivery_ticks cfg message_bytes radio dist walls floors =
      let f = fragments_for cfg message_bytes radio dist walls floors in
      let total_air = float.times f.1 (float.of_nat f.0) in
      let delay = duty_cycle_delay float total_air (float.ratio 1 100) in
      clamp_ticks (float.truncate (float.over delay (seconds_per_tick float)))

  unfoldable pub confirm_n_required : Config float → ℕ → ℕ → ℤ
  confirm_n_required cfg msg_bytes hops =
      if ltb cfg.confirm_threshold msg_bytes
      then minus_one
      else at_least_two (
          float.truncate (
            float.ceil
              (float.over (float.of_nat (hops * msg_bytes)) (float.of_nat cfg.relay_chunk_size))))

  -- The part of `Tick` that holds also for a node that is offline.
  unfoldable pub demur : Node → Node
  demur n =
      let base = float.ratio 22 100000000 in
      let rate = if is_online n.schedule.status then base else float.times base (float.ratio 2 1) in
      let left = float.minus n.reputation (float.times n.reputation rate) in
      record n { reputation = if float.less left (float.ratio 0 1) then float.ratio 0 1 else left }

  unfoldable pub reward_storage : Config float → Node → Node
  reward_storage cfg n =
      let reward =
        float.over
          (float.times
            (float.times (float.over n.storage_bytes (float.ratio 1048576 1)) cfg.storage_reward)
            (seconds_per_tick float))
          (float.ratio 3600 1) in
      if float.less (float.ratio 0 1) n.storage_bytes
      then record n {
        balance = float.plus n.balance reward;
        ewma_work = float.plus n.ewma_work (float.times reward (float.ratio 1 100));
        storage_hours = float.plus n.storage_hours (float.ratio 1 30000);
      }
      else n

  unfoldable pub tick : Config float → Node → Node
  unfolding demur reward_storage
  tick cfg n =
      let m = demur n in
      let aged : Node = record m {
        uptime = float.plus m.uptime (float.ratio 1 30000);
        ewma_work = float.times m.ewma_work (float.exp float.tick_exponent);
      } in
      if is_online n.schedule.status then reward_storage cfg aged else m

  unfoldable pub add_relay_work : Config float → float.F → float.F → Node → Node
  add_relay_work cfg bytes multiplier n =
      let reward =
        float.times
          (float.times (float.over bytes (float.of_nat cfg.relay_chunk_size)) cfg.relay_reward)
          multiplier in
      let burn = float.times reward cfg.burn_rate in
      record n {
        relay_bytes_out = float.plus n.relay_bytes_out bytes;
        balance = float.plus n.balance (float.minus reward burn);
        ewma_work = float.plus n.ewma_work bytes;
      }

  unfoldable pub update_reputation : Node → Node
  update_reputation n = record n { reputation = float.over n.ewma_work (float.ratio 168 1) }

  unfoldable pub distance_to : Node → Node → float.F → float.F → float.F
  distance_to n other cw ch =
      let dx = float.times (float.of_int (sub_ℕ n.x other.x)) cw in
      let dy = float.times (float.of_int (sub_ℕ n.y other.y)) ch in
      float.sqrt (float.plus (float.times dx dx) (float.times dy dy))

  -- The distance of two coordinates: the conversions to float64 and back are exact.
  abbrev pub apart : ℕ → ℕ → ℕ
  apart a b = (a - b) + (b - a)

  unfoldable pub walls_between : Node → Node → ℕ × ℕ
  walls_between n other = (apart n.x other.x, apart n.y other.y)
