-- ===== src/Simulation/Signal.antt =====
-- The formulas of simulation/radio.go over float64, each in the order of its operations.
use relaymeshnet.Base.{ℕ, ◌-◌, ◌*◌, if◌then◌else◌, ◌==◌, leb}
use relaymeshnet.Base.Int.{ℤ, pos, negsuc}
use relaymeshnet.Base.Float.{Float}
use relaymeshnet.Simulation.Config.{seconds_per_tick}
use relaymeshnet.Simulation.Radio.{sf7, sf9, sf12}

-- An int that is not below 1.
abbrev pub at_least_one : ℤ → ℕ
at_least_one (pos n) = if leb 1 n then n else 1
at_least_one (negsuc n) = 1

module _ (float : Float) where
  pub record RadioModel : Type 0 where
    pub tx_power : float.F
    pub frequency : float.F
    pub sensitivity : float.F

  unfoldable pub new_wifi_radio : RadioModel
  new_wifi_radio = record {
    tx_power = float.ratio 20 1;
    frequency = float.ratio 2400 1;
    sensitivity = float.negate (float.ratio 90 1);
  }

  unfoldable pub new_lora_radio : RadioModel
  new_lora_radio = record {
    tx_power = float.ratio 14 1;
    frequency = float.ratio 868 1;
    sensitivity = float.negate (float.ratio 137 1);
  }

  unfoldable pub path_loss : RadioModel → float.F → float.F
  path_loss r distance_km =
      let d =
        if float.less distance_km (float.ratio 1 1000) then float.ratio 1 1000 else distance_km in
      float.plus
        (float.plus (float.times (float.ratio 20 1) (float.log10 d))
          (float.times (float.ratio 20 1) (float.log10 r.frequency)))
        (float.ratio 3245 100)

  unfoldable pub wall_loss : ℕ → ℕ → float.F → float.F → float.F
  wall_loss walls floors wall_atten floor_atten =
      float.plus (float.times (float.of_nat walls) wall_atten)
        (float.times (float.of_nat floors) floor_atten)

  unfoldable pub snr : RadioModel → float.F → ℕ → ℕ → float.F → float.F → float.F → float.F
  unfolding path_loss wall_loss
  snr r distance_meters walls floors wall_atten floor_atten noise_floor =
      let loss = path_loss r (float.over distance_meters (float.ratio 1000 1)) in
      let rx_power =
        float.minus (float.minus r.tx_power loss) (wall_loss walls floors wall_atten floor_atten) in
      float.minus rx_power noise_floor

  unfoldable pub packet_success_rate : float.F → float.F
  packet_success_rate s = float.over (float.ratio 1 1) (
      float.plus (float.ratio 1 1) (
        float.exp (float.times (float.negate (float.ratio 1 2)) (float.minus s (float.ratio 3 1)))))

  unfoldable pub bitrate : ℕ → float.F
  bitrate sf =
      if sf == sf7
      then float.ratio 5470 1
      else (if sf == sf9 then float.ratio 1760 1 else float.ratio 293 1)

  unfoldable pub air_time : ℕ → ℕ → float.F
  air_time sf bytes =
      let top =
        float.plus
          (float.minus (float.times (float.ratio 8 1) (float.of_nat bytes))
            (float.times (float.ratio 4 1) (float.of_nat sf)))
          (float.ratio 28 1) in
      let blocks = float.ceil (float.over top (float.of_nat (4 * (sf - 2)))) in
      let symbols = float.plus (float.ratio 8 1) (
        float.max_float (float.over (float.times blocks (float.of_nat 5)) (float.ratio 4 1))
          (float.ratio 0 1)) in
      let duration =
        float.over (float.pow (float.ratio 2 1) (float.of_nat sf)) (float.ratio 125000 1) in
      float.times symbols duration

  unfoldable pub duty_cycle_delay : float.F → float.F → float.F
  duty_cycle_delay air duty_cycle = float.over air duty_cycle

  unfoldable pub air_time_ticks : ℕ → ℕ → ℕ
  unfolding air_time
  air_time_ticks sf bytes =
      at_least_one (float.truncate (float.over (air_time sf bytes) (seconds_per_tick float)))

  unfoldable pub relay_multiplier : ℕ → float.F
  relay_multiplier sf =
      if sf == sf7
      then float.ratio 1 1
      else (if sf == sf9
          then float.ratio 3 2
          else (if sf == sf12 then float.ratio 3 1 else float.ratio 1 1))

  unfoldable pub wifi_relay_multiplier : float.F
  wifi_relay_multiplier = float.ratio 1 10
