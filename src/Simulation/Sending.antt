-- ===== src/Simulation/Sending.antt =====
-- World.sendMsg, findRandomRelay and deliveryTicks of simulation/world.go.
pub mod Routes
use relaymeshnet.Base.{ℕ, zero, suc, ◌+◌, ◌-◌, ◌*◌, Bool, true, false, ◌&&◌, ◌||◌, not}
use relaymeshnet.Base.{
  List, [], ◌∷◌, ◌++◌, Option, none, some, select, length, take, drop, get_or, replicate,
}
use relaymeshnet.Base.{ltb, leb, ◌==◌, bytes_eq, if◌then◌else◌}
use relaymeshnet.Base.Int.{ℤ, pos, negsuc, ◌+ℤ◌}
use relaymeshnet.Base.Float.{Float}
use relaymeshnet.Simulation.Config.{seconds_per_tick}
use relaymeshnet.Simulation.Schedule.{is_online}
use relaymeshnet.Simulation.Signal.{
  at_least_one, new_lora_radio, air_time_ticks, relay_multiplier, wifi_relay_multiplier,
}
use relaymeshnet.Simulation.Node.{
  Node, clamp_ticks, available, credit_limit, distance_to, walls_between,
}
use relaymeshnet.Simulation.Node.{fragments_for, confirm_n_required, add_relay_work}
use relaymeshnet.Simulation.Node
use relaymeshnet.Simulation.World.{World, ActiveMsg, MsgType, is_file, msg_text, msg_file, write}
use relaymeshnet.Simulation.World.{has_connection, wifi_reaches, in_lora_range}
use relaymeshnet.Simulation.Path.{peer_of, same_peer, find_path}
use relaymeshnet.Simulation.Collision.{add_transmission}

module _ (float : Float) (hash : List ℕ → List ℕ) where
  -- The draws of one call: of the path, of the `i`-th forced relay, and of the emission.
  pub record SendDraws : Type 0 where
    pub path_intn : ℕ → ℕ
    pub relay_intn : ℕ → ℕ → ℕ
    pub emission_draw : float.F

  abbrev pub holds : List (List ℕ) → List ℕ → Bool
  holds [] id = false
  holds (k ∷ ks) id = bytes_eq k id || holds ks id

  unfoldable pub is_candidate : World float → ℕ → ℕ → List (List ℕ) → ℕ → Bool
  unfolding has_connection
  is_candidate w from to exclude n =
      let near_from = has_connection float w from n in
      let near_to = has_connection float w n to in
      if holds exclude (peer_of float hash w n)
      then false
      else (if same_peer float hash w n from || same_peer float hash w n to
          then false
          else (if near_from && near_to then false else near_from || near_to))

  unfoldable pub find_random_relay :
      (ℕ → ℕ) → World float → ℕ → ℕ → List ℕ → List (List ℕ) → Option ℕ
  unfolding is_candidate
  find_random_relay intn w from to online exclude =
      let candidates = select (is_candidate w from to exclude) online in
      if length candidates == 0
      then none
      else some (get_or candidates (intn (length candidates)) from)

  -- The new path has the relay before its end.
  abbrev pub insert_relay : List ℕ → List ℕ → List (List ℕ) → List (List ℕ)
  insert_relay relay to path = take (length path - 1) path ++ relay ∷ to ∷ []

  -- The loop from `i` on, with `count` rounds left.
  unfoldable pub force_relays :
      (ℕ → ℕ → ℕ) → World float → ℕ → ℕ → List ℕ → ℕ → ℕ → List (List ℕ) → List (List ℕ)
  unfolding find_random_relay
  force_relays intn w from to online i zero path = path
  force_relays intn w from to online i (suc count) path =
      let path' : List (List ℕ) = elim (find_random_relay (intn i) w from to online path) [
        | none ↦ path
        | some relay ↦ insert_relay (peer_of float hash w relay) (peer_of float hash w to) path
      ] in
      force_relays intn w from to online (suc i) count path'

  -- The path that a message takes, if it can be sent.
  unfoldable pub send_path : SendDraws → World float → ℕ → ℕ → List ℕ → Option (List (List ℕ))
  unfolding find_path force_relays
  send_path draws w from to online =
      let path = find_path float hash draws.path_intn w from to online in
      let rc = length path - 2 in
      let least = w.config.min_relay_hops in
      if not (is_online (w.store from).schedule.status)
        || not (is_online (w.store to).schedule.status)
      then none
      else (if ltb (length path) 2
          then none
          else some (
              if ltb rc least
              then force_relays draws.relay_intn w from to online 0 (least - rc) path
              else path))

  -- The cost leaves the balance of the sender, and is counted in hundredths.
  unfoldable pub debit : World float → ℕ → float.F → World float
  debit w from cost =
      let burn = float.times cost w.config.burn_rate in
      let hundred = float.ratio 100 1 in
      record (write float from (λ m. record m { balance = float.minus m.balance cost }) w) {
        total_relay = w.total_relay +ℤ float.truncate (float.times (float.minus cost burn) hundred);
        total_burn = w.total_burn +ℤ float.truncate (float.times burn hundred);
      }

  -- What a message without confirmation costs the sender; none when it cannot pay.
  unfoldable pub pay : World float → ℕ → ℕ → ℕ → Option (World float)
  unfolding available credit_limit debit
  pay w from mb rc =
      let cfg = w.config in
      let n = w.store from in
      let cost =
        float.times (float.over (float.of_nat (rc * mb)) (float.of_nat cfg.relay_chunk_size))
          cfg.send_cost in
      let costs = float.less (float.ratio 0 1) cost in
      if costs
        && float.less (available float n) cost
        && float.less (float.minus n.balance cost) (float.negate (credit_limit float n))
      then none
      else some (if costs then debit w from cost else w)

  unfoldable pub emit : float.F → World float → ℕ → ℕ → World float
  emit draw w from cn =
      let cfg = w.config in
      let emission = float.times (float.of_nat cn) cfg.emission_rate in
      let emits = float.less draw (float.ratio 4 5) in
      let credited : World float =
        if emits
        then record (write float from (λ m. record m { balance = float.plus m.balance emission })
            w) {
              total_emission =
                  w.total_emission +ℤ float.truncate (float.times emission (float.ratio 100 1));
            }
        else w in
      record (write float from
        (λ m. record m {
          ewma_work = float.plus m.ewma_work (float.of_nat (cn * cfg.relay_chunk_size));
        })
        credited) { total_relayed = w.total_relayed + cn }

  -- The tests on the number of confirmations, which is -1 or positive.
  unfoldable pub charge_for : float.F → World float → ℕ → ℕ → ℕ → ℤ → Option (World float)
  unfolding pay emit
  charge_for draw w from mb rc (negsuc _) = pay w from mb rc
  charge_for draw w from mb rc (pos cn) = some (if ltb 0 cn then emit draw w from cn else w)

  unfoldable pub charge : float.F → World float → ℕ → ℕ → ℕ → Option (World float)
  unfolding confirm_n_required charge_for
  charge draw w from mb rc =
      charge_for draw w from mb rc
        (confirm_n_required float w.config mb (if ltb rc 1 then 1 else rc))

  unfoldable pub delivery_ticks : World float → ℕ → ℕ → ℕ → ℕ → ℕ
  unfolding wifi_reaches Node.delivery_ticks distance_to walls_between new_lora_radio
  delivery_ticks w from to mb relay_count =
      let cfg = w.config in
      let a = w.store from in
      let b = w.store to in
      let (walls, floors) = walls_between float a b in
      let hop_time = float.times (float.of_nat cfg.default_hops) (float.ratio 1 2) in
      let ticks =
        if wifi_reaches float w a b
        then at_least_one (float.truncate (float.over hop_time (seconds_per_tick float)))
        else Node.delivery_ticks float cfg mb (new_lora_radio float)
            (distance_to float a b cfg.cell_width cfg.cell_height) walls floors in
      ticks * (relay_count + 1)

  -- Only a transmission of at most 20 ticks is put on the air.
  unfoldable pub put_on_air : List ℕ → ℕ → ℕ → ℕ → World float → World float
  unfolding add_transmission
  put_on_air msg_id from air_ticks sf w =
      if ltb 0 air_ticks && leb air_ticks 20
      then add_transmission float msg_id from air_ticks sf w
      else w

  -- Whether the message goes by LoRa: too far for WiFi, and in range.
  unfoldable pub goes_by_lora : World float → Node float → Node float → Bool
  unfolding distance_to
  goes_by_lora w a b =
      let dist = distance_to float a b w.config.cell_width w.config.cell_height in
      not (float.greater_eq w.config.wifi_range dist) && in_lora_range float w a b

  -- The fragments of the message between the two nodes, their air time and spreading factor.
  abbrev pub lora_fragments : World float → Node float → Node float → ℕ → ℕ × float.F × ℕ
  lora_fragments w a b mb =
      let cfg = w.config in
      let (walls, floors) = walls_between float a b in
      fragments_for float cfg mb (new_lora_radio float)
        (distance_to float a b cfg.cell_width cfg.cell_height) walls floors

  -- The multiplier of the relays' reward, and the transmission when the channel is LoRa.
  unfoldable pub transmit : List ℕ → ℕ → ℕ → ℕ → World float → float.F × World float
  unfolding wifi_reaches goes_by_lora fragments_for air_time_ticks relay_multiplier
      wifi_relay_multiplier put_on_air
  transmit msg_id from to mb w =
      let a = w.store from in
      let b = w.store to in
      let (frags, air, sf) = lora_fragments w a b mb in
      let multiplier =
        if goes_by_lora w a b
        then relay_multiplier float sf
        else (if wifi_reaches float w a b then wifi_relay_multiplier float else float.ratio 1 1) in
      let w' =
        if goes_by_lora w a b
        then put_on_air msg_id from (air_time_ticks float sf mb) sf w
        else w in
      (multiplier, w')
