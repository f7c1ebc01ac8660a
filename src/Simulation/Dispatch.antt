-- ===== src/Simulation/Dispatch.antt =====
-- World.sendMsg of simulation/world.go as a whole, and the calls that send by it: SendFileInternal,
-- SendMulticast, SendFirmwareUpdate, LoadTest and the traffic of RunSteps.
pub mod Launch
use relaymeshnet.Base.{ℕ, zero, suc, ◌+◌, ◌-◌, ◌*◌, Bool, true, false, ◌&&◌, ◌||◌, not}
use relaymeshnet.Base.{
  List, [], ◌∷◌, ◌++◌, Option, none, some, length, take, drop, replicate, get_or,
}
use relaymeshnet.Base.{ltb, leb, bytes_eq, if◌then◌else◌}
use relaymeshnet.Base.Int.{ℤ, pos, sub_ℕ}
use relaymeshnet.Base.Float.{Float}
use relaymeshnet.Simulation.Schedule.{is_online}
use relaymeshnet.Simulation.Node.{Node, clamp_ticks, add_relay_work}
use relaymeshnet.Simulation.World.{
  World, ActiveMsg, MsgType, is_file, msg_text, msg_file, msg_multicast, msg_firmware,
}
use relaymeshnet.Simulation.World.{write, has_connection, all_nodes, online_nodes}
use relaymeshnet.Simulation.Path.{peer_of, same_peer}
use relaymeshnet.Simulation.Sending.{SendDraws, send_path, charge, delivery_ticks, transmit}

module _ (float : Float) (hash : List ℕ → List ℕ) where
  -- The reward of the first node that has the id.
  unfoldable pub reward_relay : List ℕ → ℕ → float.F → List ℕ → World float → World float
  unfolding add_relay_work
  reward_relay id mb multiplier [] w = w
  reward_relay id mb multiplier (p ∷ ps) w =
      if bytes_eq (peer_of float hash w p) id
      then write float p (add_relay_work float w.config (float.of_nat mb) multiplier) w
      else reward_relay id mb multiplier ps w

  unfoldable pub reward_relays : List (List ℕ) → ℕ → float.F → List ℕ → World float → World float
  unfolding reward_relay
  reward_relays [] mb multiplier all w = w
  reward_relays (id ∷ ids) mb multiplier all w =
      reward_relays ids mb multiplier all (reward_relay id mb multiplier all w)

  -- `from.PeerID()[:8] + "-" + to.PeerID()[:8]`
  abbrev pub msg_id_of : World float → ℕ → ℕ → List ℕ
  msg_id_of w from to =
      take 8 (peer_of float hash w from) ++ (45 ∷ take 8 (peer_of float hash w to))

  -- `path[1 : len(path)-1]`
  abbrev pub between : List (List ℕ) → List (List ℕ)
  between path = drop 1 (take (length path - 1) path)

  unfoldable pub new_message : World float → ℕ → ℕ → MsgType → ℕ → List (List ℕ) → ActiveMsg
  unfolding delivery_ticks
  new_message w from to kind mb path =
      let ticks = clamp_ticks (pos (delivery_ticks float hash w from to mb (length path - 2))) in
      record {
        id = msg_id_of w from to;
        from = peer_of float hash w from;
        to = peer_of float hash w to;
        path = path;
        remaining = ticks;
        total = ticks;
        size = mb;
        msg_type = if is_file kind then msg_file else msg_text;
        acks = replicate (length path - 1) false;
        collided = false;
      }

  -- What follows the charge.
  unfoldable pub launch :
      World float → ℕ → ℕ → MsgType → ℕ → List (List ℕ) → List ℕ → World float × Option ActiveMsg
  unfolding new_message transmit reward_relays
  launch w from to kind mb path all =
      let (multiplier, w1) = transmit float hash (msg_id_of w from to) from to mb w in
      (reward_relays (between path) mb multiplier all w1, some (new_message w from to kind mb path))

  unfoldable pub send_msg :
      SendDraws float hash
      → World float
      → ℕ
      → ℕ
      → MsgType
      → ℕ
      → List ℕ
      → List ℕ
      → World float × Option ActiveMsg
  unfolding send_path charge launch
  send_msg draws w from to kind mb online all = elim (send_path float hash draws w from to online) [
    | none ↦ (w, none)
    | some path ↦ elim (charge float hash draws.emission_draw w from mb (length path - 2)) [
      | none ↦ (w, none)
      | some w' ↦ launch w' from to kind mb path all
    ]
  ]

  -- What a caller does with a message: the counts of the sender, and the message becomes active.
  unfoldable pub post : ℕ → Bool → ActiveMsg → World float → World float
  post from file msg w =
      record (write float from
        (λ n. record n {
          sent_count = n.sent_count + 1;
          file_sent = if file then n.file_sent + 1 else n.file_sent;
          schedule = record n.schedule { last_send_tick = pos w.tick };
        })
        w) { total_sent = w.total_sent + 1; active_messages = w.active_messages ++ msg ∷ [] }

  unfoldable pub send_and_post :
      Bool
      → SendDraws float hash
      → World float
      → ℕ
      → ℕ
      → MsgType
      → ℕ
      → List ℕ
      → World float × Option ActiveMsg
  unfolding send_msg post all_nodes
  send_and_post file draws w from to kind mb online =
      let (w', sent) = send_msg draws w from to kind mb online (all_nodes float w) in
      elim sent [ none ↦ (w', none) | some msg ↦ (post from file msg w', some msg) ]

  unfoldable pub send_file_internal : SendDraws float hash → ℕ → ℕ → ℕ → World float → World float
  unfolding send_and_post online_nodes
  send_file_internal draws from to file_size w =
      (send_and_post true draws w from to msg_file file_size (online_nodes float w)).0

  -- `draws i` is for the `i`-th recipient.
  unfoldable pub multicast_from :
      (ℕ → SendDraws float hash)
      → ℕ
      → ℕ
      → List ℕ
      → ℕ
      → List ℕ
      → World float
      → World float × List ActiveMsg
  unfolding send_and_post
  multicast_from draws i from [] mb online w = (w, [])
  multicast_from draws i from (to ∷ tos) mb online w =
      let one : World float × Option ActiveMsg =
        if same_peer float hash w to from
        then (w, none)
        else send_and_post false (draws i) w from to msg_multicast mb online in
      let (last, msgs) = multicast_from draws (suc i) from tos mb online one.0 in
      (last, elim one.1 [ none ↦ msgs | some msg ↦ msg ∷ msgs ])

  unfoldable pub send_multicast :
      (ℕ → SendDraws float hash)
      → ℕ
      → List ℕ
      → ℕ
      → List ℕ
      → World float
      → World float × List ActiveMsg
  unfolding multicast_from
  send_multicast draws from recipients mb online w =
      if not (is_online (w.store from).schedule.status)
      then (w, [])
      else multicast_from draws 0 from recipients mb online w

  unfoldable pub send_firmware_update :
      SendDraws float hash → ℕ → ℕ → ℕ → List ℕ → World float → World float × Option ActiveMsg
  unfolding send_and_post
  send_firmware_update draws from target firmware_bytes online w =
      if not (is_online (w.store from).schedule.status)
        || not (is_online (w.store target).schedule.status)
      then (w, none)
      else send_and_post true draws w from target msg_firmware firmware_bytes online

  -- The attempts at one sender of the load test, `k` of them left; `target i` is the draw of an attempt.
  unfoldable pub load_attempts :
      (ℕ → ℕ) → SendDraws float hash → ℕ → ℕ → List ℕ → ℕ → World float → World float
  unfolding has_connection send_file_internal
  load_attempts target draws from file_size online zero w = w
  load_attempts target draws from file_size online (suc k) w =
      let to = get_or online (target k) from in
      let aged =
        write float from
          (λ n. record n { schedule = record n.schedule { last_send_tick = sub_ℕ w.tick 1000 } })
          w in
      let rest = load_attempts target draws from file_size online k w in
      if not (bytes_eq (w.store to).id (w.store from).id) && has_connection float w from to
      then send_file_internal draws from to file_size aged
      else rest

  -- `senders` are the first nodes of the shuffled list, at most `nodeCount` of them.
  unfoldable pub load_test :
      (ℕ → ℕ → ℕ) → (ℕ → SendDraws float hash) → ℕ → List ℕ → ℕ → World float → World float
  unfolding load_attempts online_nodes
  load_test target draws i [] file_size w = w
  load_test target draws i (from ∷ senders) file_size w =
      let online = online_nodes float w in
      let up = is_online (w.store from).schedule.status in
      let w' : World float =
        if up then load_attempts (target i) (draws i) from file_size online 10 w else w in
      let rest = load_test target draws (suc i) senders file_size w' in
      if up && ltb (length online) 2 then w else rest
