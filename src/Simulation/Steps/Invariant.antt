-- ===== src/Simulation/Steps/Invariant.antt =====
-- The active messages of a world through its steps.
use relaymeshnet.Base.{ℕ, zero, suc, ◌+◌, ◌<◌, sym, subst, arith, inl, inr}
use relaymeshnet.Base.{
  Bool, true, ltb, bytes_eq, ◌==◌, ◌%◌, Bool-cases, Option-cases, if◌then◌else◌,
}
use relaymeshnet.Base.{List, [], ◌∷◌, map, select, All, All-append}
use relaymeshnet.Base.Float.{Float}
use relaymeshnet.Simulation.Schedule.{should_send}
use relaymeshnet.Simulation.World.{
  is_file, World, ActiveMsg, MsgType, Transmission, all_nodes, online_nodes,
}
use relaymeshnet.Simulation.Flight.{advance, deliver_messages}
use relaymeshnet.Simulation.Flight.Acks.{advance-IsLaunched}
use relaymeshnet.Simulation.Flight.Delivery.{deliver-active}
use relaymeshnet.Simulation.Flight.Waiting.{in_flight}
use relaymeshnet.Simulation.Collision.{
  mark_msg_collided, record_collision, strike, check_from, check_collisions,
}
use relaymeshnet.Simulation.Collision.{first_collision, expired}
use relaymeshnet.Simulation.Scenario.{change_statuses, change_status}
use relaymeshnet.Simulation.Sending.{SendDraws}
use relaymeshnet.Simulation.Dispatch.{send_msg, post, send_and_post}
use relaymeshnet.Simulation.Dispatch.Launch.{IsUnderWay, send_msg-IsUnderWay}
use relaymeshnet.Simulation.Steps.{TrafficDraws, StepDraws, pick_target, choose_size}
use relaymeshnet.Simulation.Steps.{traffic_at, traffic}
use relaymeshnet.Simulation.Steps.{run_step, tick_all, run_steps, repeat}
use relaymeshnet.Simulation.Steps.Quiet.{
  either, for_each-messages, send_msg-messages, transfers-messages, tick_all-messages,
}

mark_msg_collided-All :
    (id : List ℕ) (msgs : List ActiveMsg)
    → All IsUnderWay msgs
    → All IsUnderWay (mark_msg_collided id msgs)
unfolding mark_msg_collided
mark_msg_collided-All id [] h = tt
mark_msg_collided-All id (msg ∷ msgs) (now, rest) = elim (Bool-cases (bytes_eq msg.id id)) [
  | inl e ↦ rw e (marked, rest)
  | inr e ↦ rw e (now, mark_msg_collided-All id msgs rest)
]
  where
    marked : IsUnderWay (record msg { collided = true })
    marked =
        let l = now.launched in
        record {
          launched = record {
            has_hops = l.has_hops;
            one_each = l.one_each;
            in_time = l.in_time;
            takes_time = l.takes_time;
          };
          to_go = now.to_go;
          bounded = now.bounded;
        }

advance-IsUnderWay :
    (msg : ActiveMsg) → 1 < msg.remaining → IsUnderWay msg → IsUnderWay (advance msg)
unfolding advance
advance-IsUnderWay msg h u = record {
  launched = advance-IsLaunched msg u.launched;
  to_go = omega (arith, h);
  bounded = u.bounded;
}

moved-All :
    (msgs : List ActiveMsg)
    → All IsUnderWay msgs
    → All IsUnderWay (map advance (select (in_flight 1) msgs))
moved-All [] h = tt
moved-All (msg ∷ msgs) h = elim (Bool-cases (in_flight 1 msg)) [
  | inl e ↦ rw e (advance-IsUnderWay msg (ground (arith, e)) h.0, moved-All msgs h.1)
  | inr e ↦ rw e (moved-All msgs h.1)
]

module _ (float : Float) (hash : List ℕ → List ℕ) where
  abbrev pub AllUnderWay : World float → Type 0
  AllUnderWay w = All IsUnderWay w.active_messages

  strike-AllUnderWay :
      (tx : Transmission) (txs : List Transmission) (w : World float)
      → AllUnderWay w
      → AllUnderWay (strike float tx txs w).0
  unfolding strike record_collision
  strike-AllUnderWay tx txs w h = elim (Bool-cases (expired float w tx)) [
    | inl e ↦ rw e h
    | inr e ↦ elim (Option-cases (first_collision float w tx txs)) [
      | inl n ↦ rw (e, n) h
      | inr (tx2, n) ↦
          rw (e, n)
            (mark_msg_collided-All tx.msg_id _
              (mark_msg_collided-All tx2.msg_id w.active_messages h))
    ]
  ]

  check_from-AllUnderWay :
      (txs : List Transmission) (w : World float)
      → AllUnderWay w
      → AllUnderWay (check_from float txs w).0
  unfolding check_from
  check_from-AllUnderWay [] w h = h
  check_from-AllUnderWay (tx ∷ txs) w h =
      check_from-AllUnderWay txs _ (strike-AllUnderWay tx txs w h)

  send_and_post-AllUnderWay :
      (file : Bool) (draws : SendDraws float hash) (w : World float) (from to : ℕ) (kind : MsgType)
      (mb : ℕ) (online : List ℕ)
      → AllUnderWay w
      → AllUnderWay (send_and_post float hash file draws w from to kind mb online).0
  unfolding send_and_post post
  send_and_post-AllUnderWay file draws w from to kind mb online h =
      let all = all_nodes float w in
      let r = send_msg float hash draws w from to kind mb online all in
      let kept : AllUnderWay r.0 =
        rw (send_msg-messages float hash draws w from to kind mb online all) h in
      elim (Option-cases r.1) [
        | inl e ↦ rw (send_and_post, e) kept
        | inr (msg, e) ↦
            rw (send_and_post, e)
              (All-append IsUnderWay r.0.active_messages (msg ∷ []) kept
                (send_msg-IsUnderWay float hash draws w from to kind mb online all msg e, tt))
      ]

  traffic_at-AllUnderWay :
      (d : TrafficDraws float hash) (p : ℕ) (online : List ℕ) (w : World float)
      → AllUnderWay w
      → AllUnderWay (traffic_at float hash d p online w)
  unfolding traffic_at
  traffic_at-AllUnderWay d p online w h =
      elim (Bool-cases (should_send w.tick (w.store p).schedule)) [
        | inr e ↦ rw (traffic_at, e) h
        | inl e ↦ elim (Option-cases (pick_target float hash d w p online 0 20)) [
          | inl n ↦ rw (traffic_at, e, n) h
          | inr (target, n) ↦
              let (kind, size) = choose_size float hash d w p target online in
              rw (traffic_at, e, n)
                (send_and_post-AllUnderWay (is_file kind) d.send w p target kind size online h)
        ]
      ]

  traffic-AllUnderWay :
      (draws : ℕ → TrafficDraws float hash) (ps online : List ℕ) (w : World float)
      → AllUnderWay w
      → AllUnderWay (traffic float hash draws ps online w)
  unfolding traffic
  traffic-AllUnderWay draws [] online w h = h
  traffic-AllUnderWay draws (p ∷ ps) online w h =
      traffic-AllUnderWay draws ps online _ (traffic_at-AllUnderWay (draws p) p online w h)

  run_step-AllUnderWay :
      (d : StepDraws float hash) (w : World float)
      → AllUnderWay w
      → AllUnderWay (run_step float hash d w)
  unfolding run_step check_collisions change_statuses deliver_messages
  run_step-AllUnderWay d w h =
      let begun : World float = record w { tick = w.tick + 1 } in
      let checked = check_collisions float begun in
      let changed = change_statuses float d.status_intn checked in
      let moved = deliver_messages float hash changed in
      let online = online_nodes float moved in
      let sent = traffic float hash d.traffic_draws online online moved in
      let clear : AllUnderWay checked = check_from-AllUnderWay w.active_transmissions begun h in
      let same : AllUnderWay changed =
        subst (All IsUnderWay)
          (sym (
            for_each-messages float hash (λ p. change_status float (d.status_intn p) checked.tick)
              (all_nodes float checked) checked))
          clear in
      let left : AllUnderWay moved =
        subst (All IsUnderWay)
          (sym
            (deliver-active float hash (all_nodes float changed) changed.active_messages changed))
          (moved-All changed.active_messages same) in
      let busy = traffic-AllUnderWay d.traffic_draws online online moved left in
      either AllUnderWay (sent.tick % 6000 == 0) _ sent
        (subst (All IsUnderWay)
          (sym (transfers-messages float hash d.transfer_draws online online sent)) busy)
        busy

  repeat-AllUnderWay :
      (f : ℕ → World float → World float) (n : ℕ) (w : World float)
      → ((s : ℕ) (v : World float) → AllUnderWay v → AllUnderWay (f s v))
      → AllUnderWay w
      → AllUnderWay (repeat float hash n f w)
  repeat-AllUnderWay f zero w keeps h = h
  repeat-AllUnderWay f (suc n) w keeps h = repeat-AllUnderWay f n (f n w) keeps (keeps n w h)

  -- However many steps are run and whatever they draw, when the active messages of the world are
  -- under way before, they are so after: each has a hop, an acknowledgement for each hop, at least one
  -- tick to go, no more than its total, and a total of at most 3000 ticks.
  pub run_steps-AllUnderWay :
      (draws : ℕ → StepDraws float hash) (n : ℕ) (w : World float)
      → AllUnderWay w
      → AllUnderWay (run_steps float hash draws n w)
  unfolding run_steps
  run_steps-AllUnderWay draws n w h =
      let steps = if ltb n 1 then 1 else n in
      let ticks = λ (s : ℕ). tick_all float hash (all_nodes float w) in
      repeat-AllUnderWay (λ s. run_step float hash (draws s)) steps _
        (λ s v k. run_step-AllUnderWay (draws s) v k)
        (repeat-AllUnderWay ticks steps w
          (λ s v k.
            subst (All IsUnderWay) (sym (tick_all-messages float hash (all_nodes float w) v)) k)
          h)
