-- ===== src/Simulation/Steps/Marking.antt =====
-- The statuses and marks of all nodes when a message is sent.
use relaymeshnet.Base.{ℕ, ◌-◌, ◌*◌, ◌≡◌, subst, ◌==◌, inl, inr}
use relaymeshnet.Base.{Bool, ◌&&◌, ltb, leb, bytes_eq, Bool-cases, Option-cases, if◌then◌else◌}
use relaymeshnet.Base.{List, [], ◌∷◌, some, length}
use relaymeshnet.Base.Int.{ℤ, pos, negsuc}
use relaymeshnet.Base.Float.{Float}
use relaymeshnet.Simulation.Signal.{air_time_ticks}
use relaymeshnet.Simulation.Node.{add_relay_work}
use relaymeshnet.Simulation.World.{World, MsgType, all_nodes}
use relaymeshnet.Simulation.Path.{peer_of}
use relaymeshnet.Simulation.Collision.{add_transmission}
use relaymeshnet.Simulation.Scenario.Switching.{AllMarked, write-AllMarked}
use relaymeshnet.Simulation.Sending.{
  SendDraws, send_path, debit, pay, emit, charge_for, charge, put_on_air,
}
use relaymeshnet.Simulation.Sending.{goes_by_lora, lora_fragments, transmit}
use relaymeshnet.Simulation.Dispatch.{
  reward_relay, reward_relays, launch, send_msg, post, send_and_post, between,
}
use relaymeshnet.Simulation.Steps.Quiet.{either, if_some}

module _ (float : Float) (hash : List ℕ → List ℕ) where
  pub record Marked (w : World float) : Type 0 where
    pub marks : AllMarked float w

  debit-Marked :
      (w : World float) (from : ℕ) (cost : float.F)
      → Marked w
      → Marked (debit float hash w from cost)
  unfolding debit
  debit-Marked w from cost h = record {
    marks = λ q. elim (Bool-cases (q == from)) [
      | inl here ↦ rw here (h.marks q)
      | inr there ↦ rw there (h.marks q)
    ];
  }

  pay-Marked :
      (w w' : World float) (from mb rc : ℕ)
      → pay float hash w from mb rc ≡ some w'
      → Marked w
      → Marked w'
  unfolding pay
  pay-Marked w w' from mb rc e h =
      let cfg = w.config in
      let cost =
        float.times (float.over (float.of_nat (rc * mb)) (float.of_nat cfg.relay_chunk_size))
          cfg.send_cost in
      if_some Marked _ _ w' e (
        either Marked (float.less (float.ratio 0 1) cost) (debit float hash w from cost) w
          (debit-Marked w from cost h) h)

  emit-Marked :
      (draw : float.F) (w : World float) (from cn : ℕ)
      → Marked w
      → Marked (emit float hash draw w from cn)
  unfolding emit
  emit-Marked draw w from cn h = record {
    marks = λ q. elim (Bool-cases (float.less draw (float.ratio 4 5))) [
      | inl pays ↦ elim (Bool-cases (q == from)) [
        | inl here ↦ rw (pays, here) (h.marks q)
        | inr there ↦ rw (pays, there) (h.marks q)
      ]
      | inr saves ↦ elim (Bool-cases (q == from)) [
        | inl here ↦ rw (saves, here) (h.marks q)
        | inr there ↦ rw (saves, there) (h.marks q)
      ]
    ];
  }

  charge_for-Marked :
      (draw : float.F) (w w' : World float) (from mb rc : ℕ) (cn : ℤ)
      → charge_for float hash draw w from mb rc cn ≡ some w'
      → Marked w
      → Marked w'
  unfolding charge_for
  charge_for-Marked draw w w' from mb rc (negsuc k) e h = pay-Marked w w' from mb rc e h
  charge_for-Marked draw w w' from mb rc (pos cn) e h =
      let charged : World float = if ltb 0 cn then emit float hash draw w from cn else w in
      let same : charged ≡ w' = cc e in
      subst Marked same (
        either Marked (ltb 0 cn) (emit float hash draw w from cn) w (emit-Marked draw w from cn h)
          h)

  put_on_air-Marked :
      (id : List ℕ) (from air sf : ℕ) (w : World float)
      → Marked w
      → Marked (put_on_air float hash id from air sf w)
  unfolding put_on_air add_transmission
  put_on_air-Marked id from air sf w h = elim (Bool-cases (ltb 0 air && leb air 20)) [
    | inl short ↦ rw (put_on_air, short) (record { marks = h.marks })
    | inr long ↦ rw (put_on_air, long) h
  ]

  transmit-Marked :
      (id : List ℕ) (from to mb : ℕ) (w : World float)
      → Marked w
      → Marked (transmit float hash id from to mb w).1
  unfolding transmit
  transmit-Marked id from to mb w h =
      let a = w.store from in
      let b = w.store to in
      let sf : ℕ = (lora_fragments float hash w a b mb).2 in
      let air = air_time_ticks float sf mb in
      either Marked (goes_by_lora float hash w a b) (put_on_air float hash id from air sf w) w
        (put_on_air-Marked id from air sf w h) h

  reward_relay-Marked :
      (id : List ℕ) (mb : ℕ) (mult : float.F) (ps : List ℕ) (w : World float)
      → Marked w
      → Marked (reward_relay float hash id mb mult ps w)
  unfolding reward_relay add_relay_work
  reward_relay-Marked id mb mult [] w h = h
  reward_relay-Marked id mb mult (p ∷ ps) w h =
      elim (Bool-cases (bytes_eq (peer_of float hash w p) id)) [
        | inl found ↦
            rw (reward_relay, found)
              (record {
                marks =
                    write-AllMarked float p (add_relay_work float w.config (float.of_nat mb) mult) w
                      (λ n k. k) h.marks;
              })
        | inr other ↦ rw (reward_relay, other) (reward_relay-Marked id mb mult ps w h)
      ]

  reward_relays-Marked :
      (ids : List (List ℕ)) (mb : ℕ) (mult : float.F) (all : List ℕ) (w : World float)
      → Marked w
      → Marked (reward_relays float hash ids mb mult all w)
  unfolding reward_relays
  reward_relays-Marked [] mb mult all w h = h
  reward_relays-Marked (id ∷ ids) mb mult all w h =
      reward_relays-Marked ids mb mult all _ (reward_relay-Marked id mb mult all w h)

  send_msg-Marked :
      (draws : SendDraws float hash) (w : World float) (from to : ℕ) (kind : MsgType) (mb : ℕ)
      (online all : List ℕ)
      → Marked w
      → Marked (send_msg float hash draws w from to kind mb online all).0
  unfolding send_msg launch charge
  send_msg-Marked draws w from to kind mb online all h =
      elim (Option-cases (send_path float hash draws w from to online)) [
        | inl e ↦ rw (send_msg, e) h
        | inr (path, e) ↦
            elim (Option-cases
              (charge float hash draws.emission_draw w from mb (length path - 2))) [
                | inl c ↦ rw (send_msg, e, c) h
                | inr (w', c) ↦
                    rw (send_msg, e, c)
                      (reward_relays-Marked (between float hash path) mb _ all _ (
                        transmit-Marked _ from to mb w' (
                          charge_for-Marked draws.emission_draw w w' from mb (length path - 2) _ c
                            h)))
              ]
      ]

  pub send_and_post-Marked :
      (file : Bool) (draws : SendDraws float hash) (w : World float) (from to : ℕ) (kind : MsgType)
      (mb : ℕ) (online : List ℕ)
      → Marked w
      → Marked (send_and_post float hash file draws w from to kind mb online).0
  unfolding send_and_post post
  send_and_post-Marked file draws w from to kind mb online h =
      let all = all_nodes float w in
      let r = send_msg float hash draws w from to kind mb online all in
      let kept = send_msg-Marked draws w from to kind mb online all h in
      elim (Option-cases r.1) [
        | inl e ↦ rw (send_and_post, e) kept
        | inr (msg, e) ↦
            rw (send_and_post, e)
              (record {
                marks = λ q. elim (Bool-cases (q == from)) [
                  | inl here ↦ rw here (kept.marks q)
                  | inr there ↦ rw there (kept.marks q)
                ];
              })
      ]
