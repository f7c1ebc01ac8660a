-- ===== src/Simulation/Dispatch/Launch.antt =====
-- The message that sendMsg returns.
use relaymeshnet.Base.{ℕ, zero, suc, ◌-◌, ◌≤◌, ◌<◌, ◌≡◌, ◌∙◌, refl, sym, subst, arith, inl, inr}
use relaymeshnet.Base.{true, false, ltb, Bool-cases, Option-cases, if_true, if_false, if◌then◌else◌}
use relaymeshnet.Base.{List, [], ◌∷◌, some, length, take}
use relaymeshnet.Base.{length-append, length-replicate}
use relaymeshnet.Base.Int.{pos}
use relaymeshnet.Base.Float.{Float}
use relaymeshnet.Simulation.Node.{clamp_ticks}
use relaymeshnet.Simulation.World.{World, ActiveMsg, MsgType, has_connection}
use relaymeshnet.Simulation.Path.{peer_of}
use relaymeshnet.Simulation.Flight.Acks.{IsLaunched}
use relaymeshnet.Simulation.Sending.{SendDraws, find_random_relay, force_relays, send_path, charge}
use relaymeshnet.Simulation.Sending.{delivery_ticks}
use relaymeshnet.Simulation.Sending.Routes.{
  IsRoute, send_path-near, send_path-far, send_path-IsRoute,
}
use relaymeshnet.Simulation.Dispatch.{new_message, launch, send_msg}

-- A message that the world can hold: it has hops, an acknowledgement for each, and ticks to go.
pub record IsUnderWay (msg : ActiveMsg) : Type 0 where
  pub launched : IsLaunched msg
  pub to_go : 1 ≤ msg.remaining
  pub bounded : msg.total ≤ 3000

clamp_ticks_lem : (n : ℕ) → (1 ≤ clamp_ticks (pos n)) × (clamp_ticks (pos n) ≤ 3000)
clamp_ticks_lem n = ground arith

module _ (float : Float) (hash : List ℕ → List ℕ) where
  new_message-IsUnderWay :
      (w : World float) (from to : ℕ) (kind : MsgType) (mb : ℕ) (path : List (List ℕ))
      → 2 ≤ length path
      → IsUnderWay (new_message float hash w from to kind mb path)
  unfolding new_message
  new_message-IsUnderWay w from to kind mb path h =
      let (least, most) =
        clamp_ticks_lem (delivery_ticks float hash w from to mb (length path - 2)) in
      record {
        launched = record {
          has_hops = omega (arith, h);
          one_each = length-replicate (length path - 1) false;
          in_time = omega arith;
          takes_time = least;
        };
        to_go = least;
        bounded = most;
      }

  force_relays-length :
      (intn : ℕ → ℕ → ℕ) (w : World float) (from to : ℕ) (online : List ℕ) (i count : ℕ)
      (path : List (List ℕ))
      → 2 ≤ length path
      → 2 ≤ length (force_relays float hash intn w from to online i count path)
  unfolding force_relays
  force_relays-length intn w from to online i zero path h = h
  force_relays-length intn w from to online i (suc count) path h =
      elim (Option-cases (find_random_relay float hash (intn i) w from to online path)) [
        | inl e ↦
            rw (force_relays, e) (force_relays-length intn w from to online (suc i) count path h)
        | inr (n, e) ↦
            let ends = peer_of float hash w n ∷ peer_of float hash w to ∷ [] in
            rw (force_relays, e)
              (force_relays-length intn w from to online (suc i) count _
                (omega (arith, length-append (take (length path - 1) path) ends)))
      ]

  send_path-length :
      (draws : SendDraws float hash) (w : World float) (from to : ℕ) (online : List ℕ)
      (path : List (List ℕ))
      → send_path float hash draws w from to online ≡ some path
      → 2 ≤ length path
  send_path-length draws w from to online path h =
      let pair = peer_of float hash w from ∷ peer_of float hash w to ∷ [] in
      let least = w.config.min_relay_hops in
      let forced = force_relays float hash draws.relay_intn w from to online 0 least pair in
      elim (Bool-cases (has_connection float w from to)) [
        | inr far ↦ absurd (cc (send_path-far float hash w from to draws online far, h))
        | inl near ↦
            let same : (if ltb 0 least then forced else pair) ≡ path =
              cc (send_path-near float hash w from to draws online near, h) in
            let long : 2 ≤ length forced =
              force_relays-length draws.relay_intn w from to online 0 least pair (omega arith) in
            elim (Bool-cases (ltb 0 least)) [
              | inl e ↦ subst (λ p. 2 ≤ length p) (sym (if_true _ forced pair e) ∙ same) long
              | inr e ↦
                  subst (λ p. 2 ≤ length p) (sym (if_false _ forced pair e) ∙ same) (omega arith)
            ]
      ]

  module _ (draws : SendDraws float hash) (w : World float) (from to : ℕ) (kind : MsgType) (mb : ℕ)
      (online all : List ℕ) where
    -- A message that is sent is `new_message` in the world that the charge leaves.
    record IsSent (msg : ActiveMsg) : Type 0 where
      charged : World float
      path : List (List ℕ)
      found : send_path float hash draws w from to online ≡ some path
      paid : charge float hash draws.emission_draw w from mb (length path - 2) ≡ some charged
      made : new_message float hash charged from to kind mb path ≡ msg

    send_msg-IsSent :
        (msg : ActiveMsg)
        → (send_msg float hash draws w from to kind mb online all).1 ≡ some msg
        → IsSent msg
    unfolding send_msg launch
    send_msg-IsSent msg h = elim (Option-cases (send_path float hash draws w from to online)) [
      | inl e ↦ let sent = rw (send_msg, e) at h in absurd (cc sent)
      | inr (path, e) ↦
          elim (Option-cases (charge float hash draws.emission_draw w from mb (length path - 2))) [
            | inl c ↦ let sent = rw (send_msg, e, c) at h in absurd (cc sent)
            | inr (w', c) ↦
                let sent = rw (send_msg, e, c) at h in
                record { charged = w'; path = path; found = e; paid = c; made = cc sent }
          ]
    ]

    -- A message that sendMsg returns goes between two connected nodes, by at most MinRelayHops relays
    -- that are each connected with just one of the two; it has not collided, has an acknowledgement for
    -- each hop, and all of its time to go, which is from 1 to 3000 ticks. The draws of the relays have
    -- to be below their bounds.
    pub send_msg-IsRoute :
        (msg : ActiveMsg)
        → ((j k : ℕ) → 0 < k → draws.relay_intn j k < k)
        → (send_msg float hash draws w from to kind mb online all).1 ≡ some msg
        → (has_connection float w from to ≡ true)
          × IsRoute float hash w from to w.config.min_relay_hops msg.path
          × IsUnderWay msg
          × (msg.remaining ≡ msg.total)
          × (msg.collided ≡ false)
    unfolding new_message
    send_msg-IsRoute msg bounded h =
        let s = send_msg-IsSent msg h in
        let (near, route) =
          send_path-IsRoute float hash w from to draws online s.path bounded s.found in
        let ready =
          new_message-IsUnderWay s.charged from to kind mb s.path
            (send_path-length draws w from to online s.path s.found) in
        subst
          (λ m.
            (has_connection float w from to ≡ true)
            × IsRoute float hash w from to w.config.min_relay_hops m.path
            × IsUnderWay m
            × (m.remaining ≡ m.total)
            × (m.collided ≡ false))
          s.made (near, route, ready, refl, refl)

    pub send_msg-IsUnderWay :
        (msg : ActiveMsg)
        → (send_msg float hash draws w from to kind mb online all).1 ≡ some msg
        → IsUnderWay msg
    send_msg-IsUnderWay msg h =
        let s = send_msg-IsSent msg h in
        subst IsUnderWay s.made (
          new_message-IsUnderWay s.charged from to kind mb s.path
            (send_path-length draws w from to online s.path s.found))
