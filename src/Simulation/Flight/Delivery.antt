-- ===== src/Simulation/Flight/Delivery.antt =====
-- When a message arrives.
use relaymeshnet.Base.{ℕ, zero, suc, ◌+◌, ◌≤◌, ◌≡◌, ◌∙◌, refl, ap, arith, inl, inr}
use relaymeshnet.Base.{true, false, not, List, [], ◌∷◌, map, select, length, All}
use relaymeshnet.Base.{leb, ◌==◌, bytes_eq, Bool-cases, if_true, if_false, if◌then◌else◌}
use relaymeshnet.Base.Float.{Float}
use relaymeshnet.Simulation.Path.{peer_of}
use relaymeshnet.Simulation.World.{World, ActiveMsg, all_nodes}
use relaymeshnet.Simulation.Flight.{
  advance, receive, settle, is_done, count_message, deliver, deliver_messages,
}
use relaymeshnet.Simulation.Flight.Waiting.{
  advance_n, in_flight, arrives, in_flight-is_done, select-map-select, length-arrivals, step_of_all,
  none_in_flight, every_one_arrives,
}

module _ (float : Float) (hash : List ℕ → List ℕ) where
  receive-total :
      (msg : ActiveMsg) (ps : List ℕ) (w : World float)
      → (receive float hash msg ps w).total_received ≡ w.total_received
  unfolding receive
  receive-total msg [] w = refl
  receive-total msg (p ∷ ps) w = elim (Bool-cases (bytes_eq (peer_of float hash w p) msg.to)) [
    | inl e ↦ rw e refl
    | inr e ↦ rw e (receive-total msg ps w)
  ]

  settle-total :
      (all : List ℕ) (msg : ActiveMsg) (w : World float)
      → (settle float hash all msg w).total_received
        ≡ w.total_received + (if arrives 1 msg then 1 else 0)
  unfolding settle
  settle-total all msg w = elim (Bool-cases msg.collided) [
    | inl c ↦
        let alone : settle float hash all msg w ≡ w = if_true _ w _ c in
        ground (arith, ap (λ u. u.total_received) alone, c)
    | inr c ↦ elim (Bool-cases ((advance msg).remaining == 0)) [
      | inl e ↦
          let got : settle float hash all msg w
              ≡ count_message float hash (receive float hash (advance msg) all w) =
            if_false _ w _ c ∙ if_true _ _ w e in
          let least : leb msg.remaining 1 ≡ true = unfold advance in ground (arith, e) in
          ground
            (arith, ap (λ u. u.total_received) got, c, least, receive-total (advance msg) all w)
      | inr e ↦
          let alone : settle float hash all msg w ≡ w = if_false _ w _ c ∙ if_false _ _ w e in
          let least : leb msg.remaining 1 ≡ false = unfold advance in ground (arith, e) in
          ground (arith, ap (λ u. u.total_received) alone, c, least)
    ]
  ]

  deliver-total :
      (all : List ℕ) (msgs : List ActiveMsg) (w : World float)
      → (deliver float hash all msgs w).0.total_received
        ≡ w.total_received + length (select (arrives 1) msgs)
  unfolding deliver
  deliver-total all [] w = omega arith
  deliver-total all (msg ∷ msgs) w =
      let ih = deliver-total all msgs (settle float hash all msg w) in
      let counted = settle-total all msg w in
      elim (Bool-cases (arrives 1 msg)) [
        | inl e ↦ rw e (ih ∙ ground (arith, counted, e))
        | inr e ↦ rw e (ih ∙ ground (arith, counted, e))
      ]

  pub deliver-active :
      (all : List ℕ) (msgs : List ActiveMsg) (w : World float)
      → (deliver float hash all msgs w).1 ≡ map advance (select (in_flight 1) msgs)
  unfolding deliver
  deliver-active all [] w = refl
  deliver-active all (msg ∷ msgs) w =
      let ih = deliver-active all msgs (settle float hash all msg w) in
      let flies = in_flight-is_done msg in
      elim (Bool-cases (is_done msg)) [
        | inl e ↦ rw (flies, e) ih
        | inr e ↦ rw (flies, e) (ap (◌∷◌ (advance msg)) ih)
      ]

  -- `n` ticks.
  abbrev pub deliver_n : ℕ → World float → World float
  deliver_n zero w = w
  deliver_n (suc n) w = deliver_n n (deliver_messages float hash w)

  -- After one tick or more, the active messages are those that have not collided and whose counter was
  -- above the number of ticks, in order and each advanced by as many; and the number of messages received
  -- has grown by those that have not collided and whose counter was not above it.
  pub deliver_n_lem :
      (n : ℕ) (w : World float)
      → let w' = deliver_n (suc n) w in
        (w'.active_messages
          ≡ map (advance_n (suc n)) (select (in_flight (suc n)) w.active_messages))
        × (w'.total_received
            ≡ w.total_received + length (select (arrives (suc n)) w.active_messages))
  unfolding deliver_messages
  deliver_n_lem zero w = (
    deliver-active (all_nodes float w) w.active_messages w,
    deliver-total (all_nodes float w) w.active_messages w,
  )
  deliver_n_lem (suc n) w =
      let msgs = w.active_messages in
      let now = deliver-active (all_nodes float w) msgs w in
      let counted = deliver-total (all_nodes float w) msgs w in
      let (later, total) = deliver_n_lem n (deliver_messages float hash w) in
      (
        later
            ∙ ap (λ ms. map (advance_n (suc n)) (select (in_flight (suc n)) ms)) now
            ∙ ap (map (advance_n (suc n))) (select-map-select n msgs)
            ∙ step_of_all (suc n) (select (in_flight (suc (suc n))) msgs),
        total
            ∙ ap
                (λ ms.
                  (deliver_messages float hash w).total_received
                  + length (select (arrives (suc n)) ms))
                now
            ∙ omega (arith, counted, length-arrivals n msgs),
      )

  -- Messages do not stay: when no counter is above the number of ticks, one or more, then after them no
  -- message is active and every one that has not collided is counted as received.
  pub deliver_n_empties :
      (n : ℕ) (w : World float)
      → All (λ m. m.remaining ≤ suc n) w.active_messages
      → ((deliver_n (suc n) w).active_messages ≡ [])
        × ((deliver_n (suc n) w).total_received
            ≡ w.total_received + length (select (λ m. not m.collided) w.active_messages))
  deliver_n_empties n w h =
      let (left, total) = deliver_n_lem n w in
      (
        left ∙ ap (map (advance_n (suc n))) (none_in_flight (suc n) w.active_messages h),
        total
            ∙ ap (λ ms. w.total_received + length ms)
                (every_one_arrives (suc n) w.active_messages h),
      )
