-- ===== src/Simulation/Steps/Quiet.antt =====
-- The calls that leave the active messages as they are.
use relaymeshnet.Base.{ℕ, ◌-◌, ◌≡◌, ◌∙◌, refl, subst, inl, inr}
use relaymeshnet.Base.{Bool, true, false, ltb, bytes_eq, Option-cases, if◌then◌else◌}
use relaymeshnet.Base.{List, [], ◌∷◌, none, some, length}
use relaymeshnet.Base.Int.{ℤ, pos, negsuc}
use relaymeshnet.Base.Float.{Float}
use relaymeshnet.Simulation.Signal.{air_time_ticks}
use relaymeshnet.Simulation.Node.{Node}
use relaymeshnet.Simulation.World.{World, MsgType}
use relaymeshnet.Simulation.Path.{peer_of}
use relaymeshnet.Simulation.Collision.{add_transmission}
use relaymeshnet.Simulation.Scenario.{for_each}
use relaymeshnet.Simulation.Sending.{
  SendDraws, send_path, debit, pay, emit, charge_for, charge, put_on_air, goes_by_lora,
  lora_fragments, transmit,
}
use relaymeshnet.Simulation.Dispatch.{reward_relay, reward_relays, launch, send_msg}
use relaymeshnet.Simulation.Dispatch.{between}
use relaymeshnet.Simulation.Steps.{TransferDraws}
use relaymeshnet.Simulation.Steps.{pick_payee, move_balance, transfer, transfer_at, transfers}
use relaymeshnet.Simulation.Steps.{tick_all}

pub either {ℓ κ} :
    {A : Type ℓ} (P : A → Type κ) (b : Bool) (x y : A) → P x → P y → P (if b then x else y)
either P true x y hx hy = hx
either P false x y hx hy = hy

-- What holds of both worlds that a call can end in, if it does.
pub if_some {ℓ κ} :
    {A : Type ℓ} (P : A → Type κ) (b : Bool) (x w : A)
    → (if b then none else some x) ≡ some w
    → P x
    → P w
if_some P true x w h hx = absurd (cc h)
if_some P false x w h hx = subst P (cc h) hx

module _ (float : Float) (hash : List ℕ → List ℕ) where
  abbrev pub SameMessages : World float → World float → Type 0
  SameMessages w v = v.active_messages ≡ w.active_messages

  pub for_each-messages :
      (f : ℕ → Node float → Node float) (ps : List ℕ) (w : World float)
      → SameMessages w (for_each float f ps w)
  for_each-messages f [] w = refl
  for_each-messages f (p ∷ ps) w = for_each-messages f ps _

  pub pay-messages :
      (w w' : World float) (from mb rc : ℕ)
      → pay float hash w from mb rc ≡ some w'
      → SameMessages w w'
  unfolding pay debit
  pay-messages w w' from mb rc h =
      if_some (SameMessages w) _ _ w' h (either (SameMessages w) _ _ _ refl refl)

  pub emit-messages :
      (draw : float.F) (w : World float) (from cn : ℕ)
      → SameMessages w (emit float hash draw w from cn)
  unfolding emit
  emit-messages draw w from cn = either (SameMessages w) _ _ _ refl refl

  pub charge_for-messages :
      (draw : float.F) (w w' : World float) (from mb rc : ℕ) (cn : ℤ)
      → charge_for float hash draw w from mb rc cn ≡ some w'
      → SameMessages w w'
  unfolding charge_for
  charge_for-messages draw w w' from mb rc (negsuc k) h = pay-messages w w' from mb rc h
  charge_for-messages draw w w' from mb rc (pos cn) h =
      let charged : World float = if ltb 0 cn then emit float hash draw w from cn else w in
      let same : charged ≡ w' = cc h in
      subst (SameMessages w) same (
        either (SameMessages w) (ltb 0 cn) (emit float hash draw w from cn) w
          (emit-messages draw w from cn) refl)

  pub put_on_air-messages :
      (id : List ℕ) (from air sf : ℕ) (w : World float)
      → SameMessages w (put_on_air float hash id from air sf w)
  unfolding put_on_air add_transmission
  put_on_air-messages id from air sf w = either (SameMessages w) _ _ _ refl refl

  pub transmit-messages :
      (id : List ℕ) (from to mb : ℕ) (w : World float)
      → SameMessages w (transmit float hash id from to mb w).1
  unfolding transmit
  transmit-messages id from to mb w =
      let a = w.store from in
      let b = w.store to in
      let sf : ℕ = (lora_fragments float hash w a b mb).2 in
      let air = air_time_ticks float sf mb in
      either (SameMessages w) (goes_by_lora float hash w a b)
        (put_on_air float hash id from air sf w) w (put_on_air-messages id from air sf w) refl

  pub reward_relay-messages :
      (id : List ℕ) (mb : ℕ) (mult : float.F) (ps : List ℕ) (w : World float)
      → SameMessages w (reward_relay float hash id mb mult ps w)
  unfolding reward_relay
  reward_relay-messages id mb mult [] w = refl
  reward_relay-messages id mb mult (p ∷ ps) w =
      either (SameMessages w) (bytes_eq (peer_of float hash w p) id) _ _ refl
        (reward_relay-messages id mb mult ps w)

  pub reward_relays-messages :
      (ids : List (List ℕ)) (mb : ℕ) (mult : float.F) (all : List ℕ) (w : World float)
      → SameMessages w (reward_relays float hash ids mb mult all w)
  unfolding reward_relays
  reward_relays-messages [] mb mult all w = refl
  reward_relays-messages (id ∷ ids) mb mult all w =
      reward_relays-messages ids mb mult all _ ∙ reward_relay-messages id mb mult all w

  pub send_msg-messages :
      (draws : SendDraws float hash) (w : World float) (from to : ℕ) (kind : MsgType) (mb : ℕ)
      (online all : List ℕ)
      → SameMessages w (send_msg float hash draws w from to kind mb online all).0
  unfolding send_msg launch charge
  send_msg-messages draws w from to kind mb online all =
      elim (Option-cases (send_path float hash draws w from to online)) [
        | inl e ↦ rw (send_msg, e) refl
        | inr (path, e) ↦
            elim (Option-cases
              (charge float hash draws.emission_draw w from mb (length path - 2))) [
                | inl c ↦ rw (send_msg, e, c) refl
                | inr (w', c) ↦
                    rw (send_msg, e, c)
                      (reward_relays-messages (between float hash path) mb _ all _
                        ∙ transmit-messages _ from to mb w'
                        ∙ charge_for-messages draws.emission_draw w w' from mb (length path - 2) _
                            c)
              ]
      ]

  pub transfer-messages :
      (d : TransferDraws float hash) (p target : ℕ) (online : List ℕ) (w : World float)
      → SameMessages w (transfer float hash d p target online w)
  unfolding transfer move_balance
  transfer-messages d p target online w = either (SameMessages w) _ _ _ refl refl

  pub transfer_at-messages :
      (d : TransferDraws float hash) (p : ℕ) (online : List ℕ) (w : World float)
      → SameMessages w (transfer_at float hash d p online w)
  unfolding transfer_at
  transfer_at-messages d p online w =
      elim (Option-cases (pick_payee float hash d w p online 0 10)) [
        | inl n ↦ rw (transfer_at, n) (either (SameMessages w) _ _ _ refl refl)
        | inr (target, n) ↦
            rw (transfer_at, n)
              (either (SameMessages w) _ _ _ (transfer-messages d p target online w) refl)
      ]

  pub transfers-messages :
      (draws : ℕ → TransferDraws float hash) (ps online : List ℕ) (w : World float)
      → SameMessages w (transfers float hash draws ps online w)
  unfolding transfers
  transfers-messages draws [] online w = refl
  transfers-messages draws (p ∷ ps) online w =
      transfers-messages draws ps online _ ∙ transfer_at-messages (draws p) p online w

  pub tick_all-messages :
      (ps : List ℕ) (w : World float) → SameMessages w (tick_all float hash ps w)
  unfolding tick_all
  tick_all-messages [] w = refl
  tick_all-messages (p ∷ ps) w = tick_all-messages ps _ ∙ either (SameMessages w) _ _ _ refl refl
