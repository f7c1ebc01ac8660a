-- ===== src/Transport/Reach.antt =====
-- The networks that calls reach, and that none of them is stopped by a panic or by its own lock.
use relaymeshnet.Base.{ℕ, ◌≡◌, refl, subst, sym, ap, ◌∙◌, arith, false, List}
use relaymeshnet.Base.{◌==◌}
use relaymeshnet.Base.{Bool-cases, inl, inr}
use relaymeshnet.Base.Maps.{lookup}
use relaymeshnet.Transport.{Network, Result, done, panic, deadlock}
use relaymeshnet.Transport.{connect, disconnect, send, close, broadcast, recv, set_handler}
use relaymeshnet.Transport.{new_mock_transport}
use relaymeshnet.Transport.Connecting.{
  Relinks-IsNetwork, connected, connected_links, disconnected, disconnected_links,
}
use relaymeshnet.Transport.Closing.{close_lem}
use relaymeshnet.Transport.Delivery.{SameLinks-IsNetwork, send_lem}
use relaymeshnet.Transport.Broadcasting.{broadcast_lem}
use relaymeshnet.Transport.Delivery.{recv-SameLinks, set_handler-SameLinks}
use relaymeshnet.Transport.Links.{IsNetwork, connect-Relinks, disconnect-Relinks}

-- The networks that calls reach from `first`. Only open transports are connected: whoever connects
-- one that was closed links others to a closed channel.
pub data Reachable (first : Network) : Network → Type 0 where
  starts : Reachable first first
  connects :
      (a b : ℕ) (net net' : Network)
      → Reachable first net
      → (net a).closed ≡ false
      → (net b).closed ≡ false
      → connect a b net ≡ done net'
      → Reachable first net'
  disconnects :
      (a b : ℕ) (net net' : Network)
      → Reachable first net
      → disconnect a b net ≡ done net'
      → Reachable first net'
  handles : (a : ℕ) (net : Network) → Reachable first net → Reachable first (set_handler a net)
  sends :
      (now a : ℕ) (id payload : List ℕ) (net net' : Network)
      → Reachable first net
      → send now a id payload net ≡ done net'
      → Reachable first net'
  broadcasts :
      (now a : ℕ) (payload : List ℕ) (net net' : Network)
      → Reachable first net
      → broadcast now a payload net ≡ done net'
      → Reachable first net'
  receives : (a : ℕ) (net : Network) → Reachable first net → Reachable first (recv a net).0
  closes :
      (a : ℕ) (net net' : Network)
      → Reachable first net
      → close a net ≡ done net'
      → Reachable first net'

-- The network of a result, if it has one.
result_of : Network → Result → Network
result_of net (done net') = net'
result_of net panic = net
result_of net deadlock = net

-- The invariant of one result of a call is that of every result.
IsNetwork-done :
    (r : Result) (net net' : Network)
    → r ≡ done net
    → r ≡ done net'
    → IsNetwork net
    → IsNetwork net'
unfolding result_of
IsNetwork-done r net net' e e' h = subst IsNetwork (ap (result_of net) (sym e ∙ e')) h

connect-IsNetwork :
    (a b : ℕ) (net net' : Network)
    → IsNetwork net
    → (net a).closed ≡ false
    → (net b).closed ≡ false
    → connect a b net ≡ done net'
    → IsNetwork net'
connect-IsNetwork a b net net' h open_a open_b e = elim (Bool-cases (a == b)) [
  | inl same ↦
      let stuck : connect a b net ≡ deadlock = unfold connect in rw same refl in
      absurd (cc (stuck, e))
  | inr other ↦
      let (last, ends, r) = connect-Relinks a b net other in
      IsNetwork-done (connect a b net) last net' ends e (
        Relinks-IsNetwork (connected a b net h other) net last r h
          (connected_links a b net h other open_a open_b))
]

disconnect-IsNetwork :
    (a b : ℕ) (net net' : Network) → IsNetwork net → disconnect a b net ≡ done net' → IsNetwork net'
disconnect-IsNetwork a b net net' h e = elim (Bool-cases (a == b)) [
  | inl same ↦
      let stuck : disconnect a b net ≡ deadlock = unfold disconnect in rw same refl in
      absurd (cc (stuck, e))
  | inr other ↦
      let (last, ends, r) = disconnect-Relinks a b net other in
      IsNetwork-done (disconnect a b net) last net' ends e (
        Relinks-IsNetwork (disconnected a b net h other) net last r h
          (disconnected_links a b net h other))
]

close-IsNetwork :
    (a : ℕ) (net net' : Network) → IsNetwork net → close a net ≡ done net' → IsNetwork net'
close-IsNetwork a net net' h e = elim (Bool-cases (net a).closed) [
  | inl again ↦
      let stuck : close a net ≡ panic = unfold close in rw again refl in absurd (cc (stuck, e))
  | inr first ↦
      let (last, ends, kept, _) = close_lem a net h first in
      IsNetwork-done (close a net) last net' ends e kept
]

-- A network of new transports.
abbrev pub new_network : (ℕ → List ℕ) → Network
new_network ids x = new_mock_transport (ids x)

new_network-IsNetwork :
    (ids : ℕ → List ℕ) → ((x y : ℕ) → ids x ≡ ids y → x ≡ y) → IsNetwork (new_network ids)
unfolding new_mock_transport lookup
new_network-IsNetwork ids q = record {
  distinct = q;
  links = λ x p i e. absurd (cc e);
  maps = λ x. tt;
  bounded = λ x. omega arith;
}

-- In every network that calls on new transports with different ids reach, the links are symmetric,
-- lead to open transports under their own ids, and an inbox holds at most 256 packets. Only open
-- transports are connected.
pub Reachable-IsNetwork :
    (ids : ℕ → List ℕ) (net : Network)
    → ((x y : ℕ) → ids x ≡ ids y → x ≡ y)
    → Reachable (new_network ids) net
    → IsNetwork net
Reachable-IsNetwork ids _ q starts = new_network-IsNetwork ids q
Reachable-IsNetwork ids _ q (connects a b old net r open_a open_b e) =
    connect-IsNetwork a b old net (Reachable-IsNetwork ids old q r) open_a open_b e
Reachable-IsNetwork ids _ q (disconnects a b old net r e) =
    disconnect-IsNetwork a b old net (Reachable-IsNetwork ids old q r) e
Reachable-IsNetwork ids _ q (handles a old r) =
    SameLinks-IsNetwork old (set_handler a old) (set_handler-SameLinks a old)
      (Reachable-IsNetwork ids old q r)
Reachable-IsNetwork ids _ q (sends now a id payload old net r e) =
    let h = Reachable-IsNetwork ids old q r in
    let (last, ends, same, _) = send_lem now a id payload old h in
    IsNetwork-done _ last net ends e (SameLinks-IsNetwork old last same h)
Reachable-IsNetwork ids _ q (broadcasts now a payload old net r e) =
    let h = Reachable-IsNetwork ids old q r in
    let (last, ends, same, _) = broadcast_lem now a payload old h in
    IsNetwork-done _ last net ends e (SameLinks-IsNetwork old last same h)
Reachable-IsNetwork ids _ q (receives a old r) =
    SameLinks-IsNetwork old (recv a old).0 (recv-SameLinks a old) (Reachable-IsNetwork ids old q r)
Reachable-IsNetwork ids _ q (closes a old net r e) =
    close-IsNetwork a old net (Reachable-IsNetwork ids old q r) e
