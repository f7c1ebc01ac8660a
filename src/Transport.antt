-- ===== src/Transport.antt =====
-- pkg/transport/mock.go, the network in memory. A transport is an address in a network that maps
-- addresses to their contents, so that two maps of peers can hold the same transport. A call that
-- Go would stop with a panic or leave waiting on its own lock has that result. The handler of a
-- transport is a log of its calls: a handler that calls the network back is not modelled. The proofs
-- are in the modules below.
pub mod Links
pub mod Closing
pub mod Reach
pub mod Delivery
pub mod Broadcasting
pub mod Connecting
mod Runs
use relaymeshnet.Base.{ℕ, ◌+◌, Bool, true, false, List, [], ◌∷◌, ◌++◌, Option, none, some, length}
use relaymeshnet.Base.{ltb, ◌==◌, if◌then◌else◌}
use relaymeshnet.Base.Int.{ℤ, pos, negsuc}
use relaymeshnet.Base.Maps.{lookup, insert, erase}

-- The capacity of the channel of a transport.
abbrev pub inbox_size : ℕ
inbox_size = 256

pub data Channel : Type 0 where
  channel_wifi channel_lora_sf7 channel_lora_sf9 channel_lora_sf12 : Channel

pub record Packet : Type 0 where
  pub from_peer_id : List ℕ
  pub payload : List ℕ
  pub rssi : ℤ
  pub snr : ℤ
  pub channel : Channel
  pub received_at : ℕ

-- `closed` says that the channel is closed; `handled` are the calls of the handler, if it is set.
pub record MockTransport : Type 0 where
  pub peer_id : List ℕ
  pub inbox : List Packet
  pub closed : Bool
  pub peers : List (List ℕ × ℕ)
  pub has_handler : Bool
  pub handled : List (List ℕ × List ℕ)

abbrev pub Network : Type 0
Network = ℕ → MockTransport

pub data Result : Type 0 where
  done : Network → Result
  panic deadlock : Result

infixl 5 ◌>>=◌
abbrev pub ◌>>=◌ : Result → (Network → Result) → Result
done net >>= f = f net
panic >>= f = panic
deadlock >>= f = deadlock

-- A write to one transport.
abbrev pub put : ℕ → MockTransport → Network → Network
put a t net x = if a == x then t else net x

unfoldable pub new_mock_transport : List ℕ → MockTransport
new_mock_transport peer_id = record {
  peer_id = peer_id;
  inbox = [];
  closed = false;
  peers = [];
  has_handler = false;
  handled = [];
}

-- `m.peers[id] = other`
abbrev pub link : ℕ → List ℕ → ℕ → Network → Network
link a id p net = put a (record (net a) { peers = insert id p (net a).peers }) net

-- `delete(m.peers, id)`
abbrev pub unlink : ℕ → List ℕ → Network → Network
unlink a id net = put a (record (net a) { peers = erase id (net a).peers }) net

-- Both locks are taken, which one transport cannot do with itself.
unfoldable pub connect : ℕ → ℕ → Network → Result
connect a b net =
    if a == b then deadlock else done (link b (net a).peer_id a (link a (net b).peer_id b net))

unfoldable pub disconnect : ℕ → ℕ → Network → Result
disconnect a b net =
    if a == b then deadlock else done (unlink b (net a).peer_id (unlink a (net b).peer_id net))

unfoldable pub set_handler : ℕ → Network → Network
set_handler a net = put a (record (net a) { has_handler = true }) net

abbrev pub packet : ℕ → ℕ → List ℕ → Network → Packet
packet now a payload net = record {
  from_peer_id = (net a).peer_id;
  payload = payload;
  rssi = negsuc 39;
  snr = pos 20;
  channel = channel_wifi;
  received_at = now;
}

-- The case of the `select`: the packet in the inbox, and the handler's call if there is one.
unfoldable pub deliver : ℕ → ℕ → List ℕ → ℕ → Network → Network
deliver now a payload p net =
    let call = ((net a).peer_id, payload) ∷ [] in
    put p
      (record (net p) {
        inbox = (net p).inbox ++ packet now a payload net ∷ [];
        handled = if (net p).has_handler then (net p).handled ++ call else (net p).handled;
      })
      net

-- A send on a closed channel panics, also in a `select`.
unfoldable pub send : ℕ → ℕ → List ℕ → List ℕ → Network → Result
unfolding deliver
send now a peer_id payload net = elim (lookup peer_id (net a).peers) [
  | none ↦ done net
  | some p ↦
      if (net p).closed
      then panic
      else (if ltb (length (net p).inbox) inbox_size
          then done (deliver now a payload p net)
          else done net)
]

-- The loop of `Broadcast` over the entries of the map of peers.
unfoldable pub broadcast_to : ℕ → ℕ → List ℕ → List (List ℕ × ℕ) → Network → Result
unfolding send
broadcast_to now a payload [] net = done net
broadcast_to now a payload ((id, p) ∷ ps) net =
    send now a (net p).peer_id payload net >>= λ net'. broadcast_to now a payload ps net'

unfoldable pub broadcast : ℕ → ℕ → List ℕ → Network → Result
broadcast now a payload net = broadcast_to now a payload (net a).peers net

-- What a reader of `Recv` does: it takes the oldest packet off the channel, or waits.
recv_front : ℕ → List Packet → Network → Network × Option Packet
recv_front a [] net = (net, none)
recv_front a (p ∷ ps) net = (put a (record (net a) { inbox = ps }) net, some p)

unfoldable pub recv : ℕ → Network → Network × Option Packet
unfolding recv_front
recv a net = recv_front a (net a).inbox net

-- The loop of `Close` over the entries of the map of peers, while the lock of `a` is held.
unfoldable pub close_loop : ℕ → List (List ℕ × ℕ) → Network → Result
close_loop a [] net = done net
close_loop a ((id, p) ∷ ps) net =
    if p == a then deadlock else close_loop a ps (unlink p (net a).peer_id net)

-- Closing a closed channel panics.
unfoldable pub close : ℕ → Network → Result
unfolding close_loop
close a net =
    if (net a).closed
    then panic
    else (close_loop a (net a).peers (put a (record (net a) { closed = true }) net) >>= λ net'.
        done (put a (record (net' a) { peers = [] }) net'))
