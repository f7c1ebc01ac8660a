-- ===== src/Simulation/Flight.antt =====
-- The delivery of messages in RunSteps of simulation/world.go.
pub mod Waiting
pub mod Delivery
pub mod Acks
use relaymeshnet.Base.{ℕ, zero, suc, ◌+◌, ◌-◌, ◌*◌, ◌/◌, Bool, true, false, ◌||◌}
use relaymeshnet.Base.{List, [], ◌∷◌, length, set, ltb, bytes_eq, ◌==◌, if◌then◌else◌}
use relaymeshnet.Base.Int.{ℤ, pos, negsuc, sub_ℕ}
use relaymeshnet.Base.Float.{Float}
use relaymeshnet.Simulation.Node.{Node}
use relaymeshnet.Simulation.Path.{peer_of}
use relaymeshnet.Simulation.World.{World, ActiveMsg, MsgType, is_file, write, all_nodes}

-- A path has two nodes or more.
unfoldable pub hop_index : ActiveMsg → ℤ
hop_index msg =
    let hops = length msg.path - 1 in sub_ℕ (length msg.path) (2 + msg.remaining * hops / msg.total)

-- An index out of range sets nothing.
abbrev pub mark_ack : ℤ → List Bool → List Bool
mark_ack (pos i) acks = set acks i true
mark_ack (negsuc i) acks = acks

-- One tick of a message: the counter and the hop that is acknowledged.
unfoldable pub advance : ActiveMsg → ActiveMsg
unfolding hop_index
advance msg =
    let moved : ActiveMsg = record msg { remaining = msg.remaining - 1 } in
    record moved {
      acks =
          if ltb moved.remaining moved.total
          then mark_ack (hop_index moved) moved.acks
          else moved.acks;
    }

-- Whether the message leaves the list in this tick.
unfoldable pub is_done : ActiveMsg → Bool
unfolding advance
is_done msg = msg.collided || ((advance msg).remaining == 0)

module _ (float : Float) (hash : List ℕ → List ℕ) where
  unfoldable pub count_received : MsgType → Node float → Node float
  count_received kind n = record n {
    received_count = n.received_count + 1;
    file_received = if is_file kind then n.file_received + 1 else n.file_received;
  }

  -- The first of the nodes that the message is for.
  unfoldable pub receive : ActiveMsg → List ℕ → World float → World float
  unfolding count_received
  receive msg [] w = w
  receive msg (p ∷ ps) w =
      if bytes_eq (peer_of float hash w p) msg.to
      then write float p (count_received msg.msg_type) w
      else receive msg ps w

  abbrev pub count_message : World float → World float
  count_message w = record w { total_received = w.total_received + 1 }

  -- What becomes of the world by one message.
  unfoldable pub settle : List ℕ → ActiveMsg → World float → World float
  unfolding receive
  settle all msg w =
      if msg.collided
      then w
      else (if (advance msg).remaining == 0 then count_message (receive (advance msg) all w) else w)

  unfoldable pub deliver : List ℕ → List ActiveMsg → World float → World float × List ActiveMsg
  unfolding settle is_done
  deliver all [] w = (w, [])
  deliver all (msg ∷ msgs) w =
      let (last, rem) = deliver all msgs (settle all msg w) in
      (last, if is_done msg then rem else advance msg ∷ rem)

  unfoldable pub deliver_messages : World float → World float
  unfolding deliver all_nodes
  deliver_messages w =
      let (last, rem) = deliver (all_nodes float w) w.active_messages w in
      record last { active_messages = rem }
