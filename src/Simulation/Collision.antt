-- ===== src/Simulation/Collision.antt =====
-- World.checkCollisions, markMsgCollided and addTransmission of simulation/world.go.
pub mod Clear
pub mod Counts
use relaymeshnet.Base.{
  ℕ, ◌+◌, Bool, true, false, ◌||◌, not, List, [], ◌∷◌, ◌++◌, Option, none, some,
}
use relaymeshnet.Base.{ltb, bytes_eq, ◌==◌, if◌then◌else◌}
use relaymeshnet.Base.Float.{Float}
use relaymeshnet.Simulation.Node.{Node, distance_to}
use relaymeshnet.Simulation.World.{World, ActiveMsg, Transmission, write}

-- The first message with the id.
unfoldable pub mark_msg_collided : List ℕ → List ActiveMsg → List ActiveMsg
mark_msg_collided id [] = []
mark_msg_collided id (msg ∷ msgs) =
    if bytes_eq msg.id id
    then record msg { collided = true } ∷ msgs
    else msg ∷ mark_msg_collided id msgs

module _ (float : Float) where
  unfoldable pub add_transmission : List ℕ → ℕ → ℕ → ℕ → World float → World float
  add_transmission msg_id from air_ticks sf w = record w {
    active_transmissions =
        w.active_transmissions
        ++ record {
          msg_id = msg_id;
          from_node = from;
          start_tick = w.tick;
          end_tick = w.tick + air_ticks;
          sf = sf;
        }
          ∷ [];
  }

  abbrev pub expired : World float → Transmission → Bool
  expired w tx = ltb tx.end_tick w.tick

  -- The guards of the inner loop, in its order.
  unfoldable pub collides : World float → Transmission → Transmission → Bool
  unfolding distance_to
  collides w tx tx2 =
      let dist =
        distance_to float (w.store tx.from_node) (w.store tx2.from_node) w.config.cell_width
          w.config.cell_height in
      if expired w tx2
      then false
      else (if ltb tx.end_tick tx2.start_tick || ltb tx2.end_tick tx.start_tick
          then false
          else (if not (tx.sf == tx2.sf) then false else not (float.less w.config.lora_range dist)))

  unfoldable pub first_collision :
      World float → Transmission → List Transmission → Option Transmission
  unfolding collides
  first_collision w tx [] = none
  first_collision w tx (tx2 ∷ txs) =
      if collides w tx tx2 then some tx2 else first_collision w tx txs

  abbrev pub count_failed : Node float → Node float
  count_failed n = record n { failed_count = n.failed_count + 1 }

  -- `collideMsg`
  abbrev pub collide_msg : Node float → Node float
  collide_msg n = record n { collided_count = n.collided_count + 1 }

  -- What a collision of the two changes. The first one's message is marked last.
  unfoldable pub record_collision : Transmission → Transmission → World float → World float
  unfolding mark_msg_collided
  record_collision tx tx2 w =
      let failed =
        write float tx2.from_node count_failed (write float tx.from_node count_failed w) in
      record (write float tx2.from_node collide_msg failed) {
        total_collisions = w.total_collisions + 2;
        total_failed = w.total_failed + 2;
        active_messages =
            mark_msg_collided tx.msg_id (mark_msg_collided tx2.msg_id w.active_messages);
      }

  -- What the outer loop does at a transmission with those after it, and whether it drops it.
  unfoldable pub strike : Transmission → List Transmission → World float → World float × Bool
  unfolding first_collision record_collision
  strike tx txs w = if expired w tx then (w, true) else elim (first_collision w tx txs) [
    | none ↦ (w, false)
    | some tx2 ↦ (record_collision tx tx2 w, true)
  ]

  unfoldable pub check_from : List Transmission → World float → World float × List Transmission
  unfolding strike
  check_from [] w = (w, [])
  check_from (tx ∷ txs) w =
      let (w', dropped) = strike tx txs w in
      let (last, rem) = check_from txs w' in (last, if dropped then rem else tx ∷ rem)

  unfoldable pub check_collisions : World float → World float
  unfolding check_from
  check_collisions w =
      let (last, rem) = check_from w.active_transmissions w in
      record last { active_transmissions = rem }
