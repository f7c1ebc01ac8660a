-- ===== src/Simulation/World.antt =====
-- World of simulation/world.go: the nodes of the grid, the messages under way and the transmissions on
-- the air. A `*Node` is a number, and `store` has the node that it points to; `grid` has the rows of
-- pointers. The speed and the events of the interface, and the mutexes, are left out.
use relaymeshnet.Base.{ℕ, zero, suc, ◌≡◌, arith, Bool, true, false, ◌&&◌, ◌||◌, not}
use relaymeshnet.Base.{List, [], ◌∷◌, ◌++◌, Option, none, some, select, ◌==◌, if◌then◌else◌}
use relaymeshnet.Base.Int.{ℤ, pos, negsuc}
use relaymeshnet.Base.Float.{Float}
use relaymeshnet.Simulation.Config.{Config}
use relaymeshnet.Simulation.Schedule.{is_online}
use relaymeshnet.Simulation.Signal.{new_wifi_radio, snr, packet_success_rate}
use relaymeshnet.Simulation.Node.{Node, distance_to, walls_between}

pub data MsgType : Type 0 where
  msg_text msg_file msg_multicast msg_firmware : MsgType

abbrev pub is_file : MsgType → Bool
is_file msg_text = false
is_file msg_file = true
is_file msg_multicast = false
is_file msg_firmware = false

-- `Remaining` and `Total` are positive while a message is active.
pub record ActiveMsg : Type 0 where
  pub id : List ℕ
  pub from : List ℕ
  pub to : List ℕ
  pub path : List (List ℕ)
  pub remaining : ℕ
  pub total : ℕ
  pub size : ℕ
  pub msg_type : MsgType
  pub acks : List Bool
  pub collided : Bool

pub record Transmission : Type 0 where
  pub msg_id : List ℕ
  pub from_node : ℕ
  pub start_tick : ℕ
  pub end_tick : ℕ
  pub sf : ℕ

-- The element at an index that is a Go int, if the index is in range.
abbrev pub at_index {ℓ} : {A : Type ℓ} → List A → ℕ → Option A
at_index [] i = none
at_index (x ∷ xs) zero = some x
at_index (x ∷ xs) (suc i) = at_index xs i

abbrev pub concat {ℓ} : {A : Type ℓ} → List (List A) → List A
concat [] = []
concat (xs ∷ xss) = xs ++ concat xss

module _ (float : Float) where
  pub record World : Type 0 where
    pub config : Config float
    pub store : ℕ → Node float
    pub allocated : ℕ
    pub grid : List (List ℕ)
    pub tick : ℕ
    pub total_sent : ℕ
    pub total_received : ℕ
    pub total_failed : ℕ
    pub total_relayed : ℕ
    pub total_relay : ℤ
    pub total_transfers : ℕ
    pub total_collisions : ℕ
    pub total_emission : ℤ
    pub total_burn : ℤ
    pub active_messages : List ActiveMsg
    pub active_transmissions : List Transmission

  -- A write through a pointer to a node.
  abbrev pub write : ℕ → (Node float → Node float) → World → World
  write p f w = record w { store = λ q. if q == p then f (w.store q) else w.store q }

  -- `NewNode` at a free address; `fresh` makes the node of a cell with its draws.
  unfoldable pub allocate : Node float → World → World
  allocate n w = record w {
    store = λ q. if q == w.allocated then n else w.store q;
    allocated = suc w.allocated;
  }

  -- The inner loop of `NewWorld`, from column `x` on; `fresh` is `NewNode` with its draws.
  unfoldable pub new_row : (ℕ → ℕ → Node float) → ℕ → ℕ → ℕ → World → World × List ℕ
  unfolding allocate
  new_row fresh y x zero w = (w, [])
  new_row fresh y x (suc k) w =
      let (w', row) = new_row fresh y (suc x) k (allocate (fresh x y) w) in (w', w.allocated ∷ row)

  unfoldable pub new_rows : (ℕ → ℕ → Node float) → ℕ → ℕ → ℕ → World → World × List (List ℕ)
  unfolding new_row
  new_rows fresh width y zero w = (w, [])
  new_rows fresh width y (suc k) w =
      let (w1, row) = new_row fresh y 0 width w in
      let (w2, rows) = new_rows fresh width (suc y) k w1 in (w2, row ∷ rows)

  -- Every address holds the first node until it is allocated.
  unfoldable pub new_world : Config float → (ℕ → ℕ → Node float) → World
  unfolding new_rows
  new_world cfg fresh =
      let empty : World = record {
        config = cfg;
        store = λ q. fresh 0 0;
        allocated = 0;
        grid = [];
        tick = 0;
        total_sent = 0;
        total_received = 0;
        total_failed = 0;
        total_relayed = 0;
        total_relay = pos 0;
        total_transfers = 0;
        total_collisions = 0;
        total_emission = pos 0;
        total_burn = pos 0;
        active_messages = [];
        active_transmissions = [];
      } in
      let (w, rows) = new_rows fresh cfg.grid_width 0 cfg.grid_height empty in
      record w { grid = rows }

  unfoldable pub node_at : World → ℤ → ℤ → Option ℕ
  node_at w x (negsuc y) = none
  node_at w (negsuc x) (pos y) = none
  node_at w (pos x) (pos y) = elim (at_index w.grid y) [ none ↦ none | some row ↦ at_index row x ]

  -- The grid has `grid_height` rows of `grid_width` cells, so its rows in turn are the loops.
  unfoldable pub all_nodes : World → List ℕ
  all_nodes w = concat w.grid

  unfoldable pub online_nodes : World → List ℕ
  unfolding all_nodes
  online_nodes w = select (λ p. is_online (w.store p).schedule.status) (all_nodes w)

  abbrev pub is_cell : List (ℕ × ℕ) → ℕ → ℕ → Bool
  is_cell [] x y = false
  is_cell ((a, b) ∷ cells) x y = ((a == x) && (b == y)) || is_cell cells x y

  unfoldable pub is_jammed : World → ℕ → ℕ → Bool
  is_jammed w x y =
      if not w.config.jamming_enabled then false else is_cell w.config.jamming_cells x y

  -- Whether the nodes are in range of WiFi with a signal that gets through.
  unfoldable pub wifi_reaches : World → Node float → Node float → Bool
  unfolding distance_to walls_between new_wifi_radio snr packet_success_rate
  wifi_reaches w a b =
      let cfg = w.config in
      let dist = distance_to float a b cfg.cell_width cfg.cell_height in
      let (walls, floors) = walls_between float a b in
      let s =
        snr float (new_wifi_radio float) dist walls floors cfg.wall_atten cfg.floor_atten
          cfg.noise_floor in
      float.greater_eq cfg.wifi_range dist
      && float.less (float.ratio 1 10) (packet_success_rate float s)

  abbrev pub in_lora_range : World → Node float → Node float → Bool
  in_lora_range w a b =
      float.greater_eq w.config.lora_range
        (distance_to float a b w.config.cell_width w.config.cell_height)

  unfoldable pub has_connection : World → ℕ → ℕ → Bool
  unfolding is_jammed wifi_reaches distance_to
  has_connection w p q =
      let a = w.store p in
      let b = w.store q in
      if not (is_online a.schedule.status) || not (is_online b.schedule.status)
      then false
      else (if is_jammed w a.x a.y || is_jammed w b.x b.y
          then false
          else (if wifi_reaches w a b then true else in_lora_range w a b))

  -- Where a message can go, both ends are online.
  pub has_connection-online :
      (w : World) (p q : ℕ)
      → has_connection w p q ≡ true
      → (is_online (w.store p).schedule.status ≡ true)
        × (is_online (w.store q).schedule.status ≡ true)
  unfolding has_connection
  has_connection-online w p q h = ground (arith, h)
