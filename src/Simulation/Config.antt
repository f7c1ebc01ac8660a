-- ===== src/Simulation/Config.antt =====
-- simulation/config.go. The fields that no code reads are left out.
use relaymeshnet.Base.{ℕ, Bool, false, List, []}
use relaymeshnet.Base.Float.{Float}

module _ (float : Float) where
  pub record Config : Type 0 where
    pub grid_width : ℕ
    pub grid_height : ℕ
    pub cell_width : float.F
    pub cell_height : float.F
    pub jamming_enabled : Bool
    pub jamming_cells : List (ℕ × ℕ)
    pub wifi_range : float.F
    pub lora_range : float.F
    pub noise_floor : float.F
    pub wall_atten : float.F
    pub floor_atten : float.F
    pub default_hops : ℕ
    pub relay_reward : float.F
    pub send_cost : float.F
    pub storage_reward : float.F
    pub emission_rate : float.F
    pub burn_rate : float.F
    pub min_relay_hops : ℕ
    pub confirm_threshold : ℕ
    pub relay_chunk_size : ℕ

  unfoldable pub default_config : Config
  default_config = record {
    grid_width = 40;
    grid_height = 10;
    cell_width = float.ratio 20 1;
    cell_height = float.ratio 4 1;
    jamming_enabled = false;
    jamming_cells = [];
    wifi_range = float.ratio 30 1;
    lora_range = float.ratio 75 1;
    noise_floor = float.negate (float.ratio 95 1);
    wall_atten = float.ratio 10 1;
    floor_atten = float.ratio 15 1;
    default_hops = 3;
    relay_reward = float.ratio 1 1;
    send_cost = float.ratio 1 1;
    storage_reward = float.ratio 1 100;
    emission_rate = float.ratio 1 2;
    burn_rate = float.ratio 1 100;
    min_relay_hops = 1;
    confirm_threshold = 2048;
    relay_chunk_size = 512;
  }

  -- SecondsPerTick, 60.0 / 500.0
  abbrev pub seconds_per_tick : float.F
  seconds_per_tick = float.ratio 3 25
