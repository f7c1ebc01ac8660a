-- ===== src/Economy/Reputation.antt =====
-- Reputation and the cost formulas of pkg/economy/economy.go. `hours` is what `elapsed` reads; bytes,
-- hops and packets are not negative.
use relaymeshnet.Base.{ℕ, ◌≡◌, false, List, [], ◌∷◌, Bool-cases, inl, inr, if◌then◌else◌, ◌==◌}
use relaymeshnet.Base.Float.{Float}
use relaymeshnet.Economy.{relay_chunk_size}

module _ (float : Float) where
  pub record Reputation : Type 0 where
    pub ewma_work : float.F
    pub score : float.F
    pub last_update : ℕ

  unfoldable pub new_reputation : ℕ → Reputation
  new_reputation now = record {
    ewma_work = float.zero_float;
    score = float.zero_float;
    last_update = now;
  }

  -- exp(-elapsed * ln 2 / 168)
  abbrev pub decay_factor : float.F → float.F
  decay_factor hours =
      float.exp (float.over (float.times (float.negate hours) float.ln2) (float.ratio 168 1))

  unfoldable pub add_work : ℕ → float.F → ℕ → Reputation → Reputation
  add_work now hours bytes r =
      let work = float.plus (float.times r.ewma_work (decay_factor hours)) (float.of_nat bytes) in
      record { ewma_work = work; score = float.over work (float.ratio 168 1); last_update = now }

  unfoldable pub credit_limit : Reputation → float.F
  credit_limit r =
      float.times (float.ratio 20 1) (float.sqrt (float.max_float r.score (float.ratio 1 100)))

  -- The rate 0.01 / (30.0 * 24.0) is a constant.
  unfoldable pub apply_demurrage : ℕ → float.F → Reputation → Reputation
  apply_demurrage now hours r =
      let left =
        float.minus r.score (float.times (float.times r.score (float.ratio 1 72000)) hours) in
      record r {
        score = if float.less left float.zero_float then float.zero_float else left;
        last_update = now;
      }

  -- `EmissionRate` is 0.5.
  unfoldable pub calculate_emission : ℕ → float.F
  calculate_emission n =
      if n == 0 then float.zero_float else float.times (float.of_nat n) (float.ratio 1 2)

  abbrev pub chunks : ℕ → float.F
  chunks msg_bytes =
      float.ceil (float.over (float.of_nat msg_bytes) (float.of_nat relay_chunk_size))

  -- `SendCost` and `RelayReward` are 1.0, `BurnRate` is 0.01.
  unfoldable pub calculate_send_cost : ℕ → ℕ → float.F
  calculate_send_cost msg_bytes hops =
      float.times (float.times (float.of_nat hops) (chunks msg_bytes)) (float.ratio 1 1)

  unfoldable pub calculate_relay_reward : ℕ → float.F → float.F
  calculate_relay_reward msg_bytes multiplier =
      float.times (float.times (chunks msg_bytes) (float.ratio 1 1)) multiplier

  unfoldable pub calculate_burn : float.F → float.F
  calculate_burn cost = float.times cost (float.ratio 1 100)

  abbrev NotNegative : float.F → Type 0
  NotNegative x = float.less x float.zero_float ≡ false

  -- What IEEE 754 says of numbers that are not below zero, among which it has NaN.
  pub record IsSigned : Type 0 where
    pub zero_signed : NotNegative float.zero_float
    pub plus_signed : (x y : float.F) → NotNegative x → NotNegative y → NotNegative (float.plus x y)
    pub times_signed :
        (x y : float.F) → NotNegative x → NotNegative y → NotNegative (float.times x y)
    pub over_signed : (x : float.F) → NotNegative x → NotNegative (float.over x (float.ratio 168 1))
    pub exp_signed : (x : float.F) → NotNegative (float.exp x)
    pub nat_signed : (n : ℕ) → NotNegative (float.of_nat n)

  pub data Call : Type 0 where
    works : ℕ → float.F → ℕ → Call
    demurs : ℕ → float.F → Call

  unfoldable pub run : List Call → Reputation → Reputation
  run [] r = r
  run (works now hours bytes ∷ cs) r = run cs (add_work now hours bytes r)
  run (demurs now hours ∷ cs) r = run cs (apply_demurrage now hours r)

  demurrage_signed :
      (now : ℕ) (hours : float.F) (r : Reputation)
      → IsSigned
      → NotNegative (apply_demurrage now hours r).score
  unfolding apply_demurrage
  demurrage_signed now hours r law =
      let left =
        float.minus r.score (float.times (float.times r.score (float.ratio 1 72000)) hours) in
      elim (Bool-cases (float.less left float.zero_float)) [
        | inl low ↦ rw low law.zero_signed
        | inr fine ↦ rw fine fine
      ]

  -- The work and the score are never negative, after any calls on a reputation where they are not.
  pub run-NotNegative :
      (cs : List Call) (r : Reputation)
      → IsSigned
      → NotNegative r.ewma_work
      → NotNegative r.score
      → NotNegative (run cs r).ewma_work × NotNegative (run cs r).score
  unfolding run add_work apply_demurrage
  run-NotNegative [] r law w s = (w, s)
  run-NotNegative (works now hours bytes ∷ cs) r law w s =
      let work =
        law.plus_signed _ _ (law.times_signed _ _ w (law.exp_signed _)) (law.nat_signed bytes) in
      run-NotNegative cs (add_work now hours bytes r) law work (law.over_signed _ work)
  run-NotNegative (demurs now hours ∷ cs) r law w s =
      run-NotNegative cs (apply_demurrage now hours r) law w (demurrage_signed now hours r law)
