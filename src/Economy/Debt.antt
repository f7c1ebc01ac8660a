-- ===== src/Economy/Debt.antt =====
-- No call takes a balance below the debt limit.
use relaymeshnet.Base.{◌≡◌, false, List, [], ◌∷◌, Bool-cases, inl, inr}
use relaymeshnet.Base.Float.{Float}
use relaymeshnet.Economy.{Balance, new_balance, add, subtract, lock, unlock}

-- What float64 addition keeps: a sum with an amount that is not negative is not below the limit if
-- the other summand was not. It holds of the infinities and of NaN, which is below nothing.
pub record IsFloat (float : Float) : Type 0 where
  pub above : float.less float.zero_float float.debt_limit ≡ false
  pub grows :
      (x amount : float.F)
      → float.less amount float.zero_float ≡ false
      → float.less x float.debt_limit ≡ false
      → float.less (float.plus x amount) float.debt_limit ≡ false

module _ (float : Float) where
  -- A call; what is added is not negative.
  pub data Call : Type 0 where
    adds : (amount : float.F) → float.less amount float.zero_float ≡ false → Call
    subtracts : float.F → Call
    locks : float.F → Call
    unlocks : float.F → Call

  unfoldable pub step : Call → Balance float → Balance float
  step (adds amount _) b = add float amount b
  step (subtracts amount) b = (subtract float amount b).0
  step (locks amount) b = (lock float amount b).0
  step (unlocks amount) b = unlock float amount b

  unfoldable pub run : List Call → Balance float → Balance float
  run [] b = b
  run (c ∷ cs) b = run cs (step c b)

  step-credits :
      IsFloat float
      → (c : Call) (b : Balance float) → float.less b.credits float.debt_limit ≡ false
      → float.less (step c b).credits float.debt_limit ≡ false
  unfolding step add subtract lock unlock
  step-credits law (adds amount p) b h = law.grows b.credits amount p h
  step-credits law (subtracts amount) b h =
      elim (Bool-cases (float.less (float.minus b.credits amount) float.debt_limit)) [
        | inl low ↦ rw (low, step, subtract) h
        | inr fine ↦ rw (fine, step, subtract) fine
      ]
  step-credits law (locks amount) b h =
      elim (Bool-cases (float.less (float.minus b.credits b.locked) amount)) [
        | inl low ↦ rw (low, step, lock) h
        | inr fine ↦ rw (fine, step, lock) h
      ]
  step-credits law (unlocks amount) b h = elim (Bool-cases (float.greater_eq b.locked amount)) [
    | inl enough ↦ rw (enough, step, unlock) h
    | inr not_enough ↦ rw (not_enough, step, unlock) h
  ]

  run-credits :
      IsFloat float
      → (cs : List Call) (b : Balance float) → float.less b.credits float.debt_limit ≡ false
      → float.less (run cs b).credits float.debt_limit ≡ false
  unfolding run
  run-credits law [] b h = h
  run-credits law (c ∷ cs) b h = run-credits law cs (step c b) (step-credits law c b h)

  -- After any calls on a new balance, what is added never being negative, the credits are not below
  -- the debt limit.
  pub run-new_balance :
      IsFloat float
      → (cs : List Call) → float.less (run cs (new_balance float)).credits float.debt_limit ≡ false
  unfolding new_balance
  run-new_balance law cs = run-credits law cs (new_balance float) law.above
