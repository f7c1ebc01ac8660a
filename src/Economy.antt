-- ===== src/Economy.antt =====
-- pkg/economy/economy.go: balances, the relay queue, and the Confirm-N rule. A float64 is a value of
-- the parameter `float`, with the operations that the file uses. The proofs are in the modules below.
pub mod Debt
pub mod Fifo
pub mod Confirm
pub mod Reputation
mod Runs
use relaymeshnet.Base.{ℕ, ◌+◌, ◌*◌, ◌/◌, Bool, true, false, List, [], ◌∷◌, ◌++◌, Option, none, some}
use relaymeshnet.Base.{length, ltb, if◌then◌else◌}
use relaymeshnet.Base.Float.{Float}
use relaymeshnet.Base.Int.{ℤ, pos, negsuc}

abbrev pub relay_chunk_size : ℕ
relay_chunk_size = 512

abbrev pub confirm_threshold : ℕ
confirm_threshold = 2048

module _ (float : Float) where
  pub record Balance : Type 0 where
    pub credits : float.F
    pub locked : float.F

  unfoldable pub new_balance : Balance
  new_balance = record { credits = float.zero_float; locked = float.zero_float }

  unfoldable pub add : float.F → Balance → Balance
  add amount b = record b { credits = float.plus b.credits amount }

  unfoldable pub subtract : float.F → Balance → Balance × Bool
  subtract amount b =
      if float.less (float.minus b.credits amount) float.debt_limit
      then (b, false)
      else (record b { credits = float.minus b.credits amount }, true)

  unfoldable pub lock : float.F → Balance → Balance × Bool
  lock amount b =
      if float.less (float.minus b.credits b.locked) amount
      then (b, false)
      else (record b { locked = float.plus b.locked amount }, true)

  unfoldable pub unlock : float.F → Balance → Balance
  unlock amount b =
      if float.greater_eq b.locked amount
      then record b { locked = float.minus b.locked amount }
      else b

pub record RelayQueue : Type 0 where
  pub packets : List (List ℕ)

unfoldable pub new_relay_queue : RelayQueue
new_relay_queue = record { packets = [] }

unfoldable pub push : List ℕ → RelayQueue → RelayQueue
push packet q = record q { packets = q.packets ++ packet ∷ [] }

pop_front : List (List ℕ) → RelayQueue → RelayQueue × Option (List ℕ)
pop_front [] q = (q, none)
pop_front (packet ∷ rest) q = (record q { packets = rest }, some packet)

unfoldable pub pop : RelayQueue → RelayQueue × Option (List ℕ)
unfolding pop_front
pop q = pop_front q.packets q

unfoldable pub len : RelayQueue → ℕ
len q = length q.packets

-- `int(math.Ceil(float64(hops*msgBytes) / float64(RelayChunkSize)))`: the division by a power of two
-- is exact on a float64, as is the product below 2 ^ 53.
unfoldable pub ceil_chunks : ℕ → ℕ
ceil_chunks bytes = (bytes + 511) / relay_chunk_size

unfoldable pub calculate_confirm_n : ℕ → ℕ → ℤ
calculate_confirm_n msg_bytes hops =
    if ltb confirm_threshold msg_bytes
    then negsuc 0
    else (let n = ceil_chunks (hops * msg_bytes) in if ltb n 2 then pos 2 else pos n)
