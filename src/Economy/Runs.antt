-- ===== src/Economy/Runs.antt =====
-- Calls at concrete values, and the theorems at them. The numbers of the balance are
-- whole, and 200 stands for zero, so that the debt limit is 100.
use relaymeshnet.Base.{ℕ, ◌+◌, ◌-◌, ◌*◌, ◌/◌, ◌≡◌, refl, arith, false, List, [], ◌∷◌, ltb, leb}
use relaymeshnet.Base.Int.{pos}
use relaymeshnet.Base.Float.{Float}
use relaymeshnet.Economy.{new_balance}
use relaymeshnet.Economy.Debt.{IsFloat, Call, adds, subtracts, locks, unlocks, run, run-new_balance}
use relaymeshnet.Economy.Fifo
use relaymeshnet.Economy.Fifo.{pushes, pops, pushed, run-new_relay_queue}

abbrev whole : Float
whole = record {
  F = ℕ;
  zero_float = 200;
  debt_limit = 100;
  plus = λ x y. x + y - 200;
  minus = λ x y. x + 200 - y;
  less = ltb;
  greater_eq = λ x y. leb y x;
  times = λ x y. x * y;
  over = λ x y. x / y;
  negate = λ x. 400 - x;
  exp = λ x. x;
  sqrt = λ x. x;
  max_float = λ x y. x + y;
  ceil = λ x. x;
  of_nat = λ n. n + 200;
  ratio = λ n m. n / m + 200;
  ln2 = 201;
  log10 = λ x. x;
  pow = λ x y. x;
  abs_float = λ x. x;
  of_int = λ x. 200;
  truncate = λ x. pos x;
  tick_exponent = 200;
}

whole-IsFloat : IsFloat whole
whole-IsFloat = record { above = refl; grows = λ x amount p h. ground arith }

abbrev calls : List (Call whole)
calls = adds 220 refl ∷ subtracts 330 ∷ locks 210 ∷ unlocks 210 ∷ []

run-new_balance_example : ltb (run whole calls (new_balance whole)).credits 100 ≡ false
run-new_balance_example = run-new_balance whole whole-IsFloat calls

abbrev relayed : List Fifo.Call
relayed = pushes (1 ∷ []) ∷ pops ∷ pops ∷ pushes (2 ∷ []) ∷ pushes (3 ∷ []) ∷ pops ∷ []
