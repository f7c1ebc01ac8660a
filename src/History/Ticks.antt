-- ===== src/History/Ticks.antt =====
-- What the generator's operations do to the chain of hashes.
use relaymeshnet.Base.{ℕ, zero, suc, ◌+◌, ◌%◌, ◌^◌, ◌≡◌, refl, arith, List, [], ◌∷◌}
use relaymeshnet.Base.{Option, none, some}
use relaymeshnet.Base.Words.{IsUint64}
use relaymeshnet.History.{Generator, new_generator, advance, tick, advance_n, tick_n}
use relaymeshnet.History.{record_event}
use relaymeshnet.History.Loop.{iterate, iterate-add}

-- A call of a method. `CurrentHash`, `CurrentTick` and `StartTime` only read.
pub data Call : Type 0 where
  ticks : Call
  ticks_n : ℕ → Call
  records : List ℕ → List ℕ → Option (List ℕ → List ℕ) → Call
  checkpoints : ℕ → Call

module _ (hash : List ℕ → List ℕ) where
  unfoldable pub step : Call → Generator → Generator
  unfolding tick tick_n record_event
  step ticks g = (tick hash g).0
  step (ticks_n n) g = (tick_n hash n g).0
  step (records event_type data_hash sign) g = (record_event hash event_type data_hash sign g).0
  step (checkpoints now) g = g

  unfoldable pub run : List Call → Generator → Generator
  run [] g = g
  run (c ∷ cs) g = run cs (step c g)

-- How many ticks a call makes.
abbrev pub rounds : Call → ℕ
rounds ticks = 1
rounds (ticks_n n) = n
rounds (records e d s) = 1
rounds (checkpoints now) = 0

abbrev pub total : List Call → ℕ
total [] = 0
total (c ∷ cs) = rounds c + total cs

module _ (hash : List ℕ → List ℕ) where
  -- `g'` is `g` after `n` ticks.
  pub record After (n : ℕ) (g g' : Generator) : Type 0 where
    pub index : g'.tick_index ≡ (g.tick_index + n) % 2 ^ 64
    pub chain : g'.last_hash ≡ iterate hash n g.last_hash
    pub seed : g'.seed ≡ g.seed
    pub start : g'.start_time ≡ g.start_time

  -- The loop of `TickN` hashes `n` times and adds `n` to the index, which wraps at 2 ^ 64.
  pub advance_n-After :
      (n : ℕ) (g : Generator) → IsUint64 g.tick_index → After n g (advance_n hash n g)
  unfolding advance_n advance
  advance_n-After zero g h = record { index = omega arith; chain = refl; seed = refl; start = refl }
  advance_n-After (suc n) g h =
      let ih = advance_n-After n (advance hash g) (omega arith) in
      record { index = omega (arith, ih.index); chain = ih.chain; seed = ih.seed; start = ih.start }

  step-After :
      (c : Call) (g : Generator) → IsUint64 g.tick_index → After (rounds c) g (step hash c g)
  unfolding step advance
  step-After ticks g h = record { index = refl; chain = refl; seed = refl; start = refl }
  step-After (ticks_n n) g h = advance_n-After n g h
  step-After (records e d none) g h = record {
    index = refl;
    chain = refl;
    seed = refl;
    start = refl;
  }
  step-After (records e d (some s)) g h = record {
    index = refl;
    chain = refl;
    seed = refl;
    start = refl;
  }
  step-After (checkpoints now) g h = record {
    index = omega arith;
    chain = refl;
    seed = refl;
    start = refl;
  }

  run-After :
      (cs : List Call) (g : Generator) → IsUint64 g.tick_index → After (total cs) g (run hash cs g)
  unfolding run
  run-After [] g h = record { index = omega arith; chain = refl; seed = refl; start = refl }
  run-After (c ∷ cs) g h =
      let first = step-After c g h in
      let rest = run-After cs (step hash c g) (omega (arith, first.index)) in
      record {
        index = omega (arith, first.index, rest.index);
        chain = rw (rest.chain, first.chain, iterate-add);
        seed = cc (first.seed, rest.seed);
        start = cc (first.start, rest.start);
      }

  -- After any calls on a new generator its last hash is the seed hashed once for each tick that
  -- the calls made, and its index is their number modulo 2 ^ 64.
  pub run-new_generator :
      (seed : List ℕ) (now : ℕ) (cs : List Call)
      → ((run hash cs (new_generator seed now)).last_hash ≡ iterate hash (total cs) seed)
        × ((run hash cs (new_generator seed now)).tick_index ≡ total cs % 2 ^ 64)
        × ((run hash cs (new_generator seed now)).seed ≡ seed)
  run-new_generator seed now cs =
      let a = run-After cs (new_generator seed now) (unfold new_generator in omega arith) in
      unfold new_generator in (a.chain, omega (arith, a.index), a.seed)
