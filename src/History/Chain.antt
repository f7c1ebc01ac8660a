-- ===== src/History/Chain.antt =====
-- `VerifyChain`, and that chains compose.
use relaymeshnet.Base.{ℕ, ◌+◌, ◌-◌, ◌%◌, ◌^◌, ◌<◌, ◌≡◌, ◌↔◌, refl, sym, arith}
use relaymeshnet.Base.{List, some, true, leb}
use relaymeshnet.Base.{bytes_eq→eq, bytes_eq_refl, Bool-cases, inl, inr}
use relaymeshnet.History.{Generator, advance_n, tick_n, verify_chain}
use relaymeshnet.History.Loop.{max_uint64, iterate, iterate-add, hash_loop_ends}
use relaymeshnet.History.Ticks.{advance_n-After}

module _ (hash : List ℕ → List ℕ) where
  -- With fuel for a test per tick, `VerifyChain` accepts exactly an end that is later than the start
  -- and whose hash is the start's, hashed once for each tick between them. The end is below the
  -- largest uint64.
  pub verify_chain_accepts :
      (fuel : ℕ) (start_hash : List ℕ) (start_tick : ℕ) (end_hash : List ℕ) (end_tick : ℕ)
      → end_tick < max_uint64
      → end_tick < fuel + start_tick
      → (verify_chain hash fuel start_hash start_tick end_hash end_tick ≡ some true)
        ↔ ((start_tick < end_tick) × (end_hash ≡ iterate hash (end_tick - start_tick) start_hash))
  unfolding verify_chain
  verify_chain_accepts fuel s i e j small enough = elim (Bool-cases (leb j i)) [
    | inl early ↦ ((λ h. ground arith), (λ h. ground arith))
    | inr later ↦
        let below : i < j = ground arith in
        let wrapped : (i + 1) % 2 ^ 64 ≡ i + 1 = omega arith in
        let rounds : j + 1 - (i + 1) ≡ j - i = omega arith in
        let ended = hash_loop_ends hash fuel (i + 1) j s small (omega arith) (omega arith) in
        rw (later, wrapped, ended, rounds)
          ((λ h. (below, sym (bytes_eq→eq _ _ (cc)))), (λ (p, q). rw (q, bytes_eq_refl) refl))
  ]

  verify_chain_later :
      (fuel i j : ℕ) (a b : List ℕ) → verify_chain hash fuel a i b j ≡ some true → i < j
  unfolding verify_chain
  verify_chain_later fuel i j a b h = ground arith

  -- Two chains that `VerifyChain` accepts and that meet are one chain that it accepts, if the end is
  -- below the largest uint64 and there is fuel for a test per tick.
  pub verify_chain_trans :
      (fuel i j k : ℕ) (a b c : List ℕ)
      → k < max_uint64
      → k < fuel + i
      → verify_chain hash fuel a i b j ≡ some true
      → verify_chain hash fuel b j c k ≡ some true
      → verify_chain hash fuel a i c k ≡ some true
  verify_chain_trans fuel i j k a b c small enough first second =
      let i-lt-j = verify_chain_later fuel i j a b first in
      let j-lt-k = verify_chain_later fuel j k b c second in
      let (_, p) = (verify_chain_accepts fuel a i b j (omega arith) (omega arith)).0 first in
      let (_, q) = (verify_chain_accepts fuel b j c k small (omega arith)).0 second in
      let whole : k - i ≡ j - i + (k - j) = omega arith in
      (verify_chain_accepts fuel a i c k small enough).1
        (omega arith, rw (q, p, whole, iterate-add) refl)

  -- From a generator to what `TickN` makes of it, for a positive count that stays below the largest
  -- uint64, is a chain that `VerifyChain` accepts with fuel for more tests than ticks.
  pub verify_chain-tick_n :
      (fuel n : ℕ) (g : Generator)
      → 0 < n
      → g.tick_index + n < max_uint64
      → n < fuel
      → let (g', h) = tick_n hash n g in
        verify_chain hash fuel g.last_hash g.tick_index h g'.tick_index ≡ some true
  unfolding tick_n
  verify_chain-tick_n fuel n g positive small enough =
      let a = advance_n-After hash n g (omega arith) in
      let index : (advance_n hash n g).tick_index ≡ g.tick_index + n = omega (arith, a.index) in
      let gap : g.tick_index + n - g.tick_index ≡ n = omega arith in
      rw (index, a.chain)
        ((verify_chain_accepts fuel g.last_hash g.tick_index _ (g.tick_index + n) small
            (omega arith)).1
          (omega arith, rw gap refl))
