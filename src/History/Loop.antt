-- ===== src/History/Loop.antt =====
-- The hashing loop of `VerifyRecord` and `VerifyChain`: when it ends, and with what.
use relaymeshnet.Base.{ℕ, zero, suc, ◌+◌, ◌-◌, ◌%◌, ◌^◌, ◌≤◌, ◌<◌, ◌≡◌, refl, arith, List}
use relaymeshnet.Base.{none, some, leb, Bool-cases, inl, inr}
use relaymeshnet.History.{hash_loop}

abbrev pub max_uint64 : ℕ
max_uint64 = 2 ^ 64 - 1

module _ (hash : List ℕ → List ℕ) where
  -- `hash` applied `n` times.
  abbrev pub iterate : ℕ → List ℕ → List ℕ
  iterate zero h = h
  iterate (suc n) h = iterate n (hash h)

  pub iterate-add : (m n : ℕ) (h : List ℕ) → iterate (m + n) h ≡ iterate n (iterate m h)
  iterate-add zero n h = let e : 0 + n ≡ n = omega arith in rw e refl
  iterate-add (suc m) n h =
      let e : suc m + n ≡ suc (m + n) = omega arith in rw e (iterate-add m n (hash h))

  -- Below the largest uint64 the loop ends, after one round for each tick.
  pub hash_loop_ends :
      (fuel i last : ℕ) (h : List ℕ)
      → last < max_uint64
      → i ≤ last + 1
      → last + 1 < fuel + i
      → hash_loop hash fuel i last h ≡ some (iterate (last + 1 - i) h)
  unfolding hash_loop
  hash_loop_ends zero i last h small start enough = absurd (omega arith)
  hash_loop_ends (suc fuel) i last h small start enough = elim (Bool-cases (leb i last)) [
    | inl more ↦
        let below : i ≤ last = ground arith in
        let wrapped : (i + 1) % 2 ^ 64 ≡ i + 1 = omega arith in
        let rounds : last + 1 - i ≡ suc (last + 1 - (i + 1)) = omega arith in
        rw (more, wrapped, rounds)
          (hash_loop_ends fuel (i + 1) last (hash h) small (omega arith) (omega arith))
    | inr done ↦ let ended : last + 1 - i ≡ 0 = ground arith in rw (done, ended) refl
  ]

  -- At the largest uint64 the index wraps to 0, and no number of rounds is enough.
  pub hash_loop_diverges :
      (fuel i : ℕ) (h : List ℕ) → i ≤ max_uint64 → hash_loop hash fuel i max_uint64 h ≡ none
  unfolding hash_loop
  hash_loop_diverges zero i h le = refl
  hash_loop_diverges (suc fuel) i h le =
      ground (arith, hash_loop_diverges fuel ((i + 1) % 2 ^ 64) (hash h))
