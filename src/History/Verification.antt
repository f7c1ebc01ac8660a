-- ===== src/History/Verification.antt =====
-- `VerifyRecord`: what it accepts, what it never answers, and that it accepts recorded events.
use relaymeshnet.Base.{ℕ, ◌+◌, ◌-◌, ◌%◌, ◌^◌, ◌<◌, ◌≡◌, ◌↔◌, refl, sym, ◌∙◌, arith}
use relaymeshnet.Base.{List, [], Option, none, some, Bool, true, false, not, leb}
use relaymeshnet.Base.{bytes_eq, bytes_eq→eq, bytes_eq_refl, if◌then◌else◌, Bool-cases, inl, inr}
use relaymeshnet.History.{Generator, Record, Checkpoint, advance, advance_n, tick_n}
use relaymeshnet.History.{record_event, create_checkpoint, check_signature}
use relaymeshnet.History.{to_sign, verify_record}
use relaymeshnet.History.Loop.{max_uint64, iterate, iterate-add, hash_loop_ends, hash_loop_diverges}
use relaymeshnet.History.Ticks.{advance_n-After}

same_hash :
    (x y : List ℕ) (b : Bool)
    → (◌≡◌ {A = Option Bool} (some (if not (bytes_eq x y) then false else b)) (some true))
      ↔ ((y ≡ x) × (b ≡ true))
same_hash x y b = ((λ h. ground (arith, bytes_eq→eq x y)), (λ (e, t). rw (e, bytes_eq_refl, t)))

check_accepts :
    (verify : List ℕ → List ℕ → Bool) (r : Record)
    → verify (to_sign r) r.signature ≡ true
    → check_signature (some verify) r ≡ true
unfolding check_signature
check_accepts verify r h = ground arith

module _ (hash : List ℕ → List ℕ) where
  -- The hash that the record must show: the checkpoint's, once more for each tick between them.
  abbrev pub expected : Record → Checkpoint → List ℕ
  expected r c = iterate hash (r.tick_index - c.tick_index) c.tick_hash

  -- `VerifyRecord` with its loop done.
  verify_record_later :
      (fuel : ℕ) (r : Record) (c : Checkpoint) (v : Option (List ℕ → List ℕ → Bool))
      → r.tick_index < max_uint64
      → r.tick_index < fuel + c.tick_index
      → c.tick_index < r.tick_index
      → verify_record hash fuel r c v
        ≡ some (if not (bytes_eq (expected r c) r.tick_hash) then false else check_signature v r)
  unfolding verify_record
  verify_record_later fuel r c v small enough later =
      let wrapped : (c.tick_index + 1) % 2 ^ 64 ≡ c.tick_index + 1 = omega arith in
      let rounds : r.tick_index + 1 - (c.tick_index + 1) ≡ r.tick_index - c.tick_index =
        omega arith in
      let ended =
        hash_loop_ends hash fuel (c.tick_index + 1) r.tick_index c.tick_hash small (omega arith)
          (omega arith) in
      ground (arith, wrapped, rounds, ended)

  pub verify_record_accepts :
      (fuel : ℕ) (r : Record) (c : Checkpoint) (v : Option (List ℕ → List ℕ → Bool))
      → r.tick_index < max_uint64
      → r.tick_index < fuel + c.tick_index
      → ((b : Bool) × (verify_record hash fuel r c v ≡ some b))
        × ((verify_record hash fuel r c v ≡ some true) ↔ (
            (c.tick_index < r.tick_index)
            × (r.tick_hash ≡ expected r c)
            × (check_signature v r ≡ true)))
  unfolding verify_record
  verify_record_accepts fuel r c v small enough =
      elim (Bool-cases (leb r.tick_index c.tick_index)) [
        | inl early ↦ ((false, rw early), ((λ h. ground arith), (λ h. ground arith)))
        | inr later ↦
            let e = verify_record_later fuel r c v small enough (ground arith) in
            let both = same_hash (expected r c) r.tick_hash (check_signature v r) in
            (
              (_, e),
              (
                (λ h. let (q, s) = both.0 (sym e ∙ h) in (ground arith, q, s)),
                (λ (p, q, s). e ∙ both.1 (q, s)),
              ),
            )
      ]

  -- A record that claims the largest uint64 is never answered: the loop's index wraps to 0 and the
  -- loop goes on, for every checkpoint before it and however long one waits.
  pub verify_record_diverges :
      (fuel : ℕ) (r : Record) (c : Checkpoint) (v : Option (List ℕ → List ℕ → Bool))
      → r.tick_index ≡ max_uint64
      → c.tick_index < max_uint64
      → verify_record hash fuel r c v ≡ none
  unfolding verify_record
  verify_record_diverges fuel r c v top earlier =
      rw top
        (ground (arith, hash_loop_diverges hash fuel ((c.tick_index + 1) % 2 ^ 64) c.tick_hash))

  -- A signature does not bind a record: an accepted record is accepted again by the same verifier
  -- with its signature taken off and any event and data put in their place.
  pub verify_record_stripped :
      (fuel : ℕ) (r : Record) (c : Checkpoint) (v : Option (List ℕ → List ℕ → Bool))
      (event_type data_hash : List ℕ)
      → verify_record hash fuel r c v ≡ some true
      → verify_record hash fuel
          (record r { event_type = event_type; data_hash = data_hash; signature = [] })
          c
          v
        ≡ some true
  unfolding verify_record check_signature
  verify_record_stripped fuel r c none e d h = h
  verify_record_stripped fuel r c (some verify) e d h = ground arith

  module _ (event_type data_hash : List ℕ) (sign : List ℕ → List ℕ)
      (verify : List ℕ → List ℕ → Bool)
      (signed : (msg : List ℕ) → verify msg (sign msg) ≡ true) where
    -- The record of `RecordEvent`, and the check of its signature.
    recorded :
        (g : Generator)
        → let r = (record_event hash event_type data_hash (some sign) g).1 in
          (r.tick_index ≡ (g.tick_index + 1) % 2 ^ 64)
          × (r.tick_hash ≡ hash g.last_hash)
          × (check_signature (some verify) r ≡ true)
    unfolding record_event advance check_signature to_sign
    recorded g =
        let r = (record_event hash event_type data_hash (some sign) g).1 in
        (refl, refl, check_accepts verify r (signed (to_sign r)))

    -- The record of `RecordEvent` after `n` more ticks passes the check of `VerifyRecord` against a
    -- checkpoint that was taken before, if the verifier accepts what the signer signs and the
    -- record's tick is below the largest uint64.
    pub verify_record-record_event :
        (fuel n now : ℕ) (g : Generator)
        → g.tick_index + n + 1 < max_uint64
        → n + 1 < fuel
        → verify_record hash fuel
            (record_event hash event_type data_hash (some sign) (tick_n hash n g).0).1
            (create_checkpoint g now)
            (some verify)
          ≡ some true
    unfolding tick_n create_checkpoint
    verify_record-record_event fuel n now g small enough =
        let a = advance_n-After hash n g (omega arith) in
        let index : (advance_n hash n g).tick_index ≡ g.tick_index + n = omega (arith, a.index) in
        let (ri, rh, rs) = recorded (advance_n hash n g) in
        let at : (record_event hash event_type data_hash (some sign)
              (advance_n hash n g)).1.tick_index
            ≡ g.tick_index + (n + 1) =
          omega (arith, ri) in
        let gap : g.tick_index + (n + 1) - g.tick_index ≡ n + 1 = omega arith in
        (verify_record_accepts fuel _ (create_checkpoint g now) (some verify) (omega arith)
            (omega arith)).1.1
          (omega arith, rw (rh, at, gap, a.chain, iterate-add) refl, rs)
