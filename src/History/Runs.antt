-- ===== src/History/Runs.antt =====
-- A toy hash and signature, a generator, and the theorems at it.
use relaymeshnet.Base.{ℕ, ◌+◌, ◌%◌, ◌<◌, ◌≡◌, ◌↔◌, refl, arith, List, [], ◌∷◌}
use relaymeshnet.Base.{none, some, Bool, true, bytes_eq, bytes_eq_refl}
use relaymeshnet.History.{Generator, Record, Checkpoint, new_generator, tick_n}
use relaymeshnet.History.{record_event, create_checkpoint, hash_loop, verify_record}
use relaymeshnet.History.{verify_chain}
use relaymeshnet.History.Loop.{max_uint64, iterate}
use relaymeshnet.History.Ticks.{ticks, ticks_n, checkpoints, run, run-new_generator}
use relaymeshnet.History.Verification.{verify_record_diverges}
use relaymeshnet.History.Verification.{verify_record_stripped, verify_record-record_event}
use relaymeshnet.History.Chain.{verify_chain_accepts}

-- Adds one to the first byte.
abbrev toy_hash : List ℕ → List ℕ
toy_hash [] = 1 ∷ []
toy_hash (x ∷ xs) = ((x + 1) % 256) ∷ xs

abbrev toy_sign : List ℕ → List ℕ
toy_sign msg = 9 ∷ msg

abbrev toy_verify : List ℕ → List ℕ → Bool
toy_verify msg sig = bytes_eq sig (9 ∷ msg)

abbrev start : Generator
start = record { seed = 5 ∷ []; last_hash = 5 ∷ []; tick_index = 0; start_time = 100 }

abbrev at_two : Checkpoint
at_two = record { tick_index = 2; tick_hash = 7 ∷ []; timestamp = 101 }

abbrev at_four : Record
at_four = record {
  tick_index = 4;
  tick_hash = 9 ∷ [];
  event_type = b'e' ∷ [];
  data_hash = 3 ∷ [];
  signature = [];
}

at_four_accepted : verify_record toy_hash 3 at_four at_two none ≡ some true
unfolding verify_record hash_loop
at_four_accepted = refl

-- With fuel for one test only the loop has not ended.
at_four_short : verify_record toy_hash 1 at_four at_two none ≡ none
unfolding verify_record hash_loop
at_four_short = refl

run-new_generator_example :
    ((run toy_hash (ticks ∷ ticks_n 3 ∷ checkpoints 7 ∷ []) (new_generator (5 ∷ []) 100)).last_hash
      ≡ 9 ∷ [])
    × ((run toy_hash
          (ticks ∷ ticks_n 3 ∷ checkpoints 7 ∷ [])
          (new_generator (5 ∷ []) 100)).tick_index
        ≡ 4)
    × ((run toy_hash (ticks ∷ ticks_n 3 ∷ checkpoints 7 ∷ []) (new_generator (5 ∷ []) 100)).seed
        ≡ 5 ∷ [])
run-new_generator_example =
    run-new_generator toy_hash (5 ∷ []) 100 (ticks ∷ ticks_n 3 ∷ checkpoints 7 ∷ [])

verify_record_diverges_example :
    verify_record toy_hash 1000000 (record at_four { tick_index = max_uint64 }) at_two none ≡ none
verify_record_diverges_example =
    verify_record_diverges toy_hash 1000000 (record at_four { tick_index = max_uint64 }) at_two none
      refl (omega arith)

verify_record_stripped_example :
    verify_record toy_hash 3
      (record at_four { event_type = b'x' ∷ []; data_hash = 8 ∷ []; signature = [] })
      at_two
      none
    ≡ some true
verify_record_stripped_example =
    verify_record_stripped toy_hash 3 at_four at_two none (b'x' ∷ []) (8 ∷ []) at_four_accepted

verify_record-record_event_example :
    verify_record toy_hash 5
      (record_event toy_hash (b'e' ∷ []) (3 ∷ []) (some toy_sign) (tick_n toy_hash 2 start).0).1
      (create_checkpoint start 101)
      (some toy_verify)
    ≡ some true
verify_record-record_event_example =
    verify_record-record_event toy_hash (b'e' ∷ []) (3 ∷ []) toy_sign toy_verify
      (λ msg. bytes_eq_refl (9 ∷ msg)) 5 2 101 start (omega arith) (omega arith)

verify_chain_accepts_example :
    (verify_chain toy_hash 3 (5 ∷ []) 0 (7 ∷ []) 2 ≡ some true)
    ↔ ((0 < 2) × (7 ∷ [] ≡ iterate toy_hash 2 (5 ∷ [])))
verify_chain_accepts_example =
    verify_chain_accepts toy_hash 3 (5 ∷ []) 0 (7 ∷ []) 2 (omega arith) (omega arith)
