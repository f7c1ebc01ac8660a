-- ===== src/History.antt =====
-- pkg/poh/poh.go, the proof of history: a chain of SHA-256 hashes as a clock. SHA-256 is the
-- parameter `hash`, the clock's reading the argument `now`. Each method holds the mutex from its
-- first line to its last, so it is one step on the generator. The proofs are in the modules below.
pub mod Loop
pub mod Ticks
pub mod Verification
pub mod Chain
mod Runs
use relaymeshnet.Base.{
  ℕ, zero, suc, ◌+◌, ◌%◌, ◌^◌, Bool, true, false, not, ◌&&◌, List, [], ◌∷◌, ◌++◌,
}
use relaymeshnet.Base.{Option, none, some, length, ltb, leb, bytes_eq, if◌then◌else◌}
use relaymeshnet.Base.Words.{put_uint64}

pub record Generator : Type 0 where
  pub seed : List ℕ
  pub last_hash : List ℕ
  pub tick_index : ℕ
  pub start_time : ℕ

pub record Record : Type 0 where
  pub tick_index : ℕ
  pub tick_hash : List ℕ
  pub event_type : List ℕ
  pub data_hash : List ℕ
  pub signature : List ℕ

pub record Checkpoint : Type 0 where
  pub tick_index : ℕ
  pub tick_hash : List ℕ
  pub timestamp : ℕ

unfoldable pub new_generator : List ℕ → ℕ → Generator
new_generator seed now = record { seed = seed; last_hash = seed; tick_index = 0; start_time = now }

-- The 72 bytes that are signed: the tick in 8 bytes, and two hashes of 32.
unfoldable pub to_sign : Record → List ℕ
to_sign r = put_uint64 r.tick_index ++ r.tick_hash ++ r.data_hash

unfoldable pub create_checkpoint : Generator → ℕ → Checkpoint
create_checkpoint g now = record {
  tick_index = g.tick_index;
  tick_hash = g.last_hash;
  timestamp = now;
}

-- `none` is a nil `verifyFunc`.
unfoldable pub check_signature : Option (List ℕ → List ℕ → Bool) → Record → Bool
check_signature none r = true
check_signature (some verify) r =
    if ltb 0 (length r.signature) then verify (to_sign r) r.signature else true

module _ (hash : List ℕ → List ℕ) where
  -- The two lines that `Tick`, `TickN` and `RecordEvent` share; the index is a uint64.
  unfoldable pub advance : Generator → Generator
  advance g = record g { last_hash = hash g.last_hash; tick_index = (g.tick_index + 1) % 2 ^ 64 }

  unfoldable pub tick : Generator → Generator × List ℕ
  tick g = (advance g, (advance g).last_hash)

  -- The loop of `TickN`; a negative count makes no round, like 0.
  unfoldable pub advance_n : ℕ → Generator → Generator
  advance_n zero g = g
  advance_n (suc n) g = advance_n n (advance g)

  unfoldable pub tick_n : ℕ → Generator → Generator × List ℕ
  tick_n n g = let g' = advance_n n g in (g', g'.last_hash)

  -- `none` is a nil `signFunc`; the record then has no signature.
  unfoldable pub record_event :
      List ℕ → List ℕ → Option (List ℕ → List ℕ) → Generator → Generator × Record
  record_event event_type data_hash sign_func g =
      let g' = advance g in
      let unsigned : Record = record {
        tick_index = g'.tick_index;
        tick_hash = g'.last_hash;
        event_type = event_type;
        data_hash = data_hash;
        signature = [];
      } in
      elim sign_func [
        | none ↦ (g', unsigned)
        | some sign ↦ (g', record unsigned { signature = sign (to_sign unsigned) })
      ]

  -- `for i := ...; i <= last; i++ { hash = sha256.Sum256(hash[:]) }` on a uint64 that wraps.
  -- `none` means that the loop has not ended after `fuel` tests.
  unfoldable pub hash_loop : ℕ → ℕ → ℕ → List ℕ → Option (List ℕ)
  hash_loop zero i last current = none
  hash_loop (suc fuel) i last current =
      let more = hash_loop fuel ((i + 1) % 2 ^ 64) last (hash current) in
      if leb i last then more else some current

  unfoldable pub verify_record :
      ℕ → Record → Checkpoint → Option (List ℕ → List ℕ → Bool) → Option Bool
  unfolding bytes_eq check_signature
  verify_record fuel r c verify_func =
      if leb r.tick_index c.tick_index
      then some false
      else elim (hash_loop fuel ((c.tick_index + 1) % 2 ^ 64) r.tick_index c.tick_hash) [
        | none ↦ none
        | some current ↦
            if not (bytes_eq current r.tick_hash)
            then some false
            else some (check_signature verify_func r)
      ]

  unfoldable pub verify_chain : ℕ → List ℕ → ℕ → List ℕ → ℕ → Option Bool
  unfolding bytes_eq
  verify_chain fuel start_hash start_tick end_hash end_tick =
      if leb end_tick start_tick
      then some false
      else elim (hash_loop fuel ((start_tick + 1) % 2 ^ 64) end_tick start_hash) [
        | none ↦ none
        | some current ↦ some (bytes_eq current end_hash)
      ]
