-- ===== src/Dht/Store.antt =====
-- `Store` of pkg/dht/store.go: signed values that expire. Times and durations are numbers of
-- nanoseconds, `now` is the clock's reading in the call. Each method holds the lock throughout.
-- The proofs are in the modules below.
pub mod Laws
mod Runs
use relaymeshnet.Base.{ℕ, ◌+◌, Bool, List, [], Option, none, some, length, select, ltb}
use relaymeshnet.Base.{if◌then◌else◌}
use relaymeshnet.Base.Maps.{lookup, insert, erase, purge}

-- `content` is the field Data.
pub record Value : Type 0 where
  pub content : List ℕ
  pub signature : List ℕ
  pub ttl : ℕ
  pub stored_at : ℕ
  pub expires_at : ℕ

pub record Store : Type 0 where
  pub values : List (List ℕ × Value)

unfoldable pub new_store : Store
new_store = record { values = [] }

-- The value that `Put` stores.
abbrev pub new_value : ℕ → List ℕ → List ℕ → ℕ → Value
new_value now content signature ttl = record {
  content = content;
  signature = signature;
  ttl = ttl;
  stored_at = now;
  expires_at = now + ttl;
}

unfoldable pub put : ℕ → List ℕ → List ℕ → List ℕ → ℕ → Store → Store
put now key content signature ttl s = record s {
  values = insert key (new_value now content signature ttl) s.values;
}

-- `now.After(val.ExpiresAt)`
abbrev pub is_expired : ℕ → Value → Bool
is_expired now v = ltb v.expires_at now

unfoldable pub get : ℕ → List ℕ → Store → Option Value
get now key s = elim (lookup key s.values) [
  | none ↦ none
  | some v ↦ if is_expired now v then none else some v
]

unfoldable pub delete : List ℕ → Store → Store
delete key s = record s { values = erase key s.values }

unfoldable pub cleanup : ℕ → Store → Store × ℕ
cleanup now s = (
  record s { values = purge (is_expired now) s.values },
  length (select (λ e. is_expired now e.1) s.values),
)

unfoldable pub count : Store → ℕ
count s = length s.values
