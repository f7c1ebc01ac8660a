-- ===== src/Dht/Store/Laws.antt =====
-- The store as a map whose values are there until they expire.
use relaymeshnet.Base.{ℕ, ◌+◌, ◌≤◌, ◌≡◌, refl, sym, ap, ◌∙◌, arith}
use relaymeshnet.Base.{List, [], ◌∷◌, Option, none, some}
use relaymeshnet.Base.{ltb, bytes_eq, if◌then◌else◌}
use relaymeshnet.Base.Maps.{lookup, IsMap, keep, lookup-insert, lookup-erase, insert-IsMap}
use relaymeshnet.Base.Maps.{purge, erase-IsMap, purge-IsMap, lookup-purge, length-purge}
use relaymeshnet.Dht.Store.{
  Value, Store, new_store, new_value, put, is_expired, get, delete, cleanup,
}
use relaymeshnet.Dht.Store.{count}

-- A call of a method that writes.
pub data Call : Type 0 where
  puts : ℕ → List ℕ → List ℕ → List ℕ → ℕ → Call
  deletes : List ℕ → Call
  cleanups : ℕ → Call

unfoldable pub step : Call → Store → Store
step (puts now key content signature ttl) s = put now key content signature ttl s
step (deletes key) s = delete key s
step (cleanups now) s = (cleanup now s).0

unfoldable pub run : List Call → Store → Store
run [] s = s
run (c ∷ cs) s = run cs (step c s)

step-IsMap : (c : Call) (s : Store) → IsMap s.values → IsMap (step c s).values
unfolding step put delete cleanup
step-IsMap (puts now key content signature ttl) s h = insert-IsMap key _ s.values h
step-IsMap (deletes key) s h = erase-IsMap key s.values h
step-IsMap (cleanups now) s h = purge-IsMap _ s.values h

pub run-IsMap : (cs : List Call) (s : Store) → IsMap s.values → IsMap (run cs s).values
unfolding run
run-IsMap [] s h = h
run-IsMap (c ∷ cs) s h = run-IsMap cs (step c s) (step-IsMap c s h)

-- What a `Get` at time `now` gives for a value that is stored.
abbrev pub fresh : ℕ → Option Value → Option Value
fresh now = keep (is_expired now)

pub get-fresh :
    (now : ℕ) (key : List ℕ) (s : Store) → get now key s ≡ fresh now (lookup key s.values)
unfolding get
get-fresh now key s = ground arith

-- `Get` reads the last value that was put under the key, until it expires; a deleted key gives
-- nothing; and neither call changes what `Get` reads under another key.
pub get_after :
    (t now : ℕ) (key j content signature : List ℕ) (ttl : ℕ) (s : Store)
    → (get t j (put now key content signature ttl s) ≡ (
        if bytes_eq key j
        then (if ltb (now + ttl) t then none else some (new_value now content signature ttl))
        else get t j s))
      × (get t j (delete key s) ≡ (if bytes_eq key j then none else get t j s))
unfolding get put delete
get_after t now key j content signature ttl s = (
  ground (arith, lookup-insert key j (new_value now content signature ttl) s.values),
  ground (arith, lookup-erase key j s.values),
)

fresh-keep :
    (now t : ℕ) (o : Option Value) → now ≤ t → fresh t (keep (is_expired now) o) ≡ fresh t o
fresh-keep now t none h = refl
fresh-keep now t (some v) h = ground arith

-- After any calls on a new store, no `Get` from then on can tell whether `Cleanup` ran, and `Cleanup`
-- returns by how much the count of values fell.
pub cleanup_unseen :
    (cs : List Call) (now t : ℕ) (key : List ℕ)
    → now ≤ t
    → let s = run cs new_store in
      (get t key (cleanup now s).0 ≡ get t key s)
      × (count (cleanup now s).0 + (cleanup now s).1 ≡ count s)
unfolding cleanup count
cleanup_unseen cs now t key h =
    let s = run cs new_store in
    let m = run-IsMap cs new_store (unfold new_store in tt) in
    let after : Store = record s { values = purge (is_expired now) s.values } in
    (
      get-fresh t key after
          ∙ ap (fresh t) (lookup-purge (is_expired now) key s.values m)
          ∙ fresh-keep now t (lookup key s.values) h
          ∙ sym (get-fresh t key s),
      length-purge _ _,
    )
