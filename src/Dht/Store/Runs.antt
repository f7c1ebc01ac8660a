-- ===== src/Dht/Store/Runs.antt =====
-- A store with one value, and the theorems at it.
use relaymeshnet.Base.{◌+◌, ◌≡◌, List, [], ◌∷◌, none, some, bytes_eq}
use relaymeshnet.Base.{if◌then◌else◌, ltb}
use relaymeshnet.Dht.Store.{Store, new_store, new_value, put, get, delete}
use relaymeshnet.Dht.Store.Laws.{Call, puts, deletes, run, get_after}

abbrev calls : List Call
calls = puts 5 (1 ∷ []) (7 ∷ []) [] 10 ∷ puts 6 (2 ∷ []) (8 ∷ []) [] 90 ∷ deletes (3 ∷ []) ∷ []

abbrev store : Store
store = run calls new_store

get_after_example :
    (get 40 (1 ∷ []) (put 20 (1 ∷ []) (9 ∷ []) [] 30 store) ≡ (
      if bytes_eq (1 ∷ []) (1 ∷ [])
      then (if ltb (20 + 30) 40 then none else some (new_value 20 (9 ∷ []) [] 30))
      else get 40 (1 ∷ []) store))
    × (get 40 (1 ∷ []) (delete (1 ∷ []) store)
        ≡ (if bytes_eq (1 ∷ []) (1 ∷ []) then none else get 40 (1 ∷ []) store))
get_after_example = get_after 40 20 (1 ∷ []) (1 ∷ []) (9 ∷ []) [] 30 store
