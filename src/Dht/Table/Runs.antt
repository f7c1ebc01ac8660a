-- ===== src/Dht/Table/Runs.antt =====
-- A history of calls and a search on it, and the theorems at them.
use relaymeshnet.Base.{ℕ, ◌≡◌, List, [], ◌∷◌, ◌++◌, replicate, length, min}
use mathlib.Core.List.{Perm}
use relaymeshnet.Dht.Key.{xor}
use relaymeshnet.Dht.Bucket.{Node}
use relaymeshnet.Dht.Table.{Table, new_table, all_nodes, closest, count}
use relaymeshnet.Dht.Table.Closest.{IsNearest, closest_lem}
use relaymeshnet.Dht.Table.Placement.{IsTable, Call, adds, removes, run, run-new_table-IsTable}

abbrev key : ℕ → List ℕ
key n = n ∷ replicate 19 1

abbrev node : ℕ → Node
node n = record { id = key n; peer_id = []; address = []; last_seen = 0 }

abbrev calls : List Call
calls = adds 10 10 (node 3) ∷ adds 20 20 (node 200) ∷ removes (key 3) ∷ adds 30 31 (node 9) ∷ []

abbrev table : Table
table = run calls (new_table (key 1))

run-new_table-IsTable_example : IsTable table
run-new_table-IsTable_example = run-new_table-IsTable calls (key 1)

closest_lem_example :
    (rest : List Node) × Perm (closest (key 8) 1 table ++ rest) (all_nodes table.buckets)
    × (length (closest (key 8) 1 table) ≡ min 1 (count table))
    × IsNearest (λ m. xor (key 8) m.id) (closest (key 8) 1 table ++ rest)
closest_lem_example = closest_lem (key 8) 1 table
