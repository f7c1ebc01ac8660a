-- ===== src/Dht/Bucket/Runs.antt =====
-- A bucket with one node, and the theorems at it.
use relaymeshnet.Base.{ℕ, refl, arith, [], ◌∷◌}
use relaymeshnet.Dht.Bucket.{Node, Bucket, add}
use relaymeshnet.Dht.Bucket.Laws.{IsValid, Adds, add-Adds}

abbrev node : ℕ → ℕ → Node
node n t = record { id = n ∷ []; peer_id = []; address = []; last_seen = t }

abbrev bucket : Bucket
bucket = record { nodes = node 3 10 ∷ [] }

bucket-IsValid : IsValid bucket
bucket-IsValid = record { distinct = (refl, tt); bounded = omega arith }

add-Adds_example :
    IsValid (add 20 21 (node 4 0) bucket).0
    × Adds 20 21 (node 4 0) bucket (add 20 21 (node 4 0) bucket).0 (add 20 21 (node 4 0) bucket).1
add-Adds_example = add-Adds 20 21 (node 4 0) bucket bucket-IsValid
