-- ===== src/Dht/Table.antt =====
-- `Table` of pkg/dht/table.go: 160 buckets, a node in the one that the leading zeros of its distance
-- name. `sort.Slice` is an insertion sort. The readers' and writers' locks make each method one step.
-- The proofs are in the modules below.
pub mod Placement
pub mod Closest
mod Runs
use relaymeshnet.Base.{ℕ, zero, suc, ◌+◌, ◌-◌, Bool, true, false, List, [], ◌∷◌, ◌++◌, map}
use relaymeshnet.Base.{length, take, set, get_or, replicate, ltb, leb, bytes_eq, if◌then◌else◌}
use relaymeshnet.Dht.Key.{max_buckets, xor, leading_zeros, less}
use relaymeshnet.Dht.Bucket
use relaymeshnet.Dht.Bucket.{Node, Bucket, new_bucket}

pub record Table : Type 0 where
  pub self_id : List ℕ
  pub buckets : List Bucket

unfoldable pub new_table : List ℕ → Table
new_table self_id = record { self_id = self_id; buckets = replicate max_buckets new_bucket }

-- The two lines that `Add` and `Remove` share.
unfoldable pub bucket_index : List ℕ → List ℕ → ℕ
bucket_index self_id id =
    let i = leading_zeros (xor self_id id) in if leb max_buckets i then max_buckets - 1 else i

unfoldable pub add : ℕ → ℕ → Node → Table → Table × Bool
add now later node t =
    if bytes_eq node.id t.self_id
    then (t, false)
    else (let i = bucket_index t.self_id node.id in
        let (b, added) = Bucket.add now later node (get_or t.buckets i new_bucket) in
        (record t { buckets = set t.buckets i b }, added))

unfoldable pub remove : List ℕ → Table → Table
remove id t =
    let i = bucket_index t.self_id id in
    record t { buckets = set t.buckets i (Bucket.remove id (get_or t.buckets i new_bucket)) }

-- The nodes of all buckets, in the order of the two loops of `Closest`.
unfoldable pub all_nodes : List Bucket → List Node
all_nodes [] = []
all_nodes (b ∷ bs) = b.nodes ++ all_nodes bs

pub record NodeDist : Type 0 where
  pub node : Node
  pub dist : List ℕ

abbrev pub node_dist : List ℕ → Node → NodeDist
node_dist target n = record { node = n; dist = xor target n.id }

unfoldable pub insert : NodeDist → List NodeDist → List NodeDist
insert x [] = x ∷ []
insert x (y ∷ ys) = if less x.dist y.dist then x ∷ y ∷ ys else y ∷ insert x ys

unfoldable pub sort : List NodeDist → List NodeDist
unfolding insert
sort [] = []
sort (x ∷ xs) = insert x (sort xs)

unfoldable pub closest : List ℕ → ℕ → Table → List Node
closest target count t =
    let all = sort (map (node_dist target) (all_nodes t.buckets)) in
    map (λ nd. nd.node) (if ltb count (length all) then take count all else all)

unfoldable pub count_nodes : List Bucket → ℕ
count_nodes [] = 0
count_nodes (b ∷ bs) = length b.nodes + count_nodes bs

unfoldable pub count : Table → ℕ
unfolding count_nodes
count t = count_nodes t.buckets
