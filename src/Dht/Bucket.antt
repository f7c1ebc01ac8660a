-- ===== src/Dht/Bucket.antt =====
-- `Bucket` of pkg/dht/table.go: at most 20 nodes, the oldest replaced when it has gone stale. Times
-- are numbers of nanoseconds. A node is a value; that `Add` also writes LastSeen of the caller's
-- node shows only in the node that it stores. The proofs are in the modules below.
pub mod Members
pub mod Oldest
pub mod Laws
pub mod Everywhere
mod Runs
use relaymeshnet.Base.{ℕ, zero, suc, ◌+◌, ◌-◌, ◌*◌, Bool, true, false, List, [], ◌∷◌, ◌++◌}
use relaymeshnet.Base.{Option, none, some, length, take, drop, set, get_or, ltb, bytes_eq}
use relaymeshnet.Base.{if◌then◌else◌}
use relaymeshnet.Dht.Key.{bucket_size}

pub record Node : Type 0 where
  pub id : List ℕ
  pub peer_id : List ℕ
  pub address : List ℕ
  pub last_seen : ℕ

pub record Bucket : Type 0 where
  pub nodes : List Node

unfoldable pub new_bucket : Bucket
new_bucket = record { nodes = [] }

-- 15 * time.Minute
abbrev pub stale_after : ℕ
stale_after = 15 * 60 * 1000000000

-- The index of the first node with the id; `i` is the loop's index.
unfoldable pub index_of : ℕ → List ℕ → List Node → Option ℕ
unfolding bytes_eq
index_of i id [] = none
index_of i id (n ∷ ns) = if bytes_eq n.id id then some i else index_of (suc i) id ns

abbrev pub no_node : Node
no_node = record { id = []; peer_id = []; address = []; last_seen = 0 }

-- The loop that looks for the oldest node: `i` is its index, `oldest` the result so far, and `all`
-- the slice that `b.nodes[oldest]` reads.
unfoldable pub oldest_from : List Node → ℕ → ℕ → List Node → ℕ
oldest_from all i oldest [] = oldest
oldest_from all i oldest (n ∷ ns) =
    oldest_from all (suc i)
      (if ltb n.last_seen (get_or all oldest no_node).last_seen then i else oldest) ns

-- `b.nodes[i].LastSeen = time.Now()`
abbrev pub touch : ℕ → ℕ → List Node → List Node
touch now i nodes = set nodes i (record (get_or nodes i no_node) { last_seen = now })

-- `now` is the reading for LastSeen, and `later` the one of `time.Since`, which is 0 for a time that
-- is not past.
unfoldable pub add : ℕ → ℕ → Node → Bucket → Bucket × Bool
unfolding index_of oldest_from
add now later node b = elim (index_of 0 node.id b.nodes) [
  | some i ↦ (record b { nodes = touch now i b.nodes }, true)
  | none ↦
      let node' : Node = record node { last_seen = now } in
      let oldest = oldest_from b.nodes 0 0 b.nodes in
      if ltb (length b.nodes) bucket_size
      then (record b { nodes = b.nodes ++ node' ∷ [] }, true)
      else (if ltb stale_after (later - (get_or b.nodes oldest no_node).last_seen)
          then (record b { nodes = set b.nodes oldest node' }, true)
          else (b, false))
]

unfoldable pub remove : List ℕ → Bucket → Bucket
unfolding index_of
remove id b = elim (index_of 0 id b.nodes) [
  | none ↦ b
  | some i ↦ record b { nodes = take i b.nodes ++ drop (suc i) b.nodes }
]
