-- ===== src/Dht/Bucket/Laws.antt =====
-- What `Add` and `Remove` do to a bucket, on every branch.
use relaymeshnet.Base.{ℕ, ◌-◌, ◌≤◌, ◌<◌, ◌≡◌, refl, sym, ap, ◌∙◌, arith, inl, inr}
use relaymeshnet.Base.{List, [], ◌∷◌, ◌++◌, none, some, Bool, true, false, Bool-cases}
use relaymeshnet.Base.{
  length, length-append, get_or, set, if◌then◌else◌, All, ltb, bytes_eq, bytes_eq→eq,
}
use relaymeshnet.Dht.Key.{bucket_size}
use relaymeshnet.Dht.Bucket.{Node, Bucket, no_node, stale_after, oldest_from, add, remove}
use relaymeshnet.Dht.Bucket.Members.{
  find, find_id, IsDistinct, seen, mark, without, Hit, index_of-find,
}
use relaymeshnet.Dht.Bucket.Members.{find-mark, find-without, find-append, find-set}
use relaymeshnet.Dht.Bucket.Members.{mark-IsDistinct, without-IsDistinct, append-IsDistinct}
use relaymeshnet.Dht.Bucket.Members.{set-IsDistinct, length-mark, length-without, length-set}
use relaymeshnet.Dht.Bucket.Oldest.{IsOldest, oldest_from_lem}

pub record IsValid (b : Bucket) : Type 0 where
  pub distinct : IsDistinct b.nodes
  pub bounded : length b.nodes ≤ bucket_size

-- The lookups after a write, each by the lookups before it.
abbrev pub Stores : Node → Bucket → Bucket → Type 0
Stores new b b' =
    (j : List ℕ) → find j b'.nodes ≡ (if bytes_eq new.id j then some new else find j b.nodes)

abbrev pub Replaces : Node → Node → Bucket → Bucket → Type 0
Replaces old new b b' =
    (j : List ℕ)
    → find j b'.nodes ≡ (
        if bytes_eq new.id j
        then some new
        else (if bytes_eq old.id j then none else find j b.nodes))

-- What `Add` can do: refresh the node that it knows; store the new node where there is room; put it
-- in the place of the oldest node, if that was not seen for 15 minutes; or leave the bucket alone
-- when it is full of nodes that were.
pub data Adds (now later : ℕ) (node : Node) (b b' : Bucket) : Bool → Type 0 where
  refreshed :
      (old : Node)
      → find node.id b.nodes ≡ some old
      → Stores (seen now old) (b) b'
      → Adds now later node b b' true
  stored :
      find node.id b.nodes ≡ none
      → length b.nodes < bucket_size
      → Stores (seen now node) b b'
      → Adds now later node b b' true
  replaced :
      (old : Node)
      → find node.id b.nodes ≡ none
      → length b.nodes ≡ bucket_size
      → IsOldest old b.nodes
      → stale_after < later - old.last_seen
      → Replaces old (seen now node) b b'
      → Adds now later node b b' true
  refused :
      find node.id b.nodes ≡ none
      → length b.nodes ≡ bucket_size
      → All (λ n. later - n.last_seen ≤ stale_after) b.nodes
      → b' ≡ b
      → Adds now later node b b' false

IsOldest-fresh :
    (later : ℕ) (old : Node) (ns : List Node)
    → IsOldest old ns
    → later - old.last_seen ≤ stale_after
    → All (λ n. later - n.last_seen ≤ stale_after) ns
IsOldest-fresh later old [] h le = tt
IsOldest-fresh later old (n ∷ ns) h le = (omega arith, IsOldest-fresh later old ns h.1 le)

module _ (now later : ℕ) (node : Node) (b : Bucket) where
  pub add_known :
      (i : ℕ) (old : Node)
      → Hit node.id b.nodes i old
      → add now later node b ≡ (record b { nodes = mark now node.id b.nodes }, true)
  unfolding add
  add_known i old hit = rw (hit.index, add, hit.marked now) refl

  pub add_new :
      find node.id b.nodes ≡ none
      → let at = oldest_from b.nodes 0 0 b.nodes in
        add now later node b ≡ (
          if ltb (length b.nodes) bucket_size
          then (record b { nodes = b.nodes ++ seen now node ∷ [] }, true)
          else (if ltb stale_after (later - (get_or b.nodes at no_node).last_seen)
              then (record b { nodes = set b.nodes at (seen now node) }, true)
              else (b, false)))
  unfolding add
  add_new e = elim (index_of-find node.id b.nodes) [
    | inl (missing, _) ↦ rw (missing, add) refl
    | inr (i, old, hit) ↦ absurd (cc (e, hit.node))
  ]

module _ (now later : ℕ) (node : Node) (b : Bucket) (v : IsValid b) where
  abbrev Outcome : Bucket × Bool → Type 0
  Outcome r = IsValid r.0 × Adds now later node b r.0 r.1

  add_full :
      find node.id b.nodes ≡ none → bucket_size ≤ length b.nodes → Outcome (add now later node b)
  add_full e full =
      let at = oldest_from b.nodes 0 0 b.nodes in
      let old = get_or b.nodes at no_node in
      let (inside, oldest) = oldest_from_lem b.nodes (omega arith) in
      let exact : length b.nodes ≡ bucket_size = omega (arith, v.bounded) in
      let room : ltb (length b.nodes) bucket_size ≡ false = ground arith in
      elim (Bool-cases (ltb stale_after (later - old.last_seen))) [
        | inl stale ↦
            rw (add_new now later node b e, room, stale)
              (
                record {
                  distinct = set-IsDistinct b.nodes at (seen now node) v.distinct inside e;
                  bounded = omega (arith, length-set b.nodes at (seen now node), v.bounded);
                },
                replaced old e exact oldest (ground arith)
                    (λ j. find-set j b.nodes at (seen now node) v.distinct inside e),
              )
        | inr fresh ↦
            rw (add_new now later node b e, room, fresh)
              (v, refused e exact (IsOldest-fresh later old b.nodes oldest (ground arith)) refl)
      ]

  -- `Add` on a bucket of at most 20 nodes with distinct ids keeps it so, and does one of four things: it
  -- refreshes the node that it knows; stores a new one where there is room; puts it in the place of
  -- the oldest, if that was not seen for 15 minutes; or refuses it and leaves the bucket alone.
  pub add-Adds : Outcome (add now later node b)
  add-Adds = elim (index_of-find node.id b.nodes) [
    | inr (i, old, hit) ↦
        let same = find_id node.id b.nodes old hit.node in
        rw (add_known now later node b i old hit) (
          record {
            distinct = mark-IsDistinct now node.id b.nodes v.distinct;
            bounded = omega (arith, length-mark now node.id b.nodes, v.bounded);
          },
          refreshed old hit.node (λ j.
              find-mark now node.id j b.nodes old hit.node
              ∙ ap (λ (k : List ℕ). if bytes_eq k j then some (seen now old) else find j b.nodes)
                  (sym same)),
        )
    | inl (_, e) ↦ elim (Bool-cases (ltb (length b.nodes) bucket_size)) [
      | inr full ↦ add_full e (ground arith)
      | inl room ↦
          rw (add_new now later node b e, room)
            (
              record {
                distinct = append-IsDistinct b.nodes (seen now node) v.distinct e;
                bounded = ground (arith, length-append b.nodes (seen now node ∷ []));
              },
              stored e (ground arith) (λ j. find-append j b.nodes (seen now node) e),
            )
    ]
  ]

pub remove_known :
    (id : List ℕ) (b : Bucket) (i : ℕ) (old : Node)
    → Hit id b.nodes i old
    → remove id b ≡ record b { nodes = without id b.nodes }
unfolding remove
remove_known id b i old hit = rw (hit.index, remove, hit.dropped) refl

pub remove_missing : (id : List ℕ) (b : Bucket) → find id b.nodes ≡ none → remove id b ≡ b
unfolding remove
remove_missing id b e = elim (index_of-find id b.nodes) [
  | inl (missing, _) ↦ rw (missing, remove) refl
  | inr (i, old, hit) ↦ absurd (cc (e, hit.node))
]

-- `Remove` on a bucket of at most 20 nodes with distinct ids keeps it so, removes the node with the id,
-- and keeps every other node.
pub remove_lem :
    (id j : List ℕ) (b : Bucket)
    → IsValid b
    → IsValid (remove id b)
      × (find j (remove id b).nodes ≡ (if bytes_eq id j then none else find j b.nodes))
remove_lem id j b v = elim (index_of-find id b.nodes) [
  | inl (_, e) ↦ rw (remove_missing id b e) (v, ground (arith, bytes_eq→eq id j))
  | inr (i, old, hit) ↦ rw (remove_known id b i old hit) (
    record {
      distinct = without-IsDistinct id b.nodes v.distinct;
      bounded = omega (arith, length-without id b.nodes, v.bounded);
    },
    find-without id j b.nodes v.distinct,
  )
]
