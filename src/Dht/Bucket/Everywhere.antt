-- ===== src/Dht/Bucket/Everywhere.antt =====
-- What holds of every node of a bucket, through `Add` and `Remove`.
use relaymeshnet.Base.{ℕ, zero, suc, ◌-◌, inl, inr}
use relaymeshnet.Base.{List, [], ◌∷◌, Bool-cases, All, All-append}
use relaymeshnet.Base.{length, set, get_or, ltb, bytes_eq}
use relaymeshnet.Dht.Key.{bucket_size}
use relaymeshnet.Dht.Bucket
use relaymeshnet.Dht.Bucket.{Node, Bucket, no_node, new_bucket, index_of, touch, stale_after}
use relaymeshnet.Dht.Bucket.{oldest_from}
use relaymeshnet.Dht.Bucket.Members.{seen, mark, without, index_of-find}
use relaymeshnet.Dht.Bucket.Laws.{add_known, add_new, remove_known, remove_missing}

-- A write at an index keeps what holds of every element, also of the element written.
All-set {ℓ κ} :
    {A : Type ℓ} (P : A → Type κ) (xs : List A) (i : ℕ) (v : A)
    → All P xs
    → P v
    → All P (set xs i v)
All-set P [] i v h p = tt
All-set P (x ∷ xs) zero v h p = (p, h.1)
All-set P (x ∷ xs) (suc i) v h p = (h.0, All-set P xs i v h.1 p)

module _ (P : Node → Type 0) (keeps : (n : Node) (now : ℕ) → P n → P (seen now n)) where
  All-mark : (now : ℕ) (id : List ℕ) (xs : List Node) → All P xs → All P (mark now id xs)
  All-mark now id [] h = tt
  All-mark now id (x ∷ xs) h = elim (Bool-cases (bytes_eq x.id id)) [
    | inl here ↦ rw here (keeps x now h.0, h.1)
    | inr on ↦ rw on (h.0, All-mark now id xs h.1)
  ]

  -- What holds of the nodes of a bucket and of a new node, whenever they were seen, holds after
  -- `Add`.
  pub add-All :
      (now later : ℕ) (node : Node) (b : Bucket)
      → P node
      → All P b.nodes
      → All P (Bucket.add now later node b).0.nodes
  add-All now later node b p h = elim (index_of-find node.id b.nodes) [
    | inr (i, old, hit) ↦ rw (add_known now later node b i old hit) (All-mark now node.id b.nodes h)
    | inl (_, e) ↦
        let at = oldest_from b.nodes 0 0 b.nodes in
        rw (add_new now later node b e) (elim (Bool-cases (ltb (length b.nodes) bucket_size)) [
          | inl room ↦ rw room (All-append P b.nodes _ h (keeps node now p, tt))
          | inr full ↦
              elim (Bool-cases (ltb stale_after (later - (get_or b.nodes at no_node).last_seen))) [
                | inl stale ↦ rw (full, stale) (All-set P b.nodes at _ h (keeps node now p))
                | inr fresh ↦ rw (full, fresh) h
              ]
        ])
  ]

All-without : (P : Node → Type 0) (id : List ℕ) (xs : List Node) → All P xs → All P (without id xs)
All-without P id [] h = tt
All-without P id (x ∷ xs) h = elim (Bool-cases (bytes_eq x.id id)) [
  | inl here ↦ rw here h.1
  | inr on ↦ rw on (h.0, All-without P id xs h.1)
]

pub remove-All :
    (P : Node → Type 0) (id : List ℕ) (b : Bucket)
    → All P b.nodes
    → All P (Bucket.remove id b).nodes
remove-All P id b h = elim (index_of-find id b.nodes) [
  | inl (_, e) ↦ rw (remove_missing id b e) h
  | inr (i, old, hit) ↦ rw (remove_known id b i old hit) (All-without P id b.nodes h)
]
