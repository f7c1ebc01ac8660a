-- ===== src/Dht/Table/Closest.antt =====
-- `Closest` returns the nodes of the table that are nearest to the target.
use relaymeshnet.Base.{ℕ, suc, ◌≡◌, refl, sym, ap, ◌∙◌, arith, inl, inr, min}
use relaymeshnet.Base.{List, [], ◌∷◌, ◌++◌, map, true, false, Bool-cases, All, ltb}
use relaymeshnet.Base.{length, length-append, length-map, length-take, take, drop, take-append-drop}
use relaymeshnet.Base.{if◌then◌else◌, take_all}
use mathlib.Core.List.{Perm, map-append}
use mathlib.Core.List.Perm
use relaymeshnet.Dht.Key.{xor, less}
use relaymeshnet.Dht.Key.Distance.{less_trans, less_asymm}
use relaymeshnet.Dht.Bucket.{Node, Bucket}
use relaymeshnet.Dht.Table.{Table, NodeDist, node_dist, insert, sort, all_nodes, closest}
use relaymeshnet.Dht.Table.{count_nodes, count}

-- No node stands before one that is nearer.
abbrev pub IsNearest : (Node → List ℕ) → List Node → Type 0
IsNearest dist [] = Unit {0}
IsNearest dist (n ∷ ns) = All (λ m. less (dist m) (dist n) ≡ false) ns × IsNearest dist ns

abbrev nodes_of : List NodeDist → List Node
nodes_of = map (λ nd. nd.node)

-- The list is sorted by its distances, which are those of its nodes to the target.
abbrev IsSorted : List ℕ → List NodeDist → Type 0
IsSorted target [] = Unit {0}
IsSorted target (x ∷ xs) =
    (x.dist ≡ xor target x.node.id) × All (λ y. less y.dist x.dist ≡ false) xs × IsSorted target xs

not_below :
    (x y : NodeDist) (zs : List NodeDist)
    → less x.dist y.dist ≡ true
    → All (λ z. less z.dist y.dist ≡ false) zs
    → All (λ z. less z.dist x.dist ≡ false) zs
not_below x y [] lt h = tt
not_below x y (z ∷ zs) lt h =
    (ground (arith, less_trans z.dist x.dist y.dist), not_below x y zs lt h.1)

insert-All :
    (P : NodeDist → Type 0) (x : NodeDist) (ys : List NodeDist)
    → P x
    → All P ys
    → All P (insert x ys)
unfolding insert
insert-All P x [] h hs = (h, tt)
insert-All P x (y ∷ ys) h hs = elim (Bool-cases (less x.dist y.dist)) [
  | inl lt ↦ rw lt (h, hs)
  | inr ge ↦ rw ge (hs.0, insert-All P x ys h hs.1)
]

insert-IsSorted :
    (target : List ℕ) (x : NodeDist) (ys : List NodeDist)
    → x.dist ≡ xor target x.node.id
    → IsSorted target ys
    → IsSorted target (insert x ys)
unfolding insert
insert-IsSorted target x [] e h = (e, tt, tt)
insert-IsSorted target x (y ∷ ys) e h = elim (Bool-cases (less x.dist y.dist)) [
  | inl lt ↦
      let gt : less y.dist x.dist ≡ false = less_asymm x.dist y.dist lt in
      rw lt (e, (gt, not_below x y ys lt h.1), h)
  | inr ge ↦ rw ge (
    h.0,
    insert-All (λ z. less z.dist y.dist ≡ false) x ys ge h.1,
    insert-IsSorted target x ys e h.2,
  )
]

insert-perm :
    (x : NodeDist) (ys : List NodeDist) → Perm (nodes_of (insert x ys)) (nodes_of (x ∷ ys))
unfolding insert
insert-perm x [] = Perm.refl _
insert-perm x (y ∷ ys) = elim (Bool-cases (less x.dist y.dist)) [
  | inl lt ↦ rw lt (Perm.refl _)
  | inr ge ↦ rw ge (Perm.trans (Perm.cons y.node (insert-perm x ys)) (Perm.swap _ _ _))
]

sort-IsSorted :
    (target : List ℕ) (ns : List Node) → IsSorted target (sort (map (node_dist target) ns))
unfolding sort
sort-IsSorted target [] = tt
sort-IsSorted target (n ∷ ns) = insert-IsSorted target _ _ refl (sort-IsSorted target ns)

sort-perm :
    (target : List ℕ) (ns : List Node) → Perm (nodes_of (sort (map (node_dist target) ns))) ns
unfolding sort
sort-perm target [] = Perm.refl _
sort-perm target (n ∷ ns) = Perm.trans (insert-perm _ _) (Perm.cons n (sort-perm target ns))

IsSorted-IsNearest :
    (target : List ℕ) (xs : List NodeDist)
    → IsSorted target xs
    → IsNearest (λ n. xor target n.id) (nodes_of xs)
IsSorted-IsNearest target [] h = tt
IsSorted-IsNearest target (x ∷ xs) h = (behind xs h.1 h.2, IsSorted-IsNearest target xs h.2)
  where
    behind :
        (ys : List NodeDist)
        → All (λ y. less y.dist x.dist ≡ false) ys
        → IsSorted target ys
        → All (λ m. less (xor target m.id) (xor target x.node.id) ≡ false) (nodes_of ys)
    behind [] p q = tt
    behind (y ∷ ys) p q = (rw (← h.0, ← q.0) p.0, behind ys p.1 q.2)

length-all_nodes : (bs : List Bucket) → length (all_nodes bs) ≡ count_nodes bs
unfolding all_nodes count_nodes
length-all_nodes [] = refl
length-all_nodes (b ∷ bs) = omega (arith, length-append b.nodes (all_nodes bs), length-all_nodes bs)

length-insert : (x : NodeDist) (ys : List NodeDist) → length (insert x ys) ≡ suc (length ys)
unfolding insert
length-insert x [] = refl
length-insert x (y ∷ ys) = ground (arith, length-insert x ys)

length-sort : (xs : List NodeDist) → length (sort xs) ≡ length xs
unfolding sort
length-sort [] = refl
length-sort (x ∷ xs) = omega (arith, length-insert x (sort xs), length-sort xs)

cut_at_most :
    (count : ℕ) (xs : List NodeDist)
    → (if ltb count (length xs) then take count xs else xs) ≡ take count xs
cut_at_most count xs = elim (Bool-cases (ltb count (length xs))) [
  | inl more ↦ rw more refl
  | inr fewer ↦ rw fewer (sym (take_all count xs (ground arith)))
]

-- `Closest` returns `count` nodes, or all that the table has if these are fewer. With the nodes that
-- it leaves out they are the nodes of the table, and no node of this list stands before one that is
-- nearer to the target: the result is sorted by distance, and nothing left out is nearer.
pub closest_lem :
    (target : List ℕ) (n : ℕ) (t : Table)
    → (rest : List Node) × Perm (closest target n t ++ rest) (all_nodes t.buckets)
      × (length (closest target n t) ≡ min n (count t))
      × IsNearest (λ m. xor target m.id) (closest target n t ++ rest)
unfolding closest count
closest_lem target n t =
    let sorted = sort (map (node_dist target) (all_nodes t.buckets)) in
    let whole : nodes_of (take n sorted) ++ nodes_of (drop n sorted) ≡ nodes_of sorted =
      sym (map-append _ (take n sorted) (drop n sorted))
      ∙ ap nodes_of (take-append-drop n sorted) in
    rw (cut_at_most n sorted) (
      nodes_of (drop n sorted),
      rw whole (sort-perm target (all_nodes t.buckets)),
      omega (
        arith,
        length-map (λ (nd : NodeDist). nd.node) (take n sorted),
        length-take n sorted,
        length-sort (map (node_dist target) (all_nodes t.buckets)),
        length-map (node_dist target) (all_nodes t.buckets),
        length-all_nodes t.buckets,
      ),
      rw whole (IsSorted-IsNearest target sorted (sort-IsSorted target (all_nodes t.buckets))),
    )
