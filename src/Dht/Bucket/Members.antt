-- ===== src/Dht/Bucket/Members.antt =====
-- The nodes of a bucket by their ids, and what the writes at an index do to them.
use mathlib.Core.Option
use relaymeshnet.Base.{ℕ, zero, suc, ◌≤◌, ◌<◌, ◌≡◌, refl, ap, arith, inl, inr}
use relaymeshnet.Base.{List, [], ◌∷◌, ◌++◌, Option, none, some, false, Bool-cases, ◌⊎◌}
use relaymeshnet.Base.{length, take, drop, set, get_or, if◌then◌else◌}
use relaymeshnet.Base.{bytes_eq, bytes_eq→eq, bytes_eq_refl, bytes_eq_sym}
use relaymeshnet.Dht.Bucket.{Node, no_node, index_of, touch}

abbrev pub find : List ℕ → List Node → Option Node
find id [] = none
find id (n ∷ ns) = if bytes_eq n.id id then some n else find id ns

-- No id twice.
abbrev pub IsDistinct : List Node → Type 0
IsDistinct [] = Unit {0}
IsDistinct (n ∷ ns) = (find n.id ns ≡ none) × IsDistinct ns

abbrev pub seen : ℕ → Node → Node
seen now n = record n { last_seen = now }

abbrev pub mark : ℕ → List ℕ → List Node → List Node
mark now id [] = []
mark now id (n ∷ ns) = if bytes_eq n.id id then seen now n ∷ ns else n ∷ mark now id ns

abbrev pub without : List ℕ → List Node → List Node
without id [] = []
without id (n ∷ ns) = if bytes_eq n.id id then ns else n ∷ without id ns

index_of_later :
    (i : ℕ) (id : List ℕ) (ns : List Node)
    → index_of (suc i) id ns ≡ Option.map suc (index_of i id ns)
unfolding index_of
index_of_later i id [] = refl
index_of_later i id (n ∷ ns) = ground (arith, index_of_later (suc i) id ns)

-- What the loop over the ids finds: no node, or the first one with the id, and then the writes at its
-- index are the writes at that node.
pub record Hit (id : List ℕ) (ns : List Node) (i : ℕ) (old : Node) : Type 0 where
  pub index : index_of 0 id ns ≡ some i
  pub node : find id ns ≡ some old
  pub marked : (now : ℕ) → touch now i ns ≡ mark now id ns
  pub dropped : take i ns ++ drop (suc i) ns ≡ without id ns

pub index_of-find :
    (id : List ℕ) (ns : List Node)
    → ((index_of 0 id ns ≡ none) × (find id ns ≡ none)) ⊎ ((i : ℕ) × (old : Node) × Hit id ns i old)
unfolding index_of
index_of-find id [] = inl (refl, refl)
index_of-find id (n ∷ ns) = elim (Bool-cases (bytes_eq n.id id)) [
  | inl here ↦ inr (
    zero,
    n,
    record {
      index = rw here refl;
      node = rw here refl;
      marked = λ now. rw here refl;
      dropped = rw here refl;
    },
  )
  | inr on ↦ elim (index_of-find id ns) [
    | inl (missing, e) ↦ inl (rw (on, index_of_later, missing) refl, rw on e)
    | inr (i, old, hit) ↦ inr (
      suc i,
      old,
      record {
        index = rw (on, index_of_later, hit.index) refl;
        node = rw on hit.node;
        marked = λ now. rw on (ap (◌∷◌ n) (hit.marked now));
        dropped = rw on (ap (◌∷◌ n) hit.dropped);
      },
    )
  ]
]

pub find_id : (id : List ℕ) (ns : List Node) (old : Node) → find id ns ≡ some old → old.id ≡ id
find_id id [] old h = cc
find_id id (n ∷ ns) old h = ground (arith, bytes_eq→eq n.id id, find_id id ns old)

pub find-mark :
    (now : ℕ) (id j : List ℕ) (ns : List Node) (old : Node)
    → find id ns ≡ some old
    → find j (mark now id ns) ≡ (if bytes_eq id j then some (seen now old) else find j ns)
find-mark now id j [] old h = cc
find-mark now id j (n ∷ ns) old h = ground (
  arith,
  bytes_eq→eq n.id id,
  bytes_eq→eq n.id j,
  bytes_eq→eq id j,
  bytes_eq_refl j,
  bytes_eq_refl id,
  find-mark now id j ns old,
)

pub find-without :
    (id j : List ℕ) (ns : List Node)
    → IsDistinct ns
    → find j (without id ns) ≡ (if bytes_eq id j then none else find j ns)
find-without id j [] h = ground arith
find-without id j (n ∷ ns) h = ground (
  arith,
  bytes_eq→eq n.id id,
  bytes_eq→eq n.id j,
  bytes_eq→eq id j,
  bytes_eq_refl j,
  bytes_eq_refl id,
  find-without id j ns h.1,
)

pub find-append :
    (j : List ℕ) (ns : List Node) (new : Node)
    → find new.id ns ≡ none
    → find j (ns ++ new ∷ []) ≡ (if bytes_eq new.id j then some new else find j ns)
find-append j [] new h = refl
find-append j (n ∷ ns) new h =
    ground (arith, bytes_eq→eq n.id j, bytes_eq→eq new.id j, bytes_eq_refl j, find-append j ns new)

absent-get_or :
    (j : List ℕ) (ns : List Node) (i : ℕ)
    → find j ns ≡ none
    → i < length ns
    → bytes_eq (get_or ns i no_node).id j ≡ false
absent-get_or j [] i e lt = absurd (omega arith)
absent-get_or j (n ∷ ns) zero e lt = ground arith
absent-get_or j (n ∷ ns) (suc i) e lt = absent-get_or j ns i (ground arith) (omega arith)

pub find-set :
    (j : List ℕ) (ns : List Node) (i : ℕ) (new : Node)
    → IsDistinct ns
    → i < length ns
    → find new.id ns ≡ none
    → find j (set ns i new) ≡ (
        if bytes_eq new.id j
        then some new
        else (if bytes_eq (get_or ns i no_node).id j then none else find j ns))
find-set j [] i new h lt e = absurd (omega arith)
find-set j (n ∷ ns) zero new h lt e =
    ground (arith, bytes_eq→eq n.id j, bytes_eq→eq new.id j, bytes_eq_refl j)
find-set j (n ∷ ns) (suc i) new h lt e = ground (
  arith,
  bytes_eq→eq n.id j,
  bytes_eq→eq new.id j,
  bytes_eq_refl j,
  absent-get_or n.id ns i h.0 (omega arith),
  find-set j ns i new h.1,
)

pub mark-IsDistinct :
    (now : ℕ) (id : List ℕ) (ns : List Node) → IsDistinct ns → IsDistinct (mark now id ns)
mark-IsDistinct now id [] h = tt
mark-IsDistinct now id (n ∷ ns) h = elim (Bool-cases (bytes_eq n.id id)) [
  | inl here ↦ rw here h
  | inr on ↦ rw on (mark_absent ns h.0, mark-IsDistinct now id ns h.1)
]
  where
    mark_absent : (ms : List Node) → find n.id ms ≡ none → find n.id (mark now id ms) ≡ none
    mark_absent [] e = refl
    mark_absent (m ∷ ms) e = ground (arith, mark_absent ms)

pub without-IsDistinct : (id : List ℕ) (ns : List Node) → IsDistinct ns → IsDistinct (without id ns)
without-IsDistinct id [] h = tt
without-IsDistinct id (n ∷ ns) h =
    ground (arith, find-without id n.id ns h.1, without-IsDistinct id ns h.1)

pub append-IsDistinct :
    (ns : List Node) (new : Node)
    → IsDistinct ns
    → find new.id ns ≡ none
    → IsDistinct (ns ++ new ∷ [])
append-IsDistinct [] new h e = (refl, tt)
append-IsDistinct (n ∷ ns) new h e =
    ground (arith, find-append n.id ns new, bytes_eq_sym n.id new.id, append-IsDistinct ns new h.1)

pub set-IsDistinct :
    (ns : List Node) (i : ℕ) (new : Node)
    → IsDistinct ns
    → i < length ns
    → find new.id ns ≡ none
    → IsDistinct (set ns i new)
set-IsDistinct [] i new h lt e = tt
set-IsDistinct (n ∷ ns) zero new h lt e = ground arith
set-IsDistinct (n ∷ ns) (suc i) new h lt e =
    ground
      (arith, find-set n.id ns i new h.1, bytes_eq_sym n.id new.id, set-IsDistinct ns i new h.1)

pub length-mark : (now : ℕ) (id : List ℕ) (ns : List Node) → length (mark now id ns) ≡ length ns
length-mark now id [] = refl
length-mark now id (n ∷ ns) = ground (arith, length-mark now id ns)

pub length-without : (id : List ℕ) (ns : List Node) → length (without id ns) ≤ length ns
length-without id [] = omega arith
length-without id (n ∷ ns) = ground (arith, length-without id ns)

pub length-set : (ns : List Node) (i : ℕ) (v : Node) → length (set ns i v) ≡ length ns
length-set [] i v = refl
length-set (n ∷ ns) zero v = refl
length-set (n ∷ ns) (suc i) v = ap suc (length-set ns i v)
