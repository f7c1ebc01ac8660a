-- ===== src/Dht/Table/Placement.antt =====
-- Every node of the table stands in the bucket that its distance names, on every history of calls.
use relaymeshnet.Base.{ℕ, zero, suc, ◌+◌, ◌≡◌, refl, subst, sym, ap, ◌∙◌, arith, inl, inr}
use relaymeshnet.Base.{List, [], ◌∷◌, false, Bool-cases, All}
use relaymeshnet.Base.{length, replicate, set, get_or, bytes_eq}
use relaymeshnet.Base.{length-replicate}
use relaymeshnet.Dht.Key.{max_buckets}
use relaymeshnet.Dht.Bucket
use relaymeshnet.Dht.Bucket.{Node, Bucket, no_node, new_bucket, index_of, touch, stale_after}
use relaymeshnet.Dht.Bucket.{oldest_from}
use relaymeshnet.Dht.Bucket.Laws.{IsValid, add-Adds, remove_lem}
use relaymeshnet.Dht.Bucket.Everywhere.{add-All, remove-All}
use relaymeshnet.Dht.Table.{Table, new_table, bucket_index, add, remove}

-- The node has its place in bucket `i`, and is not the table's own.
abbrev pub Belongs : List ℕ → ℕ → Node → Type 0
Belongs self_id i n = (bucket_index self_id n.id ≡ i) × (bytes_eq n.id self_id ≡ false)

abbrev pub ArePlaced : List ℕ → ℕ → List Bucket → Type 0
ArePlaced self_id i [] = Unit {0}
ArePlaced self_id i (b ∷ bs) =
    (IsValid b × All (Belongs self_id i) b.nodes) × ArePlaced self_id (suc i) bs

-- 160 buckets of at most 20 nodes with distinct ids, every node in the bucket of its distance.
pub record IsTable (t : Table) : Type 0 where
  pub size : length t.buckets ≡ max_buckets
  pub placed : ArePlaced t.self_id 0 t.buckets

-- A write of a valid bucket whose nodes belong there.
ArePlaced-set :
    (self_id : List ℕ) (start i : ℕ) (bs : List Bucket) (b : Bucket)
    → ArePlaced self_id start bs
    → IsValid b
    → All (Belongs self_id (start + i)) b.nodes
    → ArePlaced self_id start (set bs i b)
ArePlaced-set self_id start i [] b h v p = tt
ArePlaced-set self_id start zero (c ∷ bs) b h v p =
    let e : start + 0 ≡ start = omega arith in
    ((v, subst (λ (k : ℕ). All (Belongs self_id k) b.nodes) e p), h.1)
ArePlaced-set self_id start (suc i) (c ∷ bs) b h v p =
    let e : start + suc i ≡ suc start + i = omega arith in
    (
      h.0,
      ArePlaced-set self_id (suc start) i bs b h.1 v
          (subst (λ (k : ℕ). All (Belongs self_id k) b.nodes) e p),
    )

new_bucket-IsValid : IsValid new_bucket
unfolding new_bucket
new_bucket-IsValid = record { distinct = tt; bounded = omega arith }

ArePlaced-get_or :
    (self_id : List ℕ) (start i : ℕ) (bs : List Bucket)
    → ArePlaced self_id start bs
    → IsValid (get_or bs i new_bucket)
      × All (Belongs self_id (start + i)) (get_or bs i new_bucket).nodes
ArePlaced-get_or self_id start i [] h = (new_bucket-IsValid, unfold new_bucket in tt)
ArePlaced-get_or self_id start zero (c ∷ bs) h = let e : start + 0 ≡ start = omega arith in rw e h.0
ArePlaced-get_or self_id start (suc i) (c ∷ bs) h =
    let e : start + suc i ≡ suc start + i = omega arith in
    rw e (ArePlaced-get_or self_id (suc start) i bs h.1)

ArePlaced-replicate :
    (self_id : List ℕ) (start n : ℕ) → ArePlaced self_id start (replicate n new_bucket)
ArePlaced-replicate self_id start zero = tt
ArePlaced-replicate self_id start (suc n) =
    ((new_bucket-IsValid, unfold new_bucket in tt), ArePlaced-replicate self_id (suc start) n)

length-set {ℓ} : {A : Type ℓ} (xs : List A) (i : ℕ) (v : A) → length (set xs i v) ≡ length xs
length-set [] i v = refl
length-set (x ∷ xs) zero v = refl
length-set (x ∷ xs) (suc i) v = ap suc (length-set xs i v)

new_table-IsTable : (self_id : List ℕ) → IsTable (new_table self_id)
unfolding new_table
new_table-IsTable self_id = record {
  size = length-replicate max_buckets new_bucket;
  placed = ArePlaced-replicate self_id 0 max_buckets;
}

add-IsTable :
    (now later : ℕ) (node : Node) (t : Table) → IsTable t → IsTable (add now later node t).0
unfolding add
add-IsTable now later node t h = elim (Bool-cases (bytes_eq node.id t.self_id)) [
  | inl own ↦ rw own h
  | inr other ↦
      let i = bucket_index t.self_id node.id in
      let (valid, placed) = ArePlaced-get_or t.self_id 0 i t.buckets h.placed in
      let old = get_or t.buckets i new_bucket in
      let e : 0 + i ≡ i = omega arith in
      rw other (record {
        size = length-set t.buckets i _ ∙ h.size;
        placed =
            ArePlaced-set t.self_id 0 i t.buckets (Bucket.add now later node old).0 h.placed
              (add-Adds now later node old valid).0
              (add-All (Belongs t.self_id (0 + i)) (λ n now p. p) now later node old (sym e, other)
                placed);
      })
]

remove-IsTable : (id : List ℕ) (t : Table) → IsTable t → IsTable (remove id t)
unfolding remove
remove-IsTable id t h =
    let i = bucket_index t.self_id id in
    let (valid, placed) = ArePlaced-get_or t.self_id 0 i t.buckets h.placed in
    let old = get_or t.buckets i new_bucket in
    record {
      size = length-set t.buckets i _ ∙ h.size;
      placed =
          ArePlaced-set t.self_id 0 i t.buckets (Bucket.remove id old) h.placed
            (remove_lem id id old valid).0 (remove-All _ id old placed);
    }

-- A call of a method that writes.
pub data Call : Type 0 where
  adds : ℕ → ℕ → Node → Call
  removes : List ℕ → Call

unfoldable pub step : Call → Table → Table
step (adds now later node) t = (add now later node t).0
step (removes id) t = remove id t

unfoldable pub run : List Call → Table → Table
run [] t = t
run (c ∷ cs) t = run cs (step c t)

run-IsTable : (cs : List Call) (t : Table) → IsTable t → IsTable (run cs t)
unfolding run step
run-IsTable [] t h = h
run-IsTable (adds now later node ∷ cs) t h = run-IsTable cs _ (add-IsTable now later node t h)
run-IsTable (removes id ∷ cs) t h = run-IsTable cs _ (remove-IsTable id t h)

-- After any calls on a new table it has 160 buckets of at most 20 nodes with distinct ids, every
-- node stands in the bucket that its distance names, and the table's own id is not among them.
pub run-new_table-IsTable :
    (cs : List Call) (self_id : List ℕ) → IsTable (run cs (new_table self_id))
run-new_table-IsTable cs self_id = run-IsTable cs (new_table self_id) (new_table-IsTable self_id)
