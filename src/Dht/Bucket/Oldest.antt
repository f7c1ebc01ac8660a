-- ===== src/Dht/Bucket/Oldest.antt =====
-- The loop of `Add` finds a node that was seen no later than any other.
use relaymeshnet.Base.{ℕ, suc, ◌≤◌, ◌<◌, ◌≡◌, refl, subst, sym, ap, ◌∙◌, arith, inl, inr}
use relaymeshnet.Base.{List, [], ◌∷◌, ◌++◌, length, length-append, get_or, ltb, if◌then◌else◌, All}
use relaymeshnet.Base.{Bool-cases, All-append}
use mathlib.Core.List.{append_assoc, append-nil}
use relaymeshnet.Dht.Bucket.{Node, no_node, oldest_from}

get_or-append : (xs ys : List Node) (n : Node) → get_or (xs ++ n ∷ ys) (length xs) no_node ≡ n
get_or-append [] ys n = refl
get_or-append (x ∷ xs) ys n = get_or-append xs ys n

-- Seen no later than any of the nodes.
abbrev pub IsOldest : Node → List Node → Type 0
IsOldest old ns = All (λ n. old.last_seen ≤ n.last_seen) ns

IsOldest-le :
    (a b : Node) (ns : List Node) → a.last_seen ≤ b.last_seen → IsOldest b ns → IsOldest a ns
IsOldest-le a b [] le h = tt
IsOldest-le a b (n ∷ ns) le h = (omega arith, IsOldest-le a b ns le h.1)

module _ (all : List Node) where
  -- `i` is the index of the oldest of the nodes `ns`.
  record Found (i : ℕ) (ns : List Node) : Type 0 where
    inside : i < length all
    oldest : IsOldest (get_or all i no_node) ns

  Found-next :
      (done rest : List Node) (n : Node) (i oldest : ℕ)
      → all ≡ done ++ n ∷ rest
      → i ≡ length done
      → Found oldest done
      → Found
          (if ltb n.last_seen (get_or all oldest no_node).last_seen then i else oldest)
          (done ++ n ∷ [])
  Found-next done rest n i oldest e p f =
      let here : get_or all i no_node ≡ n = rw (e, p) (get_or-append done rest n) in
      elim (Bool-cases (ltb n.last_seen (get_or all oldest no_node).last_seen)) [
        | inl older ↦
            let le : n.last_seen ≤ (get_or all oldest no_node).last_seen = ground arith in
            rw older (record {
              inside = omega (arith, ap length e, length-append done (n ∷ rest));
              oldest = rw here (
                  All-append _ done (n ∷ [])
                    (IsOldest-le n (get_or all oldest no_node) done le f.oldest) (omega arith));
            })
        | inr newer ↦
            let le : (get_or all oldest no_node).last_seen ≤ n.last_seen = ground arith in
            rw newer
              (record { inside = f.inside; oldest = All-append _ done (n ∷ []) f.oldest (le, tt) })
      ]

  oldest_from-Found :
      (done rest : List Node) (i oldest : ℕ)
      → all ≡ done ++ rest
      → i ≡ length done
      → Found oldest done
      → Found (oldest_from all i oldest rest) all
  unfolding oldest_from
  oldest_from-Found done [] i oldest e p f = subst (Found oldest) (sym (e ∙ append-nil done)) f
  oldest_from-Found done (n ∷ rest) i oldest e p f =
      oldest_from-Found (done ++ n ∷ []) rest (suc i) _ (e ∙ sym (append_assoc done (n ∷ []) rest))
        (omega (arith, length-append done (n ∷ []))) (Found-next done rest n i oldest e p f)

  -- The index that the loop returns is that of a node, and no other node was seen earlier.
  pub oldest_from_lem :
      0 < length all
      → (oldest_from all 0 0 all < length all)
        × IsOldest (get_or all (oldest_from all 0 0 all) no_node) all
  oldest_from_lem h =
      let f = oldest_from-Found [] all 0 0 refl refl (record { inside = h; oldest = tt }) in
      (f.inside, f.oldest)
