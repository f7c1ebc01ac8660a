-- ===== src/Transport/Links.antt =====
-- The links between transports after a call, by those before it.
use relaymeshnet.Base.{
  ℕ, ◌≤◌, length, bytes_eq→eq, bytes_eq_refl, ◌≡◌, refl, sym, ap, ◌∙◌, arith, false, ◌&&◌, List,
}
use relaymeshnet.Base.{Option, none, some, ◌==◌, if◌then◌else◌, bytes_eq, Bool-cases, inl, inr}
use relaymeshnet.Base.Maps.{lookup, IsMap, lookup-insert, lookup-erase, insert-IsMap}
use relaymeshnet.Base.Maps.{erase-IsMap}
use relaymeshnet.Transport.{inbox_size, done, connect, disconnect, Network, link, unlink}

abbrev pub linked : Network → ℕ → List ℕ → Option ℕ
linked net x i = lookup i (net x).peers

-- A link is under the other transport's id, goes back, and joins two that are open.
pub record IsLink (net : Network) (x : ℕ) (i : List ℕ) (p : ℕ) : Type 0 where
  pub named : i ≡ (net p).peer_id
  pub other : (p == x) ≡ false
  pub back : linked net p (net x).peer_id ≡ some x
  pub stays_open : (net p).closed ≡ false

pub record IsNetwork (net : Network) : Type 0 where
  pub distinct : (x y : ℕ) → (net x).peer_id ≡ (net y).peer_id → x ≡ y
  pub links : (x p : ℕ) (i : List ℕ) → linked net x i ≡ some p → IsLink net x i p
  pub maps : (x : ℕ) → IsMap (net x).peers
  pub bounded : (x : ℕ) → length (net x).inbox ≤ inbox_size

-- Ids are equal exactly at equal addresses.
pub bytes_eq-peer_id :
    (net : Network) (x y : ℕ) → IsNetwork net → bytes_eq (net x).peer_id (net y).peer_id ≡ (x == y)
bytes_eq-peer_id net x y h = elim (Bool-cases (x == y)) [
  | inl eq ↦
      let same : x ≡ y = ground arith in
      ap (λ (z : ℕ). bytes_eq (net z).peer_id (net y).peer_id) same
      ∙ bytes_eq_refl (net y).peer_id
      ∙ sym eq
  | inr ne ↦ elim (Bool-cases (bytes_eq (net x).peer_id (net y).peer_id)) [
    | inl t ↦ let same : x ≡ y = h.distinct x y (bytes_eq→eq _ _ t) in ground arith
    | inr f ↦ f ∙ sym ne
  ]
]

-- Only the maps of peers differ, and the links are now those of `f`.
pub record Relinks (f : ℕ → List ℕ → Option ℕ) (net net' : Network) : Type 0 where
  pub id : (x : ℕ) → (net' x).peer_id ≡ (net x).peer_id
  pub closed : (x : ℕ) → (net' x).closed ≡ (net x).closed
  pub inbox : (x : ℕ) → (net' x).inbox ≡ (net x).inbox
  pub maps : (x : ℕ) → IsMap (net x).peers → IsMap (net' x).peers
  pub found : (x : ℕ) (i : List ℕ) → linked net' x i ≡ f x i

pub link-Relinks :
    (a p : ℕ) (id : List ℕ) (net : Network)
    → Relinks
        (λ x i. if (a == x) && bytes_eq id i then some p else linked net x i)
        net
        (link a id p net)
link-Relinks a p id net = record {
  id = λ x. ground arith;
  closed = λ x. ground arith;
  inbox = λ x. ground arith;
  maps = λ x h. ground (arith, insert-IsMap id p (net x).peers h);
  found = λ x i. ground (arith, lookup-insert id i p (net x).peers);
}

pub unlink-Relinks :
    (a : ℕ) (id : List ℕ) (net : Network)
    → Relinks
        (λ x i. if (a == x) && bytes_eq id i then none else linked net x i)
        net
        (unlink a id net)
unlink-Relinks a id net = record {
  id = λ x. ground arith;
  closed = λ x. ground arith;
  inbox = λ x. ground arith;
  maps = λ x h. ground (arith, erase-IsMap id (net x).peers h);
  found = λ x i. ground (arith, lookup-erase id i (net x).peers);
}

pub connect-Relinks :
    (a b : ℕ) (net : Network)
    → (a == b) ≡ false
    → (net' : Network) × (connect a b net ≡ done net')
      × Relinks
          (λ x i.
            if (b == x) && bytes_eq (net a).peer_id i
            then some a
            else (if (a == x) && bytes_eq (net b).peer_id i then some b else linked net x i))
          net
          net'
unfolding connect
connect-Relinks a b net e =
    let first = link a (net b).peer_id b net in
    let one = link-Relinks a b (net b).peer_id net in
    let two = link-Relinks b a (net a).peer_id first in
    (
      link b (net a).peer_id a first,
      rw e refl,
      record {
        id = λ x. two.id x ∙ one.id x;
        closed = λ x. two.closed x ∙ one.closed x;
        inbox = λ x. two.inbox x ∙ one.inbox x;
        maps = λ x h. two.maps x (one.maps x h);
        found = λ x i. two.found x i ∙ rw (one.found x i) refl;
      },
    )

pub disconnect-Relinks :
    (a b : ℕ) (net : Network)
    → (a == b) ≡ false
    → (net' : Network) × (disconnect a b net ≡ done net')
      × Relinks
          (λ x i.
            if (b == x) && bytes_eq (net a).peer_id i
            then none
            else (if (a == x) && bytes_eq (net b).peer_id i then none else linked net x i))
          net
          net'
unfolding disconnect
disconnect-Relinks a b net e =
    let first = unlink a (net b).peer_id net in
    let one = unlink-Relinks a (net b).peer_id net in
    let two = unlink-Relinks b (net a).peer_id first in
    (
      unlink b (net a).peer_id first,
      rw e refl,
      record {
        id = λ x. two.id x ∙ one.id x;
        closed = λ x. two.closed x ∙ one.closed x;
        inbox = λ x. two.inbox x ∙ one.inbox x;
        maps = λ x h. two.maps x (one.maps x h);
        found = λ x i. two.found x i ∙ rw (one.found x i) refl;
      },
    )
