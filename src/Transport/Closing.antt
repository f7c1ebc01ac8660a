-- ===== src/Transport/Closing.antt =====
-- `Close`: the transport leaves the maps of all its peers, and no map leads to it any more.
use relaymeshnet.Base.{
  ℕ, ◌≡◌, refl, sym, ap, ◌∙◌, arith, Bool, true, false, ◌&&◌, ◌||◌, List, [], ◌∷◌,
}
use relaymeshnet.Base.{none, some, ◌==◌, if◌then◌else◌, bytes_eq, bytes_eq→eq, bytes_eq_refl}
use relaymeshnet.Base.{==_refl, Bool-cases, inl, inr, All}
use relaymeshnet.Base.Maps.{lookup, IsMap}
use relaymeshnet.Transport.{Network, done, unlink, put, close, close_loop}
use relaymeshnet.Transport.Links.{
  linked, Relinks, unlink-Relinks, IsLink, IsNetwork, bytes_eq-peer_id,
}

-- The transport `x` is an entry of the map.
abbrev pub among : ℕ → List (List ℕ × ℕ) → Bool
among x [] = false
among x ((i, p) ∷ ps) = (p == x) || among x ps

lookup-among :
    (x : ℕ) (i : List ℕ) (ps : List (List ℕ × ℕ)) → lookup i ps ≡ some x → among x ps ≡ true
unfolding lookup
lookup-among x i [] e = cc
lookup-among x i ((j, p) ∷ ps) e = ground (arith, lookup-among x i ps, ==_refl x)

-- What holds of every value that a lookup can give holds of every entry.
pub IsMap-All :
    (P : ℕ → Type 0) (m : List (List ℕ × ℕ))
    → IsMap m
    → ((i : List ℕ) (v : ℕ) → lookup i m ≡ some v → P v)
    → All (λ e. P e.1) m
unfolding lookup
IsMap-All P [] h q = tt
IsMap-All P ((k, v) ∷ m) h q = (
  q k v (rw (bytes_eq_refl k) refl),
  IsMap-All P m h.1 (λ i w e. q i w (ground (arith, bytes_eq→eq k i))),
)

close_loop-Relinks :
    (a : ℕ) (ps : List (List ℕ × ℕ)) (net : Network)
    → All (λ e. (e.1 == a) ≡ false) ps
    → (net' : Network) × (close_loop a ps net ≡ done net')
      × Relinks
          (λ x i. if among x ps && bytes_eq (net a).peer_id i then none else linked net x i)
          net
          net'
unfolding close_loop
close_loop-Relinks a [] net h = (
  net,
  refl,
  record {
    id = λ x. refl;
    closed = λ x. refl;
    inbox = λ x. refl;
    maps = λ x h. h;
    found = λ x i. refl;
  },
)
close_loop-Relinks a ((j, p) ∷ ps) net h =
    let first = unlink p (net a).peer_id net in
    let one = unlink-Relinks p (net a).peer_id net in
    let (last, e, two) = close_loop-Relinks a ps first h.1 in
    (
      last,
      rw (h.0) e,
      record {
        id = λ x. two.id x ∙ one.id x;
        closed = λ x. two.closed x ∙ one.closed x;
        inbox = λ x. two.inbox x ∙ one.inbox x;
        maps = λ x h. two.maps x (one.maps x h);
        found = λ x i. two.found x i ∙ ground (arith, one.found x i, one.id a);
      },
    )

-- The channel closed, and then the map of peers emptied.
abbrev start : ℕ → Network → Network
start a net = put a (record (net a) { closed = true }) net

abbrev final : ℕ → Network → Network
final a mid = put a (record (mid a) { peers = [] }) mid

module _ (a : ℕ) (net mid : Network) (h : IsNetwork net)
    (r : Relinks
      (λ x i.
        if among x (net a).peers && bytes_eq (start a net a).peer_id i
        then none
        else linked (start a net) x i)
      (start a net)
      mid) where
  final-id : (x : ℕ) → (final a mid x).peer_id ≡ (net x).peer_id
  final-id x = ground (arith, r.id x, r.id a)

  final-closed : (x : ℕ) → (final a mid x).closed ≡ (if a == x then true else (net x).closed)
  final-closed x = ground (arith, r.closed x, r.closed a)

  final-linked :
      (x : ℕ) (i : List ℕ)
      → linked (final a mid) x i ≡ (
          if a == x
          then none
          else (if among x (net a).peers && bytes_eq (net a).peer_id i
              then none
              else linked net x i))
  unfolding lookup
  final-linked x i = ground (arith, r.found x i, ==_refl a)

  -- A link to the closed transport had its way back, so the loop has cut it.
  not_to_closed :
      (x p : ℕ) (i : List ℕ)
      → (among x (net a).peers && bytes_eq (net a).peer_id i) ≡ false
      → IsLink net x i p
      → (a == p) ≡ false
  not_to_closed x p i kept l = elim (Bool-cases (a == p)) [
    | inr ne ↦ ne
    | inl hit ↦
        let same : p ≡ a = ground arith in
        let key : i ≡ (net a).peer_id = l.named ∙ ap (λ (z : ℕ). (net z).peer_id) same in
        let back : linked net a (net x).peer_id ≡ some x =
          ap (λ (z : ℕ). linked net z (net x).peer_id) (sym same) ∙ l.back in
        let entry = lookup-among x (net x).peer_id (net a).peers back in
        let equal = bytes_eq_refl (net a).peer_id in ground (arith, key, entry, equal, kept)
  ]

  final-IsLink :
      (x p : ℕ) (i : List ℕ) → linked (final a mid) x i ≡ some p → IsLink (final a mid) x i p
  final-IsLink x p i e =
      let old : linked net x i ≡ some p = ground (arith, final-linked x i) in
      let l = h.links x p i old in
      let away : (a == x) ≡ false = ground (arith, final-linked x i) in
      let kept : (among x (net a).peers && bytes_eq (net a).peer_id i) ≡ false =
        ground (arith, final-linked x i) in
      let apart : (a == p) ≡ false = not_to_closed x p i kept l in
      record {
        named = l.named ∙ sym (final-id p);
        other = l.other;
        back =
            ground (
              arith,
              final-linked p (net x).peer_id,
              final-id x,
              bytes_eq-peer_id net a x h,
              l.back,
            );
        stays_open = ground (arith, final-closed p, l.stays_open);
      }

  final-IsNetwork : IsNetwork (final a mid)
  final-IsNetwork = record {
    distinct = λ x y e. h.distinct x y (sym (final-id x) ∙ e ∙ final-id y);
    links = final-IsLink;
    maps = λ x. ground (arith, r.maps x, h.maps x);
    bounded = λ x. ground (arith, r.inbox x, r.inbox a, h.bounded x, h.bounded a);
  }

-- `Close` on an open transport of a network with symmetric links ends without panic or deadlock, keeps
-- the links symmetric, and closes its channel and no other.
pub close_lem :
    (a : ℕ) (net : Network)
    → IsNetwork net
    → (net a).closed ≡ false
    → (net' : Network) × (close a net ≡ done net')
      × IsNetwork net'
      × ((x : ℕ) → (net' x).closed ≡ (if a == x then true else (net x).closed))
unfolding close
close_lem a net h e =
    let others =
      IsMap-All (λ p. (p == a) ≡ false) (net a).peers (h.maps a)
        (λ i p k. (h.links a p i k).other) in
    let (mid, ends, r) = close_loop-Relinks a (net a).peers (start a net) others in
    (final a mid, rw (e, ends) refl, final-IsNetwork a net mid h r, final-closed a net mid h r)
