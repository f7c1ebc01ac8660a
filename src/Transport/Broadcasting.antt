-- ===== src/Transport/Broadcasting.antt =====
-- `Broadcast`: what it puts into which inbox.
use relaymeshnet.Base.{ℕ, ◌≡◌, refl, sym, ap, ◌∙◌, arith, false, List, [], ◌∷◌}
use relaymeshnet.Base.{some, ◌==◌, if◌then◌else◌, bytes_eq, bytes_eq→eq, bytes_eq_refl}
use relaymeshnet.Base.{Bool-cases, inl, inr}
use relaymeshnet.Base.Maps.{lookup, IsMap}
use relaymeshnet.Transport.{Network, done, packet, broadcast_to, broadcast}
use relaymeshnet.Transport.Links.{linked, IsNetwork, bytes_eq-peer_id}
use relaymeshnet.Transport.Closing.{among}
use relaymeshnet.Transport.Delivery.{
  SameLinks, SameLinks-refl, SameLinks-IsNetwork, offered, is_link, send_lem,
}

-- The entries of the map of `a` that the loop of `Broadcast` still has to visit.
ArePeers : Network → ℕ → List (List ℕ × ℕ) → Type 0
ArePeers net a [] = Unit {0}
ArePeers net a ((id, p) ∷ ps) =
    ((id ≡ (net p).peer_id) × (linked net a id ≡ some p)) × ArePeers net a ps

ArePeers-SameLinks :
    (net net' : Network) (a : ℕ) (ps : List (List ℕ × ℕ))
    → SameLinks net net'
    → ArePeers net a ps
    → ArePeers net' a ps
unfolding ArePeers
ArePeers-SameLinks net net' a [] s h = tt
ArePeers-SameLinks net net' a ((id, p) ∷ ps) s h =
    ((h.0.0 ∙ sym (s.id p), rw (s.peers a) h.0.1), ArePeers-SameLinks net net' a ps s h.1)

ArePeers-lookup :
    (net : Network) (a : ℕ) (ps : List (List ℕ × ℕ))
    → ((id : List ℕ) (p : ℕ)
        → lookup id ps ≡ some p
        → (id ≡ (net p).peer_id) × (linked net a id ≡ some p))
    → IsMap ps
    → ArePeers net a ps
unfolding ArePeers lookup
ArePeers-lookup net a [] q h = tt
ArePeers-lookup net a ((id, p) ∷ ps) q h = (
  q id p (rw (bytes_eq_refl id) refl),
  ArePeers-lookup net a ps (λ j w e. q j w (ground (arith, bytes_eq→eq id j))) h.1,
)

-- A transport is among the entries exactly when its id leads to it.
is_link-lookup :
    (net : Network) (a x : ℕ) (ps : List (List ℕ × ℕ))
    → IsNetwork net
    → ArePeers net a ps
    → is_link (lookup (net x).peer_id ps) x ≡ among x ps
unfolding ArePeers lookup
is_link-lookup net a x [] h q = refl
is_link-lookup net a x ((id, p) ∷ ps) h q =
    let key : bytes_eq id (net x).peer_id ≡ (p == x) =
      ap (λ (k : List ℕ). bytes_eq k (net x).peer_id) q.0.0 ∙ bytes_eq-peer_id net p x h in
    ground (arith, key, is_link-lookup net a x ps h q.1)

broadcast_to_lem :
    (now a : ℕ) (payload : List ℕ) (ps : List (List ℕ × ℕ)) (net : Network)
    → IsNetwork net
    → IsMap ps
    → ArePeers net a ps
    → (net' : Network) × (broadcast_to now a payload ps net ≡ done net')
      × SameLinks net net'
      × ((x : ℕ)
          → (net' x).inbox ≡ (
              if among x ps
              then offered (packet now a payload net) (net x).inbox
              else (net x).inbox))
unfolding broadcast_to ArePeers
broadcast_to_lem now a payload [] net h m q = (net, refl, SameLinks-refl net, λ x. refl)
broadcast_to_lem now a payload ((id, p) ∷ ps) net h m q =
    let (first, sent, one, got) = send_lem now a (net p).peer_id payload net h in
    let (last, ends, two, rest) =
      broadcast_to_lem now a payload ps first (SameLinks-IsNetwork net first one h) m.1
        (ArePeers-SameLinks net first a ps one q.1) in
    let once : among p ps ≡ false =
      sym (is_link-lookup net a p ps h q.1) ∙ rw (← q.0.0, m.0) refl in
    let to : linked net a (net p).peer_id ≡ some p = rw (← q.0.0) q.0.1 in
    (
      last,
      rw (sent) ends,
      record {
        id = λ x. two.id x ∙ one.id x;
        closed = λ x. two.closed x ∙ one.closed x;
        peers = λ x. two.peers x ∙ one.peers x;
        bounded = λ x b. two.bounded x (one.bounded x b);
      },
      λ x. elim (Bool-cases (p == x)) [
        | inl eq ↦
            let same : p ≡ x = ground arith in
            let no_more : among x ps ≡ false = ap (λ (z : ℕ). among z ps) (sym same) ∙ once in
            rest x ∙ rw (no_more) (got x ∙ rw (to, eq) refl)
        | inr ne ↦ rest x ∙ rw (one.id a) (ground (arith, got x, to))
      ],
    )

-- On a network with symmetric links to open transports, `Broadcast` never panics: every peer is offered the packet
-- exactly once, and no other inbox changes.
pub broadcast_lem :
    (now a : ℕ) (payload : List ℕ) (net : Network)
    → IsNetwork net
    → (net' : Network) × (broadcast now a payload net ≡ done net')
      × SameLinks net net'
      × ((x : ℕ)
          → (net' x).inbox ≡ (
              if is_link (linked net a (net x).peer_id) x
              then offered (packet now a payload net) (net x).inbox
              else (net x).inbox))
unfolding broadcast
broadcast_lem now a payload net h =
    let peers =
      ArePeers-lookup net a (net a).peers (λ id p e. ((h.links a p id e).named, e)) (h.maps a) in
    let (last, ends, same, got) =
      broadcast_to_lem now a payload (net a).peers net h (h.maps a) peers in
    (last, ends, same, λ x. got x ∙ rw (is_link-lookup net a x (net a).peers h peers) refl)
