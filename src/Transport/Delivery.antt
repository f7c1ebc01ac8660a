-- ===== src/Transport/Delivery.antt =====
-- `Send`: what it puts into which inbox; and the calls that change no link.
use relaymeshnet.Base.{
  ℕ, ◌⊎◌, ◌≤◌, ◌<◌, ◌≡◌, refl, sym, ◌∙◌, arith, Bool, false, List, [], ◌∷◌, ◌++◌,
}
use relaymeshnet.Base.{Option, none, some, ◌==◌, if◌then◌else◌}
use relaymeshnet.Base.{ltb, Bool-cases, Option-cases, inl, inr, length, length-append}
use relaymeshnet.Transport.{Network, Packet, done, packet, deliver, send, inbox_size}
use relaymeshnet.Transport.{recv, recv_front, set_handler}
use relaymeshnet.Transport.Links.{linked, IsNetwork}

-- Nothing but inboxes and handlers differ.
pub record SameLinks (net net' : Network) : Type 0 where
  pub id : (x : ℕ) → (net' x).peer_id ≡ (net x).peer_id
  pub closed : (x : ℕ) → (net' x).closed ≡ (net x).closed
  pub peers : (x : ℕ) → (net' x).peers ≡ (net x).peers
  pub bounded : (x : ℕ) → length (net x).inbox ≤ inbox_size → length (net' x).inbox ≤ inbox_size

pub SameLinks-IsNetwork : (net net' : Network) → SameLinks net net' → IsNetwork net → IsNetwork net'
SameLinks-IsNetwork net net' s h = record {
  distinct = λ x y e. h.distinct x y (sym (s.id x) ∙ e ∙ s.id y);
  links = λ x p i e.
      let l = h.links x p i (rw (← s.peers x) e) in
      record {
        named = l.named ∙ sym (s.id p);
        other = l.other;
        back = rw (s.id x, s.peers p) l.back;
        stays_open = s.closed p ∙ l.stays_open;
      };
  maps = λ x. rw (s.peers x) (h.maps x);
  bounded = λ x. s.bounded x (h.bounded x);
}

-- The inbox of `p` after a packet was offered to it: a full one drops the packet.
abbrev pub offered : Packet → List Packet → List Packet
offered m inbox = if ltb (length inbox) inbox_size then inbox ++ m ∷ [] else inbox

-- The link leads to `x`.
abbrev pub is_link : Option ℕ → ℕ → Bool
is_link none x = false
is_link (some p) x = p == x

pub SameLinks-refl : (net : Network) → SameLinks net net
SameLinks-refl net = record {
  id = λ x. refl;
  closed = λ x. refl;
  peers = λ x. refl;
  bounded = λ x b. b;
}

module _ (now a : ℕ) (payload : List ℕ) (p : ℕ) (net : Network) where
  deliver-SameLinks :
      length (net p).inbox < inbox_size → SameLinks net (deliver now a payload p net)
  unfolding deliver
  deliver-SameLinks room = record {
    id = λ x. ground arith;
    closed = λ x. ground arith;
    peers = λ x. ground arith;
    bounded =
        λ x b. ground (arith, room, length-append (net p).inbox (packet now a payload net ∷ []));
  }

  deliver-inbox :
      (x : ℕ)
      → (deliver now a payload p net x).inbox
        ≡ (if p == x then (net x).inbox ++ packet now a payload net ∷ [] else (net x).inbox)
  unfolding deliver
  deliver-inbox x = ground arith

-- On a network with symmetric links to open transports, `Send` never panics. Who has the id and is a peer gets the
-- packet at the end of the inbox, if there is room; every other inbox is as it was.
pub send_lem :
    (now a : ℕ) (id payload : List ℕ) (net : Network)
    → IsNetwork net
    → (net' : Network) × (send now a id payload net ≡ done net')
      × SameLinks net net'
      × ((x : ℕ)
          → (net' x).inbox ≡ (
              if is_link (linked net a id) x
              then offered (packet now a payload net) (net x).inbox
              else (net x).inbox))
unfolding send
send_lem now a id payload net h = elim (Option-cases (linked net a id)) [
  | inl e ↦ (net, rw (e, send) refl, SameLinks-refl net, λ x. rw (e) refl)
  | inr (p, e) ↦
      let l = h.links a p id e in
      elim (Bool-cases (ltb (length (net p).inbox) inbox_size)) [
        | inl room ↦ (
          deliver now a payload p net,
          rw (e, send, l.stays_open, room) refl,
          deliver-SameLinks now a payload p net (ground arith),
          λ x. rw (e) (deliver-inbox now a payload p net x ∙ ground arith),
        )
        | inr full ↦ (
          net,
          rw (e, send, l.stays_open, full) refl,
          SameLinks-refl net,
          λ x. rw (e) (ground arith),
        )
      ]
]

pub set_handler-SameLinks : (a : ℕ) (net : Network) → SameLinks net (set_handler a net)
unfolding set_handler
set_handler-SameLinks a net = record {
  id = λ x. ground arith;
  closed = λ x. ground arith;
  peers = λ x. ground arith;
  bounded = λ x b. ground arith;
}

List-cases : {A : Type 0} (xs : List A) → (xs ≡ []) ⊎ ((x : A) × (ys : List A) × (xs ≡ x ∷ ys))
List-cases [] = inl refl
List-cases (x ∷ ys) = inr (x, ys, refl)

pub recv-SameLinks : (a : ℕ) (net : Network) → SameLinks net (recv a net).0
unfolding recv recv_front
recv-SameLinks a net = elim (List-cases (net a).inbox) [
  | inl empty ↦ rw (empty, recv) (SameLinks-refl net)
  | inr (p, ps, e) ↦
      rw (e, recv)
        (record {
          id = λ x. ground arith;
          closed = λ x. ground arith;
          peers = λ x. ground arith;
          bounded = λ x b. ground (arith, e);
        })
]
