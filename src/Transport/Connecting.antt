-- ===== src/Transport/Connecting.antt =====
-- `Connect` and `Disconnect` keep the links symmetric.
use relaymeshnet.Base.{ℕ, ◌≡◌, refl, sym, ◌∙◌, arith, false, ◌&&◌, List}
use relaymeshnet.Base.{
  Option, none, some, ◌==◌, if◌then◌else◌, bytes_eq, bytes_eq→eq, bytes_eq_refl,
}
use relaymeshnet.Base.{==_iff, Bool-cases, inl, inr}
use relaymeshnet.Transport.{Network}
use relaymeshnet.Transport.Links.{IsLink, IsNetwork, bytes_eq-peer_id, linked, Relinks}

-- The invariant after a change of links, from what the new links are.
pub Relinks-IsNetwork :
    (f : ℕ → List ℕ → Option ℕ) (net net' : Network)
    → Relinks f net net'
    → IsNetwork net
    → ((x p : ℕ) (i : List ℕ)
        → f x i ≡ some p
        → (i ≡ (net p).peer_id)
          × ((p == x) ≡ false)
          × (f p (net x).peer_id ≡ some x)
          × ((net p).closed ≡ false))
    → IsNetwork net'
Relinks-IsNetwork f net net' r h q = record {
  distinct = λ x y e. h.distinct x y (sym (r.id x) ∙ e ∙ r.id y);
  links = λ x p i e.
      let (named, other, back, opened) = q x p i (sym (r.found x i) ∙ e) in
      record {
        named = named ∙ sym (r.id p);
        other = other;
        back = rw (r.id x) (r.found p (net x).peer_id ∙ back);
        stays_open = r.closed p ∙ opened;
      };
  maps = λ x. r.maps x (h.maps x);
  bounded = λ x. rw (r.inbox x) (h.bounded x);
}

module _ (a b : ℕ) (net : Network) (h : IsNetwork net) (e : (a == b) ≡ false) where
  abbrev pub connected : ℕ → List ℕ → Option ℕ
  connected x i =
      if (b == x) && bytes_eq (net a).peer_id i
      then some a
      else (if (a == x) && bytes_eq (net b).peer_id i then some b else linked net x i)

  connected_old :
      (x p : ℕ) (i : List ℕ)
      → ((b == x) && bytes_eq (net a).peer_id i) ≡ false
      → ((a == x) && bytes_eq (net b).peer_id i) ≡ false
      → IsLink net x i p
      → connected p (net x).peer_id ≡ some x
  connected_old x p i no1 no2 l = ground (
    arith,
    l.named,
    l.back,
    bytes_eq-peer_id net a x h,
    bytes_eq-peer_id net b x h,
    bytes_eq-peer_id net a p h,
    bytes_eq-peer_id net b p h,
    ==_iff a x,
    ==_iff b x,
  )

  pub connected_links :
      (net a).closed ≡ false
      → (net b).closed ≡ false
      → (x p : ℕ) (i : List ℕ) → connected x i ≡ some p
      → (i ≡ (net p).peer_id)
        × ((p == x) ≡ false)
        × (connected p (net x).peer_id ≡ some x)
        × ((net p).closed ≡ false)
  connected_links open_a open_b x p i k =
      elim (Bool-cases ((b == x) && bytes_eq (net a).peer_id i)) [
        | inl hit ↦
            let to : a ≡ p = ground arith in
            let at : b ≡ x = ground arith in
            let key : (net a).peer_id ≡ i = bytes_eq→eq (net a).peer_id i (ground arith) in
            rw (← to, ← at, ← key) (refl, e, ground (arith, bytes_eq_refl (net b).peer_id), open_a)
        | inr miss ↦ elim (Bool-cases ((a == x) && bytes_eq (net b).peer_id i)) [
          | inl hit ↦
              let to : b ≡ p = ground arith in
              let at : a ≡ x = ground arith in
              let key : (net b).peer_id ≡ i = bytes_eq→eq (net b).peer_id i (ground arith) in
              rw (← to, ← at, ← key)
                (refl, ground arith, ground (arith, bytes_eq_refl (net a).peer_id), open_b)
          | inr miss2 ↦
              let old : linked net x i ≡ some p = ground arith in
              let l = h.links x p i old in
              (l.named, l.other, connected_old x p i miss miss2 l, l.stays_open)
        ]
      ]

  abbrev pub disconnected : ℕ → List ℕ → Option ℕ
  disconnected x i =
      if (b == x) && bytes_eq (net a).peer_id i
      then none
      else (if (a == x) && bytes_eq (net b).peer_id i then none else linked net x i)

  pub disconnected_links :
      (x p : ℕ) (i : List ℕ)
      → disconnected x i ≡ some p
      → (i ≡ (net p).peer_id)
        × ((p == x) ≡ false)
        × (disconnected p (net x).peer_id ≡ some x)
        × ((net p).closed ≡ false)
  disconnected_links x p i k = elim (Bool-cases ((b == x) && bytes_eq (net a).peer_id i)) [
    | inl hit ↦ absurd (cc (hit, k))
    | inr miss ↦ elim (Bool-cases ((a == x) && bytes_eq (net b).peer_id i)) [
      | inl hit ↦ absurd (cc (hit, k))
      | inr miss2 ↦
          let old : linked net x i ≡ some p = ground arith in
          let l = h.links x p i old in
          (
            l.named,
            l.other,
            ground (
              arith,
              l.named,
              l.back,
              bytes_eq-peer_id net a x h,
              bytes_eq-peer_id net b x h,
              bytes_eq-peer_id net a p h,
              bytes_eq-peer_id net b p h,
            ),
            l.stays_open,
          )
    ]
  ]
