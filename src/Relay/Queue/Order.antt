-- ===== src/Relay/Queue/Order.antt =====
-- The list that `Push` inserts into stays sorted by priority, and first come, first served within
-- a priority.
use relaymeshnet.Base.{ℕ, suc, ◌+◌, ◌≤◌, ◌<◌, ◌≡◌, refl, sym, arith, inl, inr}
use relaymeshnet.Base.{List, [], ◌∷◌, ◌++◌, Bool-cases}
use relaymeshnet.Base.{length, ltb, ◌==◌, if◌then◌else◌, All, select}
use mathlib.Core.Option
use mathlib.Core.List.{append-nil}
use relaymeshnet.Relay.Queue.{Packet, find_slot, insert_packet}

-- No packet stands before a more urgent one.
abbrev pub IsOrdered : List Packet → Type 0
IsOrdered [] = Unit {0}
IsOrdered (pkt ∷ rest) = All (λ r. pkt.priority ≤ r.priority) rest × IsOrdered rest

-- The packets of one priority, in their order.
abbrev pub class : ℕ → List Packet → List Packet
class p = select (λ r. r.priority == p)

-- Where the packet ends up, by recursion.
pub place : Packet → List Packet → List Packet
place pkt [] = pkt ∷ []
place pkt (x ∷ xs) = if ltb pkt.priority x.priority then pkt ∷ x ∷ xs else x ∷ place pkt xs

find_slot_later :
    (i : ℕ) (pkt : Packet) (xs : List Packet)
    → find_slot (suc i) pkt xs ≡ Option.map suc (find_slot i pkt xs)
unfolding find_slot
find_slot_later i pkt [] = refl
find_slot_later i pkt (x ∷ xs) = ground (arith, find_slot_later (suc i) pkt xs)

pub insert_packet-place : (pkt : Packet) (xs : List Packet) → insert_packet pkt xs ≡ place pkt xs
unfolding insert_packet find_slot place
insert_packet-place pkt [] = refl
insert_packet-place pkt (x ∷ xs) =
    ground (arith, find_slot_later 0 pkt xs, insert_packet-place pkt xs)

place-All :
    (P : Packet → Type 0) (pkt : Packet) (xs : List Packet)
    → P pkt
    → All P xs
    → All P (place pkt xs)
unfolding place
place-All P pkt [] h hs = (h, tt)
place-All P pkt (x ∷ xs) h hs = ground (arith, place-All P pkt xs h hs.1)

All-le :
    (a b : ℕ) (xs : List Packet)
    → a ≤ b
    → All (λ r. b ≤ r.priority) xs
    → All (λ r. a ≤ r.priority) xs
All-le a b [] h hs = tt
All-le a b (x ∷ xs) h hs = (omega arith, All-le a b xs h hs.1)

pub place-IsOrdered : (pkt : Packet) (xs : List Packet) → IsOrdered xs → IsOrdered (place pkt xs)
unfolding place
place-IsOrdered pkt [] h = (tt, tt)
place-IsOrdered pkt (x ∷ xs) h = elim (Bool-cases (ltb pkt.priority x.priority)) [
  | inl here ↦
      let le : pkt.priority ≤ x.priority = ground arith in rw here ((le, All-le _ _ xs le h.0), h)
  | inr on ↦
      let le : x.priority ≤ pkt.priority = ground arith in
      rw on (place-All (λ r. x.priority ≤ r.priority) pkt xs le h.0, place-IsOrdered pkt xs h.1)
]

-- No packet of a priority below `n` is among packets that are all at least `n`.
class_below : (p n : ℕ) (xs : List Packet) → p < n → All (λ r. n ≤ r.priority) xs → class p xs ≡ []
class_below p n [] lt h = refl
class_below p n (x ∷ xs) lt h = ground (arith, class_below p n xs lt h.1)

-- A new packet goes behind all packets of its priority, and moves none of the others.
pub class-place :
    (p : ℕ) (pkt : Packet) (xs : List Packet)
    → IsOrdered xs
    → class p (place pkt xs) ≡ class p xs ++ (if pkt.priority == p then pkt ∷ [] else [])
unfolding place
class-place p pkt [] h = ground arith
class-place p pkt (x ∷ xs) h = elim (Bool-cases (ltb pkt.priority x.priority)) [
  | inr on ↦ rw on (ground (arith, class-place p pkt xs h.1))
  | inl here ↦ rw here (elim (Bool-cases (pkt.priority == p)) [
    | inl same ↦
        let gone : class p (x ∷ xs) ≡ [] =
          class_below p x.priority (x ∷ xs) (ground arith) (omega arith, h.0) in
        rw (same, gone) refl
    | inr other ↦ rw other (sym (append-nil (class p (x ∷ xs))))
  ])
]

pub length-place : (pkt : Packet) (xs : List Packet) → length (place pkt xs) ≡ length xs + 1
unfolding place
length-place pkt [] = omega arith
length-place pkt (x ∷ xs) = ground (arith, length-place pkt xs)
