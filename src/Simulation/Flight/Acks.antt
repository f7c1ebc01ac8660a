-- ===== src/Simulation/Flight/Acks.antt =====
-- Which hops of a message are acknowledged, and when.
use native.Mathlib.Nat.{div-lt_iff_lt-mul}
use relaymeshnet.Base.{
  ℕ, zero, suc, ◌+◌, ◌-◌, ◌*◌, ◌/◌, ◌≤◌, ◌<◌, ◌≡◌, ◌∙◌, refl, ap, arith, inl, inr,
}
use relaymeshnet.Base.{Bool, true, false, ◌||◌, List, [], ◌∷◌, length, get_or, set}
use relaymeshnet.Base.{ltb, ◌==◌, Bool-cases}
use relaymeshnet.Base.Int.{pos, sub_ℕ-le}
use relaymeshnet.Simulation.World.{ActiveMsg}
use relaymeshnet.Simulation.Flight.{advance, hop_index}
use relaymeshnet.Simulation.Flight.Waiting.{advance_n}

mul_lt : (a b h : ℕ) → a < b → 0 < h → a * h < b * h
mul_lt a b zero lt p = absurd (omega arith)
mul_lt a b (suc zero) lt p = omega arith
mul_lt a b (suc (suc h)) lt p = omega (arith, mul_lt a b (suc h) lt (omega arith))

mul_le : (a b h : ℕ) → a ≤ b → a * h ≤ b * h
mul_le a b zero le = omega arith
mul_le a b (suc h) le = omega (arith, mul_le a b h le)

-- The hops of a path.
abbrev pub hops : ActiveMsg → ℕ
hops msg = length msg.path - 1

-- The index of the hop is one of the message's hops; it is the last one just when what remains times
-- the hops is below the total.
hop_index_lem :
    (msg : ActiveMsg)
    → 1 ≤ hops msg
    → msg.remaining < msg.total
    → let q = msg.remaining * hops msg / msg.total in
      (hop_index msg ≡ pos (hops msg - 1 - q)) × (q < hops msg)
unfolding hop_index
hop_index_lem msg h lt =
    let below = mul_lt msg.remaining msg.total (hops msg) lt h in
    let less : msg.remaining * hops msg / msg.total < hops msg =
      (div-lt_iff_lt-mul {k = msg.total} {x = msg.remaining * hops msg} {y = hops msg}
          (omega (arith, lt))).1
        (omega (arith, below)) in
    (
      sub_ℕ-le (length msg.path) (2 + msg.remaining * hops msg / msg.total) (omega (arith, h))
          ∙ ap pos (omega (arith, h)),
      less,
    )

get_or-set :
    (bs : List Bool) (i j : ℕ)
    → i < length bs
    → get_or (set bs i true) j false ≡ (get_or bs j false || (i == j))
get_or-set [] i j h = absurd (omega arith)
get_or-set (b ∷ bs) zero zero h = ground arith
get_or-set (b ∷ bs) zero (suc j) h = ground arith
get_or-set (b ∷ bs) (suc i) zero h = ground arith
get_or-set (b ∷ bs) (suc i) (suc j) h = ground (arith, get_or-set bs i j)

length-set : (bs : List Bool) (i : ℕ) → length (set bs i true) ≡ length bs
length-set [] i = refl
length-set (b ∷ bs) zero = refl
length-set (b ∷ bs) (suc i) = ap suc (length-set bs i)

-- A message as `sendMsg` makes it, and after any number of ticks.
pub record IsLaunched (msg : ActiveMsg) : Type 0 where
  pub has_hops : 1 ≤ hops msg
  pub one_each : length msg.acks ≡ hops msg
  pub in_time : msg.remaining ≤ msg.total
  pub takes_time : 1 ≤ msg.total

advance-acks :
    (msg : ActiveMsg)
    → IsLaunched msg
    → let q = (msg.remaining - 1) * hops msg / msg.total in
      ((advance msg).acks ≡ set msg.acks (hops msg - 1 - q) true) × (q < hops msg)
unfolding advance
advance-acks msg l =
    let lt : msg.remaining - 1 < msg.total = omega (arith, l.in_time, l.takes_time) in
    let moved : ActiveMsg = record msg { remaining = msg.remaining - 1 } in
    let test : ltb (msg.remaining - 1) msg.total ≡ true = ground (arith, lt) in
    let index = hop_index_lem moved l.has_hops lt in (rw (test, index.0) refl, index.1)

pub advance-IsLaunched : (msg : ActiveMsg) → IsLaunched msg → IsLaunched (advance msg)
unfolding advance
advance-IsLaunched msg l = record {
  has_hops = l.has_hops;
  one_each = ap length (advance-acks msg l).0 ∙ length-set msg.acks _ ∙ l.one_each;
  in_time = omega (arith, l.in_time);
  takes_time = l.takes_time;
}

-- Whether the last hop is acknowledged.
abbrev pub last_ack : ActiveMsg → Bool
last_ack msg = get_or msg.acks (hops msg - 1) false

last_index :
    (msg : ActiveMsg)
    → IsLaunched msg
    → let r = (msg.remaining - 1) * hops msg in
      ((hops msg - 1 - r / msg.total) == (hops msg - 1)) ≡ ltb r msg.total
last_index msg l =
    let r : ℕ = (msg.remaining - 1) * hops msg in
    let (at_last, not_yet) =
      div-lt_iff_lt-mul {k = msg.total} {x = r} {y = 1} (omega (arith, l.takes_time)) in
    elim (Bool-cases (ltb r msg.total)) [
      | inl e ↦
          let none_left : r / msg.total < 1 = not_yet (ground (arith, e)) in
          rw e (ground (arith, none_left))
      | inr e ↦ elim (Bool-cases (ltb (r / msg.total) 1)) [
        | inl z ↦ let now = at_last (ground (arith, z)) in absurd (ground (arith, now, e))
        | inr z ↦ let h = l.has_hops in rw e (ground (arith, z, h))
      ]
    ]

last_ack-advance :
    (msg : ActiveMsg)
    → IsLaunched msg
    → last_ack (advance msg) ≡ (last_ack msg || ltb ((msg.remaining - 1) * hops msg) msg.total)
last_ack-advance msg l =
    let (set_one, less) = advance-acks msg l in
    let i : ℕ = hops msg - 1 - (msg.remaining - 1) * hops msg / msg.total in
    let within : i < length msg.acks = rw l.one_each (omega (arith, l.has_hops)) in
    let path_kept : hops (advance msg) ≡ hops msg = unfold advance in refl in
    rw (path_kept, set_one)
      (get_or-set msg.acks i (hops msg - 1) within ∙ ap (λ b. last_ack msg || b) (last_index msg l))

-- After one tick or more, the last hop of a message that was launched is acknowledged if it was before,
-- or if the ticks that remain, times the hops, are fewer than its total: with one hop, from the first
-- tick on.
pub last_ack-advance_n :
    (n : ℕ) (msg : ActiveMsg)
    → IsLaunched msg
    → last_ack (advance_n (suc n) msg)
      ≡ (last_ack msg || ltb ((msg.remaining - suc n) * hops msg) msg.total)
last_ack-advance_n zero msg l = last_ack-advance msg l
last_ack-advance_n (suc n) msg l =
    let later = last_ack-advance_n n (advance msg) (advance-IsLaunched msg l) in
    let first = last_ack-advance msg l in
    let left : (advance msg).remaining - suc n ≡ msg.remaining - suc (suc n) =
      unfold advance in omega arith in
    let same_total : (advance msg).total ≡ msg.total = unfold advance in refl in
    let path_kept : hops (advance msg) ≡ hops msg = unfold advance in refl in
    let less = mul_le (msg.remaining - suc (suc n)) (msg.remaining - 1) (hops msg) (omega arith) in
    later ∙ rw (first, left, same_total, path_kept) (ground (arith, less))
