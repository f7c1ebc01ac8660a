-- ===== src/Simulation/Radio.antt =====
-- LoRaSF of simulation/radio.go: how many fragments a packet needs.
use relaymeshnet.Base.{
  ℕ, ◌+◌, ◌*◌, ◌-◌, ◌/◌, ◌≤◌, ◌<◌, ◌≡◌, ◌⊎◌, inl, inr, refl, arith, Bool-cases, leb, ◌==◌,
  if◌then◌else◌,
}

abbrev pub sf7 : ℕ
sf7 = 7

abbrev pub sf9 : ℕ
sf9 = 9

abbrev pub sf12 : ℕ
sf12 = 12

unfoldable pub max_payload : ℕ → ℕ
max_payload sf =
    if sf == sf7 then 222 else (if sf == sf9 then 115 else (if sf == sf12 then 51 else 51))

unfoldable pub fragments_needed : ℕ → ℕ → ℕ
unfolding max_payload
fragments_needed packet_size sf =
    if leb packet_size (max_payload sf)
    then 1
    else (packet_size + max_payload sf - 1) / max_payload sf

max_payload_cases :
    (sf : ℕ) → (max_payload sf ≡ 222) ⊎ ((max_payload sf ≡ 115) ⊎ (max_payload sf ≡ 51))
unfolding max_payload
max_payload_cases sf = ground arith

-- The fragments carry the packet, each within the largest payload of the spreading factor, and one
-- fragment fewer would not, unless there is only one.
fragments_needed_lem :
    (packet_size sf : ℕ)
    → let n = fragments_needed packet_size sf in
      (1 ≤ n)
      × (packet_size ≤ n * max_payload sf)
      × ((n ≡ 1) ⊎ ((n - 1) * max_payload sf < packet_size))
unfolding fragments_needed
fragments_needed_lem packet_size sf = elim (Bool-cases (leb packet_size (max_payload sf))) [
  | inl fits ↦ rw fits (omega arith, ground arith, inl refl)
  | inr more ↦ elim (max_payload_cases sf) [
    | inl e ↦ rw (more, e) (ground (arith, e), omega arith, inr (ground (arith, e)))
    | inr (inl e) ↦ rw (more, e) (ground (arith, e), omega arith, inr (ground (arith, e)))
    | inr (inr e) ↦ rw (more, e) (ground (arith, e), omega arith, inr (ground (arith, e)))
  ]
]
