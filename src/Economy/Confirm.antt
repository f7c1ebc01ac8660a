-- ===== src/Economy/Confirm.antt =====
-- The Confirm-N rule: how many packets a sender relays for a message.
use relaymeshnet.Base.{ℕ, ◌+◌, ◌*◌, ◌-◌, ◌≤◌, ◌<◌, ◌≡◌, ◌⊎◌, inl, inr, refl, arith, ltb, Bool-cases}
use relaymeshnet.Base.Int.{pos, negsuc}
use relaymeshnet.Economy.{calculate_confirm_n, ceil_chunks, relay_chunk_size, confirm_threshold}

ceil_chunks_lem :
    (bytes : ℕ)
    → (bytes ≤ ceil_chunks bytes * relay_chunk_size)
      × (ceil_chunks bytes * relay_chunk_size < bytes + relay_chunk_size)
unfolding ceil_chunks
ceil_chunks_lem bytes = (omega arith, omega arith)

-- `CalculateConfirmN` is -1 for a message above 2048 bytes. For any other it is the least number
-- that is at least 2 and whose chunks of 512 bytes carry the message over all its hops.
pub calculate_confirm_n_lem :
    (msg_bytes hops : ℕ)
    → ((confirm_threshold < msg_bytes) × (calculate_confirm_n msg_bytes hops ≡ negsuc 0))
      ⊎ ((msg_bytes ≤ confirm_threshold)
          × ((n : ℕ) × (calculate_confirm_n msg_bytes hops ≡ pos n)
              × (2 ≤ n)
              × (hops * msg_bytes ≤ n * relay_chunk_size)
              × ((n ≡ 2) ⊎ ((n - 1) * relay_chunk_size < hops * msg_bytes))))
unfolding calculate_confirm_n
calculate_confirm_n_lem msg_bytes hops = elim (Bool-cases (ltb confirm_threshold msg_bytes)) [
  | inl large ↦ inl (ground arith, rw large refl)
  | inr small ↦
      let total = hops * msg_bytes in
      let n = ceil_chunks total in
      let (enough, least) = ceil_chunks_lem total in
      elim (Bool-cases (ltb n 2)) [
        | inl few ↦
            inr (
              ground arith,
              (2, rw (small, few) refl, omega arith, ground (arith, enough), inl refl),
            )
        | inr many ↦ inr (
          ground arith,
          (n, rw (small, many) refl, ground arith, enough, inr (ground (arith, least))),
        )
      ]
]
