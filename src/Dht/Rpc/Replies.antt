-- ===== src/Dht/Rpc/Replies.antt =====
-- What the handlers answer, and what they change.
use relaymeshnet.Base.{ℕ, ◌+◌, ◌≡◌, refl, ap, ◌∙◌, arith, ◌⊎◌, inl, inr}
use relaymeshnet.Base.{Option, none, some, Bool, true, false, Option-cases}
use relaymeshnet.Base.{◌==◌, ltb, if◌then◌else◌, bytes_eq_refl}
use relaymeshnet.Dht.Key.{bucket_size}
use relaymeshnet.Dht.Table.{closest}
use relaymeshnet.Dht.Store
use relaymeshnet.Dht.Store.{new_value}
use relaymeshnet.Dht.Store.Laws.{get_after}
use relaymeshnet.Dht.Rpc.{Message, Rpc, reply, msg_ping, msg_store, msg_find_node}
use relaymeshnet.Dht.Rpc.{msg_find_value, msg_nodes, msg_value, store_ttl, handle}
use relaymeshnet.Dht.Rpc.{handle_ping, handle_store, handle_find_node, handle_find_value}

-- The four types that are requests.
abbrev pub is_request : ℕ → Bool
is_request t =
    if t == msg_ping
    then true
    else (if t == msg_store
        then true
        else (if t == msg_find_node then true else t == msg_find_value))

-- A reply that carries the request's nonce and the table's id, and is itself no request.
abbrev pub Answers : Message → Rpc → Option Message → Type 0
Answers msg r o =
    (answer : Message) × (o ≡ some answer)
    × (answer.nonce ≡ msg.nonce)
    × (answer.sender_id ≡ r.table.self_id)
    × (is_request answer.msg_type ≡ false)

module _ (now : ℕ) (msg : Message) (r : Rpc) where
  find_value-Answers :
      ((handle_find_value now msg r).0 ≡ r) × Answers msg r (handle_find_value now msg r).1
  unfolding handle_find_value
  find_value-Answers = elim (Option-cases (Store.get now msg.key r.store)) [
    | inl e ↦ rw (e, handle_find_value) (refl, (_, refl, refl, refl, refl))
    | inr (v, e) ↦ rw (e, handle_find_value) (refl, (_, refl, refl, refl, refl))
  ]

  -- `Handle`, one case for each type of request.
  handle-ping : msg.msg_type ≡ msg_ping → handle now msg r ≡ handle_ping msg r
  unfolding handle
  handle-ping e = ground arith

  handle-store : msg.msg_type ≡ msg_store → handle now msg r ≡ handle_store now msg r
  unfolding handle
  handle-store e = ground arith

  handle-find_node : msg.msg_type ≡ msg_find_node → handle now msg r ≡ handle_find_node msg r
  unfolding handle
  handle-find_node e = ground arith

  handle-find_value : msg.msg_type ≡ msg_find_value → handle now msg r ≡ handle_find_value now msg r
  unfolding handle
  handle-find_value e = ground arith

  handle-other : is_request msg.msg_type ≡ false → handle now msg r ≡ (r, none)
  unfolding handle
  handle-other e = ground arith

  request_cases :
      (is_request msg.msg_type ≡ false)
      ⊎ ((msg.msg_type ≡ msg_ping)
          ⊎ ((msg.msg_type ≡ msg_store)
              ⊎ ((msg.msg_type ≡ msg_find_node) ⊎ (msg.msg_type ≡ msg_find_value))))
  request_cases = grind arith

  abbrev pub Kept : Rpc × Option Message → Type 0
  Kept result =
      (result.0.table ≡ r.table)
      × (result.0.store ≡ (
          if msg.msg_type == msg_store
          then Store.put now msg.key msg.value msg.signature store_ttl r.store
          else r.store))
      × (((is_request msg.msg_type ≡ false) × (result.1 ≡ none))
          ⊎ ((is_request msg.msg_type ≡ true) × Answers msg r result.1))

  -- `Handle` never changes the routing table, and changes the store only for a STORE request, by a
  -- `Put` for 24 hours. A type that is no request gets no reply; every request gets one, with the
  -- request's nonce and the table's id, and it is never a request that the peer would answer again.
  pub handle_replies : Kept (handle now msg r)
  handle_replies = elim request_cases [
    | inl other ↦ rw (handle-other other) (refl, ground arith, inl (other, refl))
    | inr (inl e) ↦ rw (handle-ping e) (
        unfold handle_ping in (refl, ground arith, inr (ground arith, (_, refl, refl, refl, refl))))
    | inr (inr (inl e)) ↦ rw (handle-store e) (
        unfold handle_store in
        (refl, ground arith, inr (ground arith, (_, refl, refl, refl, refl))))
    | inr (inr (inr (inl e))) ↦ rw (handle-find_node e) (
        unfold handle_find_node in
        (refl, ground arith, inr (ground arith, (_, refl, refl, refl, refl))))
    | inr (inr (inr (inr e))) ↦
        let (same, answer) = find_value-Answers in
        rw (handle-find_value e) (
          ap (λ (q : Rpc). q.table) same,
          ap (λ (q : Rpc). q.store) same ∙ ground arith,
          inr (ground arith, answer),
        )
  ]

-- The reply to a FIND_VALUE request, by what the store holds.
find_value_reply :
    (t : ℕ) (find : Message) (s : Rpc) (v : Store.Value) (gone : Bool)
    → Store.get t find.key s.store ≡ (if gone then none else some v)
    → (handle_find_value t find s).1
      ≡ some (
          if gone
          then record (reply msg_nodes s find) { nodes = closest find.key bucket_size s.table }
          else record (reply msg_value s find) {
            key = find.key;
            value = v.content;
            signature = v.signature;
          })
unfolding handle_find_value
find_value_reply t find s v true e = rw (e, handle_find_value) refl
find_value_reply t find s v false e = rw (e, handle_find_value) refl

-- What a `Get` reads after a STORE request for the same key.
get-handle_store :
    (now t : ℕ) (put find : Message) (r : Rpc)
    → find.key ≡ put.key
    → Store.get t find.key (handle_store now put r).0.store ≡ (
        if ltb (now + store_ttl) t
        then none
        else some (new_value now put.value put.signature store_ttl))
unfolding handle_store
get-handle_store now t put find r k =
    let same = bytes_eq_refl put.key in
    rw (k) (
      (get_after t now put.key put.key put.value put.signature store_ttl r.store).0
      ∙ rw (same) refl)

-- A FIND_VALUE request for a key that was stored is answered with the stored value and signature for
-- 24 hours, on the handlers that took the STORE request, and after that with the nodes nearest to the key.
pub handle_store_find :
    (now t : ℕ) (put find : Message) (r : Rpc)
    → put.msg_type ≡ msg_store
    → find.msg_type ≡ msg_find_value
    → find.key ≡ put.key
    → (handle t find (handle now put r).0).1
      ≡ some (
          if ltb (now + store_ttl) t
          then record (reply msg_nodes r find) { nodes = closest find.key bucket_size r.table }
          else record (reply msg_value r find) {
            key = find.key;
            value = put.value;
            signature = put.signature;
          })
unfolding handle_store
handle_store_find now t put find r p f k =
    rw (handle-store now put r p, handle-find_value t find _ f)
      (find_value_reply t find (handle_store now put r).0
        (new_value now put.value put.signature store_ttl) (ltb (now + store_ttl) t)
        (get-handle_store now t put find r k))
