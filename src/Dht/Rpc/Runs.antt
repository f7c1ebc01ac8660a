-- ===== src/Dht/Rpc/Runs.antt =====
-- A STORE request and a FIND_VALUE request, and the theorems at them.
use relaymeshnet.Base.{ℕ, ◌+◌, ◌≡◌, refl, List, [], ◌∷◌, some, ltb, if◌then◌else◌}
use relaymeshnet.Dht.Key.{bucket_size}
use relaymeshnet.Dht.Table.{new_table, closest}
use relaymeshnet.Dht.Store.{new_store}
use relaymeshnet.Dht.Rpc.{Message, Rpc, reply, msg_store, msg_find_value, msg_nodes, msg_value}
use relaymeshnet.Dht.Rpc.{store_ttl, handle}
use relaymeshnet.Dht.Rpc.Replies.{Kept, handle_replies, handle_store_find}

abbrev message : ℕ → List ℕ → Message
message t content = record {
  msg_type = t;
  sender_id = 2 ∷ [];
  target = [];
  key = 4 ∷ [];
  value = content;
  signature = 6 ∷ [];
  nodes = [];
  nonce = 77;
}

abbrev rpc : Rpc
rpc = record { table = new_table (9 ∷ []); store = new_store }

handle_replies_example :
    Kept 10 (message msg_store (5 ∷ [])) rpc (handle 10 (message msg_store (5 ∷ [])) rpc)
handle_replies_example = handle_replies 10 (message msg_store (5 ∷ [])) rpc

handle_store_find_example :
    (handle 20 (message msg_find_value []) (handle 10 (message msg_store (5 ∷ [])) rpc).0).1
    ≡ some (
        if ltb (10 + store_ttl) 20
        then record (reply msg_nodes rpc (message msg_find_value [])) {
          nodes = closest (4 ∷ []) bucket_size rpc.table;
        }
        else record (reply msg_value rpc (message msg_find_value [])) {
          key = 4 ∷ [];
          value = 5 ∷ [];
          signature = 6 ∷ [];
        })
handle_store_find_example =
    handle_store_find 10 20 (message msg_store (5 ∷ [])) (message msg_find_value []) rpc refl refl
      refl
