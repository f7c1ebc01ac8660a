-- ===== src/Dht/Rpc.antt =====
-- `RPC` of pkg/dht/store.go: the handlers of the DHT's messages, over the routing table and the
-- store. A field that a reply does not set has Go's zero value. The proofs are in the module below.
pub mod Replies
mod Runs
use relaymeshnet.Base.{ℕ, ◌*◌, List, [], Option, none, some, replicate, ◌==◌, if◌then◌else◌}
use relaymeshnet.Dht.Key.{key_size, bucket_size}
use relaymeshnet.Dht.Bucket.{Node}
use relaymeshnet.Dht.Table.{Table, closest}
use relaymeshnet.Dht.Store
use relaymeshnet.Dht.Store.{Store}

abbrev pub msg_ping : ℕ
msg_ping = 0x01

abbrev pub msg_pong : ℕ
msg_pong = 0x02

abbrev pub msg_store : ℕ
msg_store = 0x03

abbrev pub msg_find_node : ℕ
msg_find_node = 0x04

abbrev pub msg_find_value : ℕ
msg_find_value = 0x05

abbrev pub msg_nodes : ℕ
msg_nodes = 0x06

abbrev pub msg_value : ℕ
msg_value = 0x07

pub record Message : Type 0 where
  pub msg_type : ℕ
  pub sender_id : List ℕ
  pub target : List ℕ
  pub key : List ℕ
  pub value : List ℕ
  pub signature : List ℕ
  pub nodes : List Node
  pub nonce : ℕ

pub record Rpc : Type 0 where
  pub table : Table
  pub store : Store

abbrev pub zero_key : List ℕ
zero_key = replicate key_size 0

-- A message with the sender and the nonce of a reply, and zero values elsewhere.
abbrev pub reply : ℕ → Rpc → Message → Message
reply msg_type r msg = record {
  msg_type = msg_type;
  sender_id = r.table.self_id;
  target = zero_key;
  key = zero_key;
  value = [];
  signature = [];
  nodes = [];
  nonce = msg.nonce;
}

-- 24 * time.Hour
abbrev pub store_ttl : ℕ
store_ttl = 24 * 60 * 60 * 1000000000

unfoldable pub handle_ping : Message → Rpc → Rpc × Option Message
handle_ping msg r = (r, some (reply msg_pong r msg))

unfoldable pub handle_store : ℕ → Message → Rpc → Rpc × Option Message
handle_store now msg r = (
  record r { store = Store.put now msg.key msg.value msg.signature store_ttl r.store },
  some (reply msg_pong r msg),
)

unfoldable pub handle_find_node : Message → Rpc → Rpc × Option Message
handle_find_node msg r =
    (r, some (record (reply msg_nodes r msg) { nodes = closest msg.target bucket_size r.table }))

unfoldable pub handle_find_value : ℕ → Message → Rpc → Rpc × Option Message
handle_find_value now msg r = elim (Store.get now msg.key r.store) [
  | some val ↦ (
    r,
    some (record (reply msg_value r msg) {
      key = msg.key;
      value = val.content;
      signature = val.signature;
    }),
  )
  | none ↦
      (r, some (record (reply msg_nodes r msg) { nodes = closest msg.key bucket_size r.table }))
]

-- `none` is the nil reply to any other type.
unfoldable pub handle : ℕ → Message → Rpc → Rpc × Option Message
unfolding handle_ping handle_store handle_find_node handle_find_value
handle now msg r =
    if msg.msg_type == msg_ping
    then handle_ping msg r
    else (if msg.msg_type == msg_store
        then handle_store now msg r
        else (if msg.msg_type == msg_find_node
            then handle_find_node msg r
            else (if msg.msg_type == msg_find_value
                then handle_find_value now msg r
                else (r, none))))
