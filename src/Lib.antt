-- ===== src/Lib.antt =====
-- RelayMeshNet: the Go packages under pkg/, with which a node of a mesh network frames, routes, relays,
-- stores, encrypts and dates its messages, the node of cmd/rmn-node, and the simulation of a mesh.
--
-- Parts and files. A Go struct is a record, a method a function on it; a mutex that a method holds
-- from its first line to its last makes the call one step. A byte is a number below 256, an array or
-- slice of bytes a list. The clock's readings are arguments, in nanoseconds.
--   Protocol/Wire   pkg/protocol/wire.go: `marshal` and `unmarshal` are Frame.Marshal and Unmarshal.
--   Onion           pkg/onion/onion.go: `build_circuit`, `unwrap_layer`, `get_next_hop`, `onion_size`.
--                   golang.org/x/crypto/nacl/box is the record Box, its documented laws IsBox.
--   History         pkg/poh/poh.go: the generator, its records and checkpoints, `verify_record` and
--                   `verify_chain`. SHA-256 is a parameter.
--   Relay/Queue     pkg/relay/queue.go, Queue: `push` and `pop` of the bounded priority queue.
--   Relay/Hops      pkg/relay/queue.go, HopTracker: `track`, `ack`, `is_acked`, `cleanup`.
--   Dht/Key         pkg/dht/table.go, Key: XOR distances, their leading zeros and their order.
--   Dht/Bucket      pkg/dht/table.go, Bucket: `add` with its eviction, `remove`.
--   Dht/Table       pkg/dht/table.go, Table: `add`, `remove`, `closest`, `count`.
--   Dht/Store       pkg/dht/store.go, Store: `put`, `get`, `delete`, `cleanup`, `count`.
--   Dht/Rpc         pkg/dht/store.go, RPC: the handlers of the messages and `handle`.
--   Transport       pkg/transport/mock.go, MockTransport: a network as a function from addresses, with
--                   `connect`, `disconnect`, `send`, `broadcast`, `recv`, `close`; the types are those
--                   of pkg/transport/transport.go. A result says if the call panics or deadlocks.
--   Economy         pkg/economy/economy.go: balances over float64 as the parameter Float, the relay
--                   queue, `calculate_confirm_n`; reputation and costs in Reputation.
--   Crypto          pkg/crypto/dh.go, keys.go, prekey.go, x3dh.go: `x3dh_send` and `x3dh_receive`.
--                   X25519, Ed25519 and SHA-256 are the record Primitives, their laws IsPrimitives.
--   Crypto/Ratchet  pkg/crypto/ratchet.go: `new_ratchet`, `encrypt`, `decrypt`; HKDF, HMAC and AES-GCM
--                   are the record Suite.
--   Crypto/Identity pkg/crypto/keys.go and pkg/identity/peerid.go: identities and their text.
--   Daemon          cmd/rmn-node/main.go: `new_node`, `initiate_session`, `handle_incoming`, `send_chat`;
--                   encoding/json is the record Json, its law for maps of ASCII texts IsJson in
--                   Daemon/Messages.
--   Simulation      simulation/*.go: the radio's fragments in Radio and its formulas in Signal, the
--                   configuration in Config, a node in Node and its schedule in Schedule; of world.go
--                   the grid in World, findPath in Path, sendMsg in Sending and Dispatch, the delivery
--                   in Flight, checkCollisions in Collision, the calls that switch nodes in Scenario,
--                   RunSteps in Steps, the statistics in Figures. What the random source draws is an
--                   argument.
--   Base            numbers, bytes, lists, association lists and Boolean tests that the parts share.
-- Each part has its definitions in the file of its name, its proofs in the modules below it, and
-- runs at concrete values in Runs.
--
-- How they interact. The payload of a frame is opaque to the codec. A relay unwraps one layer of an
-- onion, reads the next hop, and the inner onion is what the next relay unwraps: Onion/Delivery runs
-- the stations one after another. Dht/Rpc answers from a table and a store, Dht/Table sends each
-- node to the bucket that Dht/Key names. Histories of calls are lists of steps in Ticks, Queue/Laws,
-- Hops/Laws, Placement, Store/Laws, Debt and Fifo; Queue/Lanes has the abstract queue as a step
-- relation. Transport/Reach has the networks that calls reach as an indexed data type, and Steps/Reach
-- the worlds that steps and scenario calls reach.
-- Daemon runs the key agreement and the ratchet of Crypto over a transport. A step of the simulation
-- checks the collisions, changes statuses, delivers, and sends what Dispatch makes; a *Node is an
-- address in the store of the world, so that the grid, a transmission and a loop share the node.
--
-- Fuel. The loops of `verify_record` and `verify_chain` count a uint64 that wraps, so they may not
-- end: `hash_loop` takes fuel, one unit a test, and gives `none` when it is used up. One unit more
-- than the ticks between the two indices is enough whenever the last index is below 2 ^ 64 - 1, and
-- no fuel is enough at 2 ^ 64 - 1. The loop of BuildCircuit counts down and needs none.
--
-- Numbers. A uint64 wraps at 2 ^ 64 where the code adds to it. Go's int is not bounded, since its
-- values here are lengths of slices in memory. A duration does not overflow.
--
-- The counters of a world are int64 that do not overflow. The constants of float64 are ratios of two
-- numbers, and the order of the operations is that of the code. The ticks that a message has to go are
-- positive while it is active, so they are a natural number.
--
-- Not modelled: simulation/main.go, an HTTP server, and the console loop of cmd/rmn-node; handlers of
-- pkg/transport that call the network back; cmd/demo and the browser's user interface, which only
-- show the rest.
pub mod Base
pub mod Protocol
pub mod Onion
pub mod History
pub mod Relay
pub mod Economy
pub mod Transport
pub mod Crypto
pub mod Dht
pub mod Daemon
pub mod Simulation
