-- ===== src/Lib.antt =====
-- carrier: peers that keep connections to each other, find each other by a distributed hash
-- table and exchange signed, framed messages. Each part of the program has a tree of modules here;
-- the paths are those of the repository.
--
-- - Peer (peer/identity.go): the identity of a node, the XOR distance and the length of the
--   shared prefix. Bytes are natural numbers, with `IsBytes` where a bound matters.
-- - Dht (dht/routes.go): `RoutingTable` with a list for each bucket, the most recent peer first;
--   `update`, `remove_peer`, `find_closest_peers` and the others are the methods of the same names.
--   A nil dereference is the outcome `panic`. The random source is a parameter.
-- - Wire (network/stream.go, session.go, package.go, compress.go, utils.go, crypto/keypair.go): the
--   frames that are sent and received over TCP, KCP and QUIC, the packages over UDP, compression
--   and signatures. A connection that is read is the list of segments that arrive, a writer the list
--   of its answers. `Codec` stands for the generated code of internal/protobuf, `Compressors` for
--   the compressors of the Go library and `Policy` for the signature and hash policies.
-- - ConnMgr (network/network.go, network/client.go): the tables of peers, connections, states and
--   streams, `getOrSetPeerClient` with what it calls, `Close`, `Write` and
--   `StreamWrite`. `close` is a `Close` that gets through; Closing has what stops one. A client is
--   a number, whose fields stand in a table, because the source shares it by pointer.
-- - Requests (network/network.go, network/client.go, network/components/ackreply): the preparation
--   of messages, requests with their replies, and messages that wait for an acknowledgement. A
--   blocking call is two steps, before and after it waits.
-- - Telling (network/network.go, network/client.go): `Tell`, `Send`, the broadcasts and `Close` of
--   the network. `Range` visits a map in an order of its own, which is an argument.
-- - Accepting (network/network.go): the loops `Accept`, `AcceptQuic` and `AcceptUdp`, from the bytes
--   that a connection delivers to the clients that the messages are handed to.
-- - Joining (network/network.go): `Bootstrap`, `ConnectPeer`, `ConnectProxyServer` and their
--   reconnections. What the other side does during a call is the record `Meeting`.
-- - Proxy (network/network.go, network/components/proxy/tcp.go): the proxy server in use, and the
--   loop that tries one after the other.
-- - Metric (network/components/metric): the samples of the time that replies take, and their
--   statistics. Floating-point arithmetic is the record `Floats`, and the clock an argument.
-- - Streams (network/multiplex.go, network/stream.go, network/client.go): the streams that share a
--   connection, `streamSendMessage` with what other goroutines do between two of its writes, and the
--   bytes that a client hands to its readers.
-- - Window (network/recv_window.go): the receive window, and the inbox that it stands for.
-- - Addresses (network/address.go, network/utils.go): printing, parsing and unifying addresses, with
--   the cache of look-ups. The parsers of the Go library and the look-up of hosts are the record `Net`.
-- - Discovery (network/components/discovery): the handlers of the component, and `FindNode` with its
--   lookups. The answers to the queries are a list, in the order in which they come.
-- - Backoff (network/components/backoff): the delays and both loops. Floating-point arithmetic is the
--   parameter `grow`; what a turn of a loop meets is a record.
-- - Builder (network/builder.go): adding components, and `Build`.
-- - Lru (types/lru/cache.go), Components (network/component_list.go), Opcode
--   (types/opcode/opcode.go): the cache, the list of components and the table of opcodes.
-- - Prelude: lists, tables by key, sorting and words of bytes; Outcome: calls that may panic;
--   Tests: runs on concrete inputs.
--
-- The routing table is used by Discovery and filled from the senders of messages; frames carry the
-- messages that Requests prepares and signs; the connection manager finds the connection to write to
-- and the client that a received message belongs to, and holds the streams of each peer. Addresses
-- stand before the connection manager and the builder, and use the cache of Lru; the builder hands
-- the list of Components to the network. Accepting and Telling put Wire, Requests and ConnMgr
-- together: a message is prepared, written to the connection of its peer, received, checked, and
-- handed to a client; Joining opens the first connections, to the servers of Proxy, too. Discovery,
-- Backoff, Metric and the acknowledgements are components.
--
-- Bounds: words are cut as the source cuts them (16 and 32 bits in frames and packages, 32 bits in the
-- counters of streams, 64 bits in the nonces and in the counts of bytes). The fuel of the widening
-- search of `find_closest_peers` is the number of buckets, after which there is none left to visit;
-- that of `decimal` is one more than the number, which each digit divides by ten. A lookup of
-- Discovery and a loop over the answers of a writer run on the list of the answers; the theorems
-- of Discovery say how many answers are enough. An accept loop has one more turn than the connection
-- has bytes, and each message takes some of them, so the last turn finds nothing to read.
--
-- A panic is an outcome of the calls that can panic. `close`, which the other parts use, takes the type
-- assertions and the send of `RemoveEntries` as done; ConnMgr.Closing has the checks. A `Write` over
-- quic waits for a mutex that it holds, which is the error `blocked`.
--
-- Not modelled: the locks (each call is one step, and a loop that releases them has what happens
-- between its turns as an argument), sockets, tickers and timers, the queues of jobs,
-- keepalive, the proxies of other protocols than TCP, the monitor, and the copies of other
-- libraries under crypto/, protocols/ and metric/. `performLookup` of Discovery has no caller.
pub mod Streams
pub mod Window
pub mod Addresses
pub mod Backoff
pub mod Discovery
pub mod Builder
pub mod Prelude
pub mod Outcome
pub mod Peer
pub mod Dht
pub mod Wire
pub mod ConnMgr
pub mod Requests
pub mod Opcode
pub mod Components
pub mod Lru
pub mod Tests
pub mod Joining
pub mod Metric
pub mod Accepting
pub mod Telling
pub mod Proxy
