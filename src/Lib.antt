-- ===== src/Lib.antt =====
-- A model of p2ptest, a peer-to-peer node in Go, with the theorems about it.
--
-- A node keeps a registry of the peers that are online, a notifier with a history of notifications,
-- and a pool of connections and streams. It serves three gRPC services over these: Discovery reads
-- the registry; Membership changes it, by handshakes, heartbeats, disconnections and announcements,
-- and emits notifications; Messaging takes the envelopes of a stream, emits the texts and answers the
-- pings. The client joins other nodes and sends envelopes over the pool. The node removes the peers that
-- have been silent. A console and a web dashboard give the user's orders to the node through the same
-- interfaces, and show its notifications.
--
-- The files, and the sources that they model:
--   Base          Go's strings as lists of bytes, maps as association lists, panics as Outcome
--   Proto         proto/p2p/p2p.pb.go, the messages
--   Addr          internal/types/errors.go, formatNodeAddr, getPeerFirstAddr, parseHostPort, mustParsePort
--   Config        internal/types/config.go
--   Crypto        internal/crypto/crypto.go
--   Notification  internal/notifier/notification.go
--   Notifier      internal/notifier/notifier.go
--   Registry      internal/discovery/domain/registry.go
--   Discovery     internal/discovery/application/service.go
--   Membership    internal/membership/application/service.go
--   ConnPool      internal/transport/conn_pool.go
--   Messaging     internal/messaging/application/service.go
--   Client        internal/client/client.go, internal/client/ping.go and internal/client/discovery.go
--   Node          internal/node/node.go
--   Input         internal/helper/input.go
--   Services      what the console and the dashboard ask of the node
--   Web           internal/web/server.go and internal/web/handlers.go; Web/Socket internal/web/websocket.go
--   Console       internal/console/console.go
--   CommandLine   cmd/p2pnode/root/root.go
--   Logger        internal/logger/logger.go and internal/grpcutil/conn.go
-- A function has the name of the source's function, in snake case: register is Register,
-- verify_envelope is verifyEnvelope. The state of a component is a record with the fields of the
-- source's struct; a method takes the state and returns the new one.
--
-- Readings of the clock, the orders in which maps are visited, the results of sends, Ed25519,
-- SHA-256, the encoder of protobuf and the upgrade of a request to a web socket are arguments. What
-- is assumed of a library is named where it is assumed: IsEd25519 in Crypto.antt, IsGenuine in Client/Sending.antt, IsVisit in Base/Dict.antt.
-- A method that holds a lock is one step. The handlers of services and the cleaning of the node are
-- one step too, so their interleavings with others are not modelled; those of a WebSocket client and
-- of the console's channel are, as step relations in Web/Socket.antt and Console/Closing.antt, those of
-- the node's loops are events in Node/Loops.antt, and
-- those of a ping as the calls that others make while it waits. proto.Clone is the identity, as no
-- value here is shared.
--
-- There is fuel for the decimal digits of a number in Addr.antt, as a number has at most one digit
-- more than its value, and for the deliveries of announcements in Node/Flood.antt, where
-- Node/DiesOut.antt says how many are enough. Every other loop is a recursion on a list or on a
-- count of rounds.
--
-- Not modelled: the flags, pprof, the lines that are logged, when timers fire, the text of JSON, the
-- text field of the console, the cleaning of paths by ServeMux, the generated codec, and what the end of the process
-- does to the goroutines.
pub mod Base
pub mod Proto
pub mod Addr
pub mod Config
pub mod Crypto
pub mod Notification
pub mod Notifier
pub mod Registry
pub mod Discovery
pub mod Membership
pub mod ConnPool
pub mod Messaging
pub mod Client
pub mod Node
pub mod Input
pub mod Services
pub mod Web
pub mod Console
pub mod CommandLine
pub mod Logger
