-- ===== src/CommandLine/Adapter.antt =====
-- `nodeAdapter` of cmd/p2pnode/root/root.go: the services of the console and the dashboard, filled by the node.
use p2ptest.Base.{
  ℕ, suc, ◌*◌, Str, lit, Bool, true, false, if◌then◌else◌, Option, none, some, List, [], ◌++◌, done,
  ◌>>=◌,
}
use p2ptest.Base.Dict.{Visit}
use p2ptest.Proto.{NodeInfo, HandshakeResp, Envelope}
use p2ptest.Addr.{message}
use p2ptest.Notifier
use p2ptest.Registry
use p2ptest.ConnPool.{Stream, has_stream}
use p2ptest.Node.{Node, Moment, RoundTrip, get_node_status}
use p2ptest.Node.Pings.{PingOp}
use p2ptest.Node.Peers.{Disconnection, not_online, no_address, disconnected, disconnect_peer}
use p2ptest.Node.Listing.{get_online_peers}
use p2ptest.Client.{Sender, Stamp, send_text_message, broadcast_text_message}
use p2ptest.Client.Connecting.{Stamps, Dialed}
use p2ptest.Client.Joining.{Reached, connect_to_peer}
use p2ptest.Client.Pinging.{PingResult, ping_error, latency, waiting, send_ping}
use p2ptest.Services.{Services, Result, error, ok, ℤ, difference}
use p2ptest.CommandLine.{set_node_status}

-- The node, and the number of the calls that it has served.
pub record Running : Type 0 where
  pub node : Node
  pub turn : ℕ

-- What a call meets, by its number: the readings of the clock, the visiting orders, what is dialled
-- and answered, and what other goroutines do.
pub record Environment : Type 0 where
  pub sender : Sender
  pub self_addr : Str
  pub sends : ℕ → Stream → Envelope → Bool
  pub why : ℕ → Str
  pub stamps : ℕ → ℕ → Stamp
  pub streams_order : ℕ → Visit (Str × Stream)
  pub peers_order : ℕ → Visit (Str × NodeInfo)
  pub moment : ℕ → Moment
  pub now : ℕ → ℕ
  pub clock_text : ℕ → Str
  pub random : ℕ → Option Str
  pub meanwhile : ℕ → List PingOp
  pub chosen : ℕ → Bool
  pub seed_stamps : ℕ → Stamps
  pub clock : ℕ → ℕ → Stamps
  pub dial : ℕ → ℕ → Str → Dialed
  pub answer : ℕ → Str → Reached HandshakeResp

abbrev pub next : Running → Node → Running
next s n = record { node = n; turn = suc s.turn }

-- The error of `SendTextMessage`; that of the encoder or of the stream is `why`.
unfoldable pub send_error : Environment → Running → Str → Bool → Option Str
send_error e s addr true = none
send_error e s addr false =
    some (if has_stream s.node.conn_pool addr then e.why s.turn else lit "no stream to " ++ addr)

-- What `DisconnectPeer` returns.
unfoldable pub disconnect_result : Str → Disconnection → Result Str
disconnect_result name not_online = error (lit "节点「" ++ name ++ lit "」不在线")
disconnect_result name (no_address why) = error (message why)
disconnect_result name (disconnected addr told) = ok addr

-- The time between a ping and its pong: the ping's is in milliseconds, the clock's in nanoseconds.
unfoldable pub round_trip_time : RoundTrip → ℤ
round_trip_time rtt = difference rtt.arrival (rtt.ping_timestamp * 1000000)

-- What `SendPing` returns: it does not go on waiting once its timer has fired.
unfoldable pub ping_result : PingResult → Result ℤ
unfolding round_trip_time
ping_result (ping_error why) = error why
ping_result (latency rtt) = ok (round_trip_time rtt)
ping_result waiting = error []

-- The methods of `nodeAdapter`, and those of the node itself.
unfoldable pub node_services : Environment → Services Running
unfolding send_error disconnect_result ping_result
node_services e = record {
  get_online_peers =
      λ s. get_online_peers e.clock_text (e.now s.turn) (e.peers_order s.turn) s.node;
  get_addr_by_name = λ s name. Registry.get_addr_by_name s.node.registry name;
  send_text_message = λ s addr content.
      let (sent, calls) =
        send_text_message (e.sends s.turn) e.sender s.node.conn_pool (e.stamps s.turn 0) addr
          content in
      (send_error e s addr sent, next s s.node);
  broadcast_message = λ s content.
      let b =
        broadcast_text_message (e.sends s.turn) e.sender s.node.conn_pool (e.streams_order s.turn)
          (e.stamps s.turn) content in
      ((b.success, b.failed), next s s.node);
  connect_to_peer = λ s addr.
      connect_to_peer e.self_addr (e.seed_stamps s.turn) (e.clock s.turn) (e.dial s.turn) s.node
        addr (e.answer s.turn addr)
      >>= λ out. done (out.error, next s out.node);
  disconnect_peer = λ s name.
      disconnect_peer (e.peers_order s.turn) (e.moment s.turn) s.node name >>= λ out.
      done (disconnect_result name out.0, next s out.1);
  send_ping = λ s addr.
      let (result, n) =
        send_ping (e.sends s.turn) e.sender (e.stamps s.turn 0) (e.random s.turn)
          (e.meanwhile s.turn) (record { fired = true; chosen = e.chosen s.turn }) s.node addr in
      (ping_result result, next s n);
  set_node_status = λ s status. let (err, n) = set_node_status s.node status in (err, next s n);
  get_node_status = λ s. get_node_status s.node;
  history = λ s. Notifier.history s.node.notifier;
}
