-- ===== src/Node.antt =====
-- internal/node/node.go: the node over the registry, the pool of connections and the notifier.
-- A method that makes several calls of these is one step here: the calls of other goroutines
-- between them are not modelled. Remote calls and timers are not a part of the model.
pub mod Cleaning
pub mod Pings
pub mod Peers
pub mod Start
pub mod Listing
pub mod Listed
pub mod Remote
pub mod Beating
pub mod Flood
pub mod Told
pub mod DiesOut
mod BeatTests
pub mod Loops
pub mod Pooled
pub mod Running
mod FloodTests
pub mod Tests
use p2ptest.Base.{
  ℕ, suc, Str, lit, str_eq, nat_eq, ◌==◌, ◌||◌, Bool, true, false, not, if◌then◌else◌, is_some,
  is_empty, Option, none, some, List, [], ◌∷◌, ◌++◌, Outcome, done, ◌>>=◌, deref,
}
use p2ptest.Base.Dict
use p2ptest.Base.Dict.{Dict, Visit}
use p2ptest.Proto.{
  NodeStatus, unknown, online, busy, offline, other, NodeId, NodeAddr, NodeInfo, HeartbeatResp,
}
use p2ptest.Addr.{first_addr}
use p2ptest.Config.{heartbeat_timeout}
use p2ptest.Notification.{Notification, new_peer_offline, new_peer_discovered}
use p2ptest.Notifier
use p2ptest.Notifier.{Notifier, Callback, Delivery}
use p2ptest.Registry
use p2ptest.Registry.{Registry}
use p2ptest.ConnPool.{ConnPool, Call, close_by_addr}

-- The channel that `RecordPingSent` makes, known by a number.
abbrev pub Channel : Type 0
Channel = ℕ

-- What a channel carries: the round trip's start, which the pong repeats, and its end.
pub record RoundTrip : Type 0 where
  pub ping_timestamp : ℕ
  pub arrival : ℕ

-- The part of `Node` that its methods change. A channel has room for one value.
pub record Node : Type 0 where
  pub node_id : NodeId
  pub self_status : NodeStatus
  pub registry : Registry
  pub conn_pool : ConnPool
  pub notifier : Notifier
  pub pending_pings : Dict Str Channel
  pub channels : Dict Channel RoundTrip
  pub next_channel : Channel

-- What a method did outside the node's own state: calls of callbacks, and of connections and
-- streams.
pub record Effects : Type 0 where
  pub calls : List Delivery
  pub closings : List Call

abbrev pub no_effects : Effects
no_effects = record { calls = []; closings = [] }

abbrev pub then_effects : Effects → Effects → Effects
then_effects a b = record { calls = a.calls ++ b.calls; closings = a.closings ++ b.closings }

abbrev pub addr_or_empty : Option Str → Str
addr_or_empty none = []
addr_or_empty (some a) = a

-- The reading of the clock for a notification, and the order in which the callbacks are visited.
pub record Moment : Type 0 where
  pub emitted_at : ℕ
  pub callbacks_order : Visit (ℕ × Callback)

-- `if addr != "" { n.connPool.CloseByAddr(addr) }`
unfoldable pub close_if_addr : ConnPool → Str → ConnPool × List Call
close_if_addr pool addr = if is_empty addr then (pool, []) else close_by_addr pool addr

-- The end of a round of `cleanupStalePeers`, for a peer that was removed.
unfoldable pub announce_stale : Moment → Node → Str → Str → Node × Effects
unfolding close_if_addr
announce_stale m n name addr =
    let (notifier, calls) =
      Notifier.emit n.notifier m.callbacks_order
        (new_peer_offline name (lit "heartbeat timeout") m.emitted_at) in
    let (pool, closings) = close_if_addr n.conn_pool addr in
    (
      record n { notifier = notifier; conn_pool = pool },
      record { calls = calls; closings = closings },
    )

-- The round of `cleanupStalePeers` for a peer that is found.
unfoldable pub clean_peer : Moment → Node → Str → NodeInfo → Outcome (Node × Effects)
unfolding announce_stale
clean_peer m n uuid peer = deref peer.id >>= λ id.
    Registry.unregister (Registry.update_status n.registry uuid offline).1 uuid >>= λ out.
    let n' : Node = record n { registry = out.1 } in
    if out.0
    then done (announce_stale m n' id.name (addr_or_empty (first_addr peer.addrs)))
    else done (n', no_effects)

-- The round of `cleanupStalePeers` for an identity.
unfoldable pub clean_one : Moment → Node → Str → Outcome (Node × Effects)
unfolding clean_peer
clean_one m n uuid = elim (Registry.get n.registry uuid) [
  | none ↦ done (n, no_effects)
  | some peer ↦ clean_peer m n uuid peer
]

-- The loop of `cleanupStalePeers`.
unfoldable pub clean_all : (Str → Moment) → Node → List Str → Outcome (Node × Effects)
unfolding clean_one
clean_all moment n [] = done (n, no_effects)
clean_all moment n (uuid ∷ rest) = clean_one (moment uuid) n uuid >>= λ out.
    clean_all moment out.0 rest >>= λ out'. done (out'.0, then_effects out.1 out'.1)

-- `cleanupStalePeers`, at the time `now`.
unfoldable pub cleanup_stale_peers :
    Visit (Str × NodeInfo) → ℕ → (Str → Moment) → Node → Outcome (Node × Effects)
unfolding clean_all
cleanup_stale_peers visit now moment n =
    clean_all moment n (Registry.get_stale n.registry visit now heartbeat_timeout)

-- `SetNodeStatus`
unfoldable pub set_node_status : Node → NodeStatus → Node
set_node_status n status = record n { self_status = status }

-- `GetStatusPB`
unfoldable pub get_status_pb : Node → NodeStatus
get_status_pb n = n.self_status

-- `statusToString`, and the `switch` of `GetNodeStatus`
unfoldable pub status_to_string : NodeStatus → Str
status_to_string online = lit "online"
status_to_string busy = lit "busy"
status_to_string offline = lit "offline"
status_to_string unknown = lit "unknown"
status_to_string (other k) = lit "unknown"

-- `GetNodeStatus`
unfoldable pub get_node_status : Node → Str
unfolding status_to_string
get_node_status n = status_to_string n.self_status

-- `resp.Status != pb.NodeStatus_UNKNOWN`
abbrev pub is_known : NodeStatus → Bool
is_known unknown = false
is_known online = true
is_known busy = true
is_known offline = true
is_known (other k) = true

-- The end of `sendHeartbeatToPeer`, with the response of the peer, nil where there is none.
unfoldable pub heartbeat_answered : Node → Str → Option HeartbeatResp → Node
heartbeat_answered n uuid none = n
heartbeat_answered n uuid (some resp) =
    if is_known resp.status
    then record n { registry = (Registry.update_status n.registry uuid resp.status).1 }
    else n

-- `RecordPingSent`: the new channel.
unfoldable pub record_ping_sent : Node → Str → Channel × Node
record_ping_sent n nonce = (
  n.next_channel,
  record n {
    pending_pings = Dict.put n.pending_pings nonce n.next_channel;
    next_channel = suc n.next_channel;
  },
)

-- `CancelPendingPing`
unfoldable pub cancel_pending_ping : Node → Str → Node
cancel_pending_ping n nonce = record n { pending_pings = Dict.remove n.pending_pings nonce }

-- `select { case ch <- rtt: default: }`
unfoldable pub offer : Node → Channel → RoundTrip → Node
offer n ch rtt =
    if is_some (Dict.get n.channels ch)
    then n
    else record n { channels = Dict.put n.channels ch rtt }

-- `HandlePongReceived`, at the time `now`
unfoldable pub handle_pong_received : Node → Str → ℕ → ℕ → Node
unfolding offer
handle_pong_received n nonce ping_timestamp now = elim (Dict.get n.pending_pings nonce) [
  | none ↦ n
  | some ch ↦
      offer (record n { pending_pings = Dict.remove n.pending_pings nonce }) ch
        (record { ping_timestamp = ping_timestamp; arrival = now })
]
