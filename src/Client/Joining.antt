-- ===== src/Client/Joining.antt =====
-- `HandshakeSeedNode` and `HandshakeAndConnect` of internal/client/client.go, internal/client/discovery.go,
-- and `ConnectToPeer` of the adapter in cmd/p2pnode/root/root.go. What dialling and the remote
-- calls return is a parameter. Log lines are left out.
use p2ptest.Base.{
  ℕ, Str, lit, Bool, if◌then◌else◌, is_empty, Option, none, some, List, [], ◌∷◌, ◌++◌, Outcome,
  done, ◌>>=◌,
}
use p2ptest.Proto.{NodeInfo, HandshakeResp, GetPeersResp, FindNodeResp}
use p2ptest.Services.{Result, error, ok}
use p2ptest.Registry
use p2ptest.ConnPool.{Conn, Call, close}
use p2ptest.Node.{Node}
use p2ptest.Client.Connecting.{Stamps, Dialed, connect_to_peers}

-- What `grpcutil.NewClientConn` returns, and then the remote call: an error's text, or its value.
pub data Rpc (A : Type 0) : Type 0 where
  rpc_failed : Str → Rpc A
  replied : A → Rpc A

pub data Reached (A : Type 0) : Type 0 where
  unreachable : Str → Reached A
  reached : Conn → Rpc A → Reached A

-- What `HandshakeSeedNode` returns, the node, and the connection that is closed.
pub record Seeded : Type 0 where
  pub result : Result (List NodeInfo)
  pub node : Node
  pub closings : List Call

-- `if resp.Peer != nil { n.AddOnlinePeer(resp.Peer) }`: its error is not read.
unfoldable pub add_seed : Stamps → Node → Option NodeInfo → Node
add_seed t n none = n
add_seed t n (some p) = record n {
  registry = (Registry.register n.registry (some p) t.active_at t.registered_at).1;
}

-- `allPeers`
unfoldable pub all_peers : HandshakeResp → List NodeInfo
all_peers resp = elim resp.peer [ none ↦ resp.known_peers | some p ↦ resp.known_peers ++ p ∷ [] ]

-- `HandshakeSeedNode` of the address `seed`.
unfoldable pub handshake_seed_node : Stamps → Node → Str → Reached HandshakeResp → Seeded
unfolding add_seed all_peers
handshake_seed_node t n seed (unreachable why) = record {
  result = error (lit "connect to seed " ++ seed ++ lit " failed: " ++ why);
  node = n;
  closings = [];
}
handshake_seed_node t n seed (reached conn (rpc_failed why)) = record {
  result = error (lit "call Handshake RPC failed: " ++ why);
  node = n;
  closings = close conn ∷ [];
}
handshake_seed_node t n seed (reached conn (replied resp)) =
    if resp.accepted
    then record {
      result = ok (all_peers resp);
      node = add_seed t n resp.peer;
      closings = close conn ∷ [];
    }
    else record {
      result = error (lit "handshake rejected: " ++ resp.reject_reason);
      node = n;
      closings = close conn ∷ [];
    }

-- The error of `ConnectToPeers`, nil where `errMsg` is empty.
unfoldable pub peers_error : Str → Option Str
peers_error err_msg =
    if is_empty err_msg then none else some (lit "some peers connect failed: " ++ err_msg)

-- What a whole attempt to join returns: its error, the node, and the closed connections.
pub record Attempt : Type 0 where
  pub error : Option Str
  pub node : Node
  pub closings : List Call

abbrev pub prefixed : Str → Option Str → Option Str
prefixed text none = none
prefixed text (some why) = some (text ++ why)

-- The steps that `HandshakeAndConnect` and the adapter's `ConnectToPeer` have in common, with the texts that
-- each puts before an error.
unfoldable pub join : Str → Str → Str → (ℕ → Stamps) → (ℕ → Str → Dialed) → Seeded → Outcome Attempt
unfolding peers_error
join at_seed at_peers self_addr clock dial s = elim s.result [
  | error why ↦
      done (record { error = some (at_seed ++ why); node = s.node; closings = s.closings })
  | ok peers ↦ connect_to_peers self_addr clock dial s.node peers >>= λ p. done (record {
    error = prefixed at_peers (peers_error p.err_msg);
    node = p.node;
    closings = s.closings ++ p.closings;
  })
]

-- `HandshakeAndConnect`
unfoldable pub handshake_and_connect :
    Str
    → Stamps
    → (ℕ → Stamps)
    → (ℕ → Str → Dialed)
    → Node
    → Str
    → Reached HandshakeResp
    → Outcome Attempt
unfolding handshake_seed_node join
handshake_and_connect self_addr t clock dial n seed answer =
    join (lit "handshake seed failed: ") (lit "connect peers failed: ") self_addr clock dial
      (handshake_seed_node t n seed answer)

-- `ConnectToPeer` of the adapter: the error of `ConnectToPeers` is passed on as it is.
unfoldable pub connect_to_peer :
    Str
    → Stamps
    → (ℕ → Stamps)
    → (ℕ → Str → Dialed)
    → Node
    → Str
    → Reached HandshakeResp
    → Outcome Attempt
unfolding handshake_seed_node join
connect_to_peer self_addr t clock dial n addr answer =
    join (lit "连接 " ++ addr ++ lit " 失败: ") [] self_addr clock dial
      (handshake_seed_node t n addr answer)

-- `GossipWithPeer`: what it returns, and the connection that is closed.
unfoldable pub gossip_with_peer : Str → Reached GetPeersResp → Result (List NodeInfo) × List Call
gossip_with_peer addr (unreachable why) =
    (error (lit "connect to " ++ addr ++ lit " for gossip failed: " ++ why), [])
gossip_with_peer addr (reached conn (rpc_failed why)) =
    (error (lit "GetPeers RPC failed: " ++ why), close conn ∷ [])
gossip_with_peer addr (reached conn (replied resp)) = (ok resp.peers, close conn ∷ [])

-- `FindNode`: what it returns, and the connection that is closed.
unfoldable pub find_node : Str → Reached FindNodeResp → Result (Option NodeInfo × Bool) × List Call
find_node addr (unreachable why) =
    (error (lit "connect to " ++ addr ++ lit " for FindNode failed: " ++ why), [])
find_node addr (reached conn (rpc_failed why)) =
    (error (lit "FindNode RPC failed: " ++ why), close conn ∷ [])
find_node addr (reached conn (replied resp)) = (ok (resp.node, resp.found), close conn ∷ [])
