-- ===== src/Client/JoinTests.antt =====
-- The theorems about joining and about pings, at concrete nodes.
use p2ptest.Base.{
  Str, lit, Returns, str_eq, str_beq, some, List, true, false, [], ◌∷◌, ◌++◌, ◌≡◌, ◌≢◌, refl, Mem,
  arith, Bool,
}
use p2ptest.Base.Dict
use p2ptest.Base.Dict.{get-empty}
use p2ptest.Proto.{NodeId, NodeInfo, Envelope, online, ping}
use p2ptest.Registry
use p2ptest.Registry.Tests.{
  self_uuid, one, one-IsValid, same_order, same_order-IsVisit, one_not_self,
}
use p2ptest.Registry.Invariant.{new-IsValid}
use p2ptest.Notifier
use p2ptest.Membership.{Service, Runtime}
use p2ptest.ConnPool.{Stream, send_to_stream}
use p2ptest.Node.{Node}
use p2ptest.Node.Tests
use p2ptest.Node.Pings
use p2ptest.Node.Pings.{PingOp, sent, answered}
use p2ptest.Client.{seal, attempt, ping_envelope}
use p2ptest.Client.Tests.{node, node-IsGenuine, stamp, reachable, pool}
use p2ptest.Client.Connecting.{Stamps}
use p2ptest.Services.{ok}
use p2ptest.Client.Joining.{replied, reached, handshake_seed_node, handshake_and_connect}
use p2ptest.Client.Meeting.{AreStrangers, answer, self_of, meeting, HasJoined, joining}
use p2ptest.Client.Pinging.{send_ping, latency}
use p2ptest.Client.Settled.{IsSettled, send_ping-IsSettled, send_ping-latency}

abbrev host_id : NodeId
host_id = record { uuid = self_uuid; name = 83 ∷ []; public_key = [] }

abbrev host : NodeInfo
host = record { id = some host_id; addrs = []; status = online; last_seen = 0 }

abbrev service : Service
service = record {
  registry = one;
  self_info = some host;
  notifier = some (Notifier.new 100);
  status_getter = some (λ s. online);
}

-- The node that joins, which knows nobody.
abbrev guest : Node
guest = record Tests.node {
  registry = Registry.new (97 ∷ []);
  node_id = node.node_id;
  conn_pool = pool;
}

abbrev rt : Runtime
rt = record {
  active_at = 10;
  registered_at = 11;
  emitted_at = 12;
  emitted_again_at = 13;
  peers_order = same_order;
  callbacks_order = same_order;
  callbacks_order_again = same_order;
}

abbrev at_once : Stamps
at_once = record { active_at = 1; registered_at = 2 }

host_not_guest : self_uuid ≢ (Registry.new (97 ∷ [])).self_uuid
unfolding Registry.new
host_not_guest = ground arith

strangers : AreStrangers node guest service rt
unfolding Registry.new
strangers = record {
  genuine = node-IsGenuine;
  guest_valid = new-IsValid (97 ∷ []);
  host_valid = one-IsValid;
  once = same_order-IsVisit;
  guest_named = refl;
  guest_other = one_not_self;
  host = host;
  host_id = host_id;
  self_info = refl;
  has_id = refl;
  host_named = refl;
  host_other = host_not_guest;
}

meeting_example :
    let reply = answer node service rt in
    let out = handshake_seed_node at_once guest (lit "1:1") (reached 7 (replied reply.resp)) in
    (out.result ≡ ok (reply.resp.known_peers ++ strangers.host ∷ []))
    × Mem (self_of node) reply.resp.known_peers
    × (Registry.get out.node.registry strangers.host_id.uuid ≡ some strangers.host)
    × (Registry.get reply.service.registry (97 ∷ []) ≡ some (self_of node))
meeting_example = meeting strangers at_once (lit "1:1") 7

joining_example :
    Returns
      (HasJoined (lit "1:2") ((answer node service rt).resp.known_peers ++ strangers.host ∷ []))
      (handshake_and_connect
        (lit "1:2")
        at_once
        (λ i. at_once)
        reachable
        guest
        (lit "1:1")
        (reached 7 (replied (answer node service rt).resp)))
joining_example = joining strangers at_once (lit "1:1") 7 (lit "1:2") (λ i. at_once) reachable

abbrev accepts : Stream → Envelope → Bool
accepts s env = true

abbrev others : List PingOp
others = sent (2 ∷ []) ∷ answered (2 ∷ []) 5 6 ∷ []

nonce_differs : ◌≢◌ {A = Str} (2 ∷ []) (1 ∷ [])
nonce_differs = ground arith

send_ping-IsSettled_example : IsSettled (1 ∷ []) (
    send_ping accepts node stamp
      (some (1 ∷ []))
      others
      (record { fired = true; chosen = true })
      Tests.node
      (97 ∷ []))
send_ping-IsSettled_example =
    send_ping-IsSettled accepts node stamp Tests.node (97 ∷ []) (1 ∷ []) Tests.node-IsValid others
      (record { fired = true; chosen = true }) (nonce_differs, tt) (get-empty (1 ∷ [])) refl

-- A node with streams.
abbrev caller : Node
caller = record Tests.node { conn_pool = pool }

caller-IsValid : Pings.IsValid caller
caller-IsValid = record {
  made = Tests.node-IsValid.made;
  unfilled = Tests.node-IsValid.unfilled;
  filled_made = Tests.node-IsValid.filled_made;
  own = Tests.node-IsValid.own;
}

abbrev ring : Envelope
ring = seal node stamp (ping (some (record { nonce = 1 ∷ [] }))) (1 ∷ [])

made_ring : ping_envelope node stamp (1 ∷ []) ≡ some ring
unfolding ping_envelope
made_ring = refl

goes_out : (attempt accepts caller.conn_pool (97 ∷ []) ring).0 ≡ true
unfolding attempt send_to_stream Dict.get Dict.lookup str_beq
goes_out = refl

send_ping-latency_example :
    (send_ping accepts node stamp
      (some (1 ∷ []))
      (others ++ answered (1 ∷ []) 7 8 ∷ [])
      (record { fired = false; chosen = true })
      caller
      (97 ∷ [])).0
    ≡ latency (record { ping_timestamp = 7; arrival = 8 })
send_ping-latency_example =
    send_ping-latency accepts node stamp caller (97 ∷ []) (1 ∷ []) caller-IsValid ring others 7 8
      true (nonce_differs, (nonce_differs, tt)) made_ring goes_out
