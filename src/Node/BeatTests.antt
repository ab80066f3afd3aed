-- ===== src/Node/BeatTests.antt =====
-- The theorems about heartbeats between two nodes, and about the loops of a node, at concrete nodes.
use p2ptest.Base.{arith, Returns, List, lit, some, none, [], ◌∷◌, ◌≡◌, refl, str_eq}
use p2ptest.Base.Dict
use p2ptest.Proto.{HeartbeatReq, busy}
use p2ptest.Crypto.{public_key}
use p2ptest.Crypto.Tests.{toy, toy-IsEd25519, alice_key}
use p2ptest.Registry
use p2ptest.Registry.{get_last_active}
use p2ptest.Registry.Tests.{
  alice, one, one-IsValid, one_online, get-one, same_order, same_order-IsVisit,
}
use p2ptest.ConnPool
use p2ptest.Membership.{Service, heartbeat, own_status}
use p2ptest.Node.{Node}
use p2ptest.Node.Tests
use p2ptest.Node.Peers.{Target}
use p2ptest.Node.Remote.{conn_for, heartbeat_req, send_heartbeat_to_peer}
use p2ptest.Node.Loops.{
  Event, beat, send, gossip, close_stop, clean, beat_returns, clean_returns, gossip_returns,
  started, run_loops,
}
use p2ptest.Node.Pooled.{IsLive}
use p2ptest.Node.Running.{run_loops-IsLive}
use p2ptest.Node.Beating.{heartbeat_arrives}

abbrev sender : Node
sender = record Tests.node {
  node_id = record { uuid = 97 ∷ []; name = 65 ∷ []; public_key = public_key toy alice_key };
}

abbrev service : Service
service = record {
  registry = one;
  self_info = none;
  notifier = none;
  status_getter = some (λ s. busy);
}

abbrev peer : Target
peer = record { address = lit "1:1"; uuid = 97 ∷ [] }

dials : (conn_for sender.conn_pool peer.address (some 7)).0 ≡ some (some 7)
unfolding conn_for ConnPool.new ConnPool.get_conn Dict.get Dict.empty Dict.lookup
dials = refl

heartbeat_arrives_example :
    let deliver = λ (req : HeartbeatReq). heartbeat toy 9 service (some req) in
    let s' = (deliver (heartbeat_req toy alice_key sender.node_id 5)).1 in
    Returns
      (λ n'.
        Registry.get n'.registry (97 ∷ []) ≡ some (record alice { status = own_status service }))
      (send_heartbeat_to_peer toy alice_key 5 (some 7) (λ req. some (deliver req).0) sender peer)
    × (get_last_active s'.registry (97 ∷ []) ≡ some 9)
heartbeat_arrives_example =
    heartbeat_arrives toy alice_key sender service peer (some 7) 7 alice 5 9 toy-IsEd25519 refl
      dials get-one one_online refl

abbrev events : List Event
events =
    beat same_order
    ∷ send toy alice_key 5 (some 7) (λ req. some (record { status = busy; timestamp = 6 })) 0
    ∷ gossip (λ i. same_order) same_order 7 (λ addr. some (alice ∷ []))
    ∷ close_stop
    ∷ clean same_order 60000000000 (λ uuid. record { emitted_at = 8; callbacks_order = same_order })
    ∷ beat_returns
    ∷ clean_returns
    ∷ gossip_returns
    ∷ beat same_order
    ∷ []

live : IsLive Tests.node
unfolding ConnPool.new ConnPool.get_conn Dict.get Dict.empty Dict.lookup
live = (one-IsValid, λ addr e. cc)

run_loops-IsLive_example : Returns (λ s. IsLive s.node) (run_loops (started Tests.node) events)
run_loops-IsLive_example =
    run_loops-IsLive events Tests.node live
      (
        same_order-IsVisit,
        (tt, (tt, (tt, (same_order-IsVisit, (tt, (tt, (tt, (same_order-IsVisit, tt)))))))),
      )
      (omega arith)
