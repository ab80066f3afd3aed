-- ===== src/Node/Beating.antt =====
-- A heartbeat of internal/node/node.go, answered by internal/membership/application/service.go.
use p2ptest.Base.{Returns, ℕ, Str, str_eq, str_beq_iff, true, some, ◌≡◌, refl, ◌∙◌, arith, ap}
use p2ptest.Base.Dict.{get-put}
use p2ptest.Proto.{NodeId, NodeInfo, HeartbeatReq}
use p2ptest.Crypto.{Ed25519, IsEd25519, Identity, public_key, sign, heartbeat_sign_data}
use p2ptest.Registry
use p2ptest.Registry.{is_online, get_last_active}
use p2ptest.ConnPool.{Conn}
use p2ptest.Membership.{Service, heartbeat, heartbeat_resp, own_status}
use p2ptest.Membership.Heartbeats.{genuine_heartbeat, heartbeat_effects}
use p2ptest.Node.{Node, is_known, heartbeat_answered}
use p2ptest.Node.Peers.{Target}
use p2ptest.Node.Remote.{Dial, conn_for, heartbeat_req, send_heartbeat_to_peer}

-- The node's own heartbeat is a genuine one.
own_heartbeat :
    (e : Ed25519) (identity : Identity) (id : NodeId) (ts now : ℕ) (s : Service)
    → IsEd25519 e
    → id.public_key ≡ public_key e identity
    → (heartbeat e now s (some (heartbeat_req e identity id ts))).0
      ≡ heartbeat_resp (own_status s) ts
unfolding heartbeat_req
own_heartbeat e identity id ts now s law own =
    ap
      (λ key.
        (heartbeat e now s (
          some (record {
            node_id = some (record { uuid = id.uuid; name = id.name; public_key = key });
            timestamp = ts;
            signature = sign e identity (heartbeat_sign_data id.uuid ts);
          }))).0)
      own
    ∙ genuine_heartbeat e now s identity id.uuid id.name ts law

answered-registry :
    (n : Node) (uuid : Str) (p : NodeInfo) (s : Service) (ts : ℕ)
    → Registry.get n.registry uuid ≡ some p
    → is_known (own_status s) ≡ true
    → Registry.get
        (heartbeat_answered n uuid (some (heartbeat_resp (own_status s) ts))).registry
        uuid
      ≡ some (record p { status = own_status s })
unfolding heartbeat_answered Registry.update_status
answered-registry n uuid p s ts on known =
    let p' : NodeInfo = record p { status = own_status s } in
    ground (arith, known, on, get-put n.registry.online_peers uuid uuid p', str_beq_iff uuid uuid)

-- A heartbeat that a node sends to a peer that it has registered, over a connection that it has or makes and that is not nil, with the key whose public
-- key it carries, to a service that knows the node and has a status: the call returns, the node then has the
-- peer's own status for it, and for the service the node was active when the heartbeat arrived.
pub heartbeat_arrives :
    (e : Ed25519) (identity : Identity) (n : Node) (s : Service) (t : Target) (dial : Dial)
    (c : Conn) (p : NodeInfo) (ts now : ℕ)
    → IsEd25519 e
    → n.node_id.public_key ≡ public_key e identity
    → (conn_for n.conn_pool t.address dial).0 ≡ some (some c)
    → Registry.get n.registry t.uuid ≡ some p
    → is_online s.registry n.node_id.uuid ≡ true
    → is_known (own_status s) ≡ true
    → let deliver = λ (req : HeartbeatReq). heartbeat e now s (some req) in
      let s' = (deliver (heartbeat_req e identity n.node_id ts)).1 in
      Returns
        (λ n'. Registry.get n'.registry t.uuid ≡ some (record p { status = own_status s }))
        (send_heartbeat_to_peer e identity ts dial (λ req. some (deliver req).0) n t)
      × (get_last_active s'.registry n.node_id.uuid ≡ some now)
unfolding send_heartbeat_to_peer heartbeat_req
heartbeat_arrives e identity n s t dial c p ts now law own reached on known_there known =
    let req : HeartbeatReq = heartbeat_req e identity n.node_id ts in
    let seen = heartbeat_effects e now s req n.node_id n.node_id.uuid refl in
    (
      rw (reached, own_heartbeat e identity n.node_id ts now s law own, send_heartbeat_to_peer)
          (answered-registry _ t.uuid p s ts on known),
      ground (arith, seen, str_beq_iff n.node_id.uuid n.node_id.uuid, known_there),
    )
