-- ===== src/CommandLine/Served.antt =====
-- A node behind the dashboard of internal/web/server.go, by the adapter of cmd/p2pnode/root/root.go.
use p2ptest.Base.{
  ℕ, Str, lit, str_eq, Bool, true, Option, none, some, List, [], ◌∷◌, ◌++◌, ◌≡◌, refl, sym, ◌∙◌,
  subst, arith, done, Returns, Returns-bind, Returns-weaken, Bool-cases, Option-cases, inl, inr,
}
use p2ptest.Base.Dict.{IsVisit}
use p2ptest.Proto.{NodeInfo, HandshakeResp, Envelope}
use p2ptest.Registry.Invariant.{IsValid}
use p2ptest.Registry.Preserve.{register-IsValid}
use p2ptest.ConnPool.{Stream, Conn, close}
use p2ptest.Node.{Node, Channel, record_ping_sent, cancel_pending_ping}
use p2ptest.Node
use p2ptest.Node.Pings.{PingOp, sent, canceled, answered, step, run}
use p2ptest.Node.Peers.{disconnect_peer, disconnect_peer-IsValid}
use p2ptest.Node.Listing.{get_online_peers}
use p2ptest.Node.Listed.{get_online_peers_lem}
use p2ptest.Client.{Sender, Stamp, attempt, ping_envelope}
use p2ptest.Client.Receiving.{registry-handle_pong_received}
use p2ptest.Client.Connecting.{Stamps, Dialed}
use p2ptest.Client.Linked.{AreNamed}
use p2ptest.Services.{ok}
use p2ptest.Client.Joining.{
  Reached, unreachable, reached, rpc_failed, replied, Seeded, add_seed, all_peers,
  handshake_seed_node, join, connect_to_peer,
}
use p2ptest.Client.Meeting.{join-HasJoined}
use p2ptest.Client.Pinging.{Timer, timed_out, wait_for_pong, exchange, send_ping}
use p2ptest.CommandLine.{set_node_status}
use p2ptest.CommandLine.Adapter.{Running, Environment, node_services, next, disconnect_result}
use p2ptest.Web.{Request, Upgrader}
use p2ptest.Web.Routes.{Route}
use p2ptest.Web.Keeping.{IsKeeping, serve_all, serve_all-kept}

registry-run : (n : Node) (ops : List PingOp) → (run n ops).registry ≡ n.registry
unfolding run step record_ping_sent cancel_pending_ping
registry-run n [] = refl
registry-run n (sent nonce ∷ ops) = registry-run (record_ping_sent n nonce).1 ops
registry-run n (canceled nonce ∷ ops) = registry-run (cancel_pending_ping n nonce) ops
registry-run n (answered nonce t now ∷ ops) =
    registry-run _ ops ∙ registry-handle_pong_received n nonce t now

registry-timed_out :
    (timer : Timer) (n : Node) (addr nonce : Str)
    → (timed_out timer n addr nonce).1.registry ≡ n.registry
unfolding cancel_pending_ping
registry-timed_out timer n addr nonce = ground arith

registry-wait_for_pong :
    (timer : Timer) (n : Node) (ch : Channel) (addr nonce : Str)
    → (wait_for_pong timer n ch addr nonce).1.registry ≡ n.registry
unfolding wait_for_pong cancel_pending_ping
registry-wait_for_pong timer n ch addr nonce = ground arith

-- A ping leaves the registry.
registry-send_ping :
    (sends : Stream → Envelope → Bool) (sender : Sender) (t : Stamp) (random : Option Str)
    (meanwhile : List PingOp) (timer : Timer) (n : Node) (addr : Str)
    → (send_ping sends sender t random meanwhile timer n addr).1.registry ≡ n.registry
unfolding send_ping exchange record_ping_sent cancel_pending_ping
registry-send_ping sends sender t none meanwhile timer n addr = refl
registry-send_ping sends sender t (some nonce) meanwhile timer n addr =
    let n' : Node = (record_ping_sent n nonce).1 in
    elim (Option-cases (ping_envelope sender t nonce)) [
      | inl failed ↦ rw (failed, send_ping) refl
      | inr (env, made) ↦ elim (Bool-cases (attempt sends n'.conn_pool addr env).0) [
        | inl went ↦
            rw (made, send_ping)
              (rw went (
                registry-wait_for_pong timer (run n' meanwhile) n.next_channel addr nonce
                ∙ registry-run n' meanwhile))
        | inr refused ↦ rw (made, send_ping) (rw refused refl)
      ]
    ]

-- The peers that an answer names have an identity.
abbrev pub IsNamedAnswer : Reached HandshakeResp → Type 0
IsNamedAnswer (unreachable why) = Unit
IsNamedAnswer (reached conn (rpc_failed why)) = Unit
IsNamedAnswer (reached conn (replied resp)) = AreNamed (all_peers resp)

add_seed-IsValid :
    (t : Stamps) (n : Node) (p : Option NodeInfo)
    → IsValid n.registry
    → IsValid (add_seed t n p).registry
unfolding add_seed
add_seed-IsValid t n none v = v
add_seed-IsValid t n (some p) v = register-IsValid v (some p) t.active_at t.registered_at

abbrev seeded_with : Stamps → Node → HandshakeResp → Conn → Seeded
seeded_with t n resp conn = record {
  result = ok (all_peers resp);
  node = add_seed t n resp.peer;
  closings = close conn ∷ [];
}

-- A connection leaves a valid registry, whatever is answered.
connect_to_peer-IsValid :
    (self_addr : Str) (t : Stamps) (clock : ℕ → Stamps) (dial : ℕ → Str → Dialed) (n : Node)
    (addr : Str) (answer : Reached HandshakeResp)
    → IsNamedAnswer answer
    → IsValid n.registry
    → Returns
        (λ out. IsValid out.node.registry)
        (connect_to_peer self_addr t clock dial n addr answer)
unfolding connect_to_peer handshake_seed_node join
connect_to_peer-IsValid self_addr t clock dial n addr (unreachable why) named v = v
connect_to_peer-IsValid self_addr t clock dial n addr (reached conn (rpc_failed why)) named v = v
connect_to_peer-IsValid self_addr t clock dial n addr (reached conn (replied resp)) named v =
    elim (Bool-cases resp.accepted) [
      | inl accepted ↦
          rw (accepted, connect_to_peer)
            (Returns-weaken _ _
              (join (lit "连接 " ++ addr ++ lit " 失败: ") [] self_addr clock dial
                (seeded_with t n resp conn))
              (join-HasJoined (lit "连接 " ++ addr ++ lit " 失败: ") [] self_addr clock dial
                (seeded_with t n resp conn) (all_peers resp) refl (add_seed-IsValid t n resp.peer v)
                named)
              (λ out h. h.0))
      | inr rejected ↦ rw (rejected, connect_to_peer) v
    ]

-- What the adapter meets is as the language and the peers promise it.
pub record IsFair (e : Environment) : Type 0 where
  pub peers_once : (turn : ℕ) → IsVisit (e.peers_order turn)
  pub answers_named : (turn : ℕ) (addr : Str) → IsNamedAnswer (e.answer turn addr)

abbrev pub HasValid : Running → Type 0
HasValid s = IsValid s.node.registry

node_services-IsKeeping : {e : Environment} → IsFair e → IsKeeping HasValid (node_services e)
unfolding node_services set_node_status Node.set_node_status
node_services-IsKeeping {e} fair = record {
  lists = λ s v.
      Returns-weaken _ (λ rows. Unit)
        (get_online_peers e.clock_text (e.now s.turn) (e.peers_order s.turn) s.node)
        (get_online_peers_lem e.clock_text (e.now s.turn) s.node v (e.peers_order s.turn)
          (fair.peers_once s.turn))
        (λ rows h. tt);
  sends = λ s a content v. v;
  broadcasts = λ s content v. v;
  connects = λ s a v.
      Returns-bind (λ out. IsValid out.node.registry) (λ out. IsValid out.1.node.registry)
        (connect_to_peer e.self_addr (e.seed_stamps s.turn) (e.clock s.turn) (e.dial s.turn) s.node
          a (e.answer s.turn a))
        (λ out. done (out.error, next s out.node))
        (connect_to_peer-IsValid e.self_addr (e.seed_stamps s.turn) (e.clock s.turn) (e.dial s.turn)
          s.node a (e.answer s.turn a) (fair.answers_named s.turn a) v)
        (λ out h. h);
  disconnects = λ s name v.
      Returns-bind (λ out. IsValid out.1.registry) (λ out. IsValid out.1.node.registry)
        (disconnect_peer (e.peers_order s.turn) (e.moment s.turn) s.node name)
        (λ out. done (disconnect_result name out.0, next s out.1))
        (disconnect_peer-IsValid (e.peers_order s.turn) (e.moment s.turn) s.node name v
          (fair.peers_once s.turn))
        (λ out h. h);
  pings = λ s a v.
      subst IsValid
        (sym (
          registry-send_ping (e.sends s.turn) e.sender (e.stamps s.turn 0) (e.random s.turn)
            (e.meanwhile s.turn) (record { fired = true; chosen = e.chosen s.turn }) s.node a))
        v;
  sets = λ s name v. ground (arith, v);
}

-- A node with a valid registry behind the dashboard, where maps are visited as a map is and the peers that other nodes name have
-- identities: whatever requests come one after the other, each of them is handled without a
-- panic, and the registry stays valid.
pub node_stays-IsValid :
    (upgrade : Upgrader) (e : Environment) (s : Running) (requests : List (Request × Route))
    → IsFair e
    → IsValid s.node.registry
    → Returns (λ out. IsValid out.node.registry) (serve_all upgrade (node_services e) s requests)
node_stays-IsValid upgrade e s requests fair v =
    serve_all-kept upgrade s requests (node_services-IsKeeping fair) v
