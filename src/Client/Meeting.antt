-- ===== src/Client/Meeting.antt =====
-- A node that joins by `HandshakeSeedNode` and `HandshakeAndConnect` of internal/client/client.go, and the
-- Membership service of internal/membership/application/service.go that answers it.
use mathlib.Core.List.{mem-cons}
use mathlib.Core.Logic.Or
use p2ptest.Base.{
  ℕ, Str, str_eq, str_beq_iff, true, false, is_some, is_empty, none, some, List, [], ◌∷◌, ◌++◌, ◌≡◌,
  ◌≢◌, refl, sym, ap, ◌∙◌, arith, inr, Mem, Returns, Returns-bind, subst,
}
use p2ptest.Base.Dict.{Visit, IsVisit}
use p2ptest.Proto.{NodeId, NodeInfo, online, HandshakeResp}
use p2ptest.Crypto.{handshake_sign_data}
use p2ptest.Crypto.Signing.{verify-sign}
use p2ptest.Registry
use p2ptest.Registry.{Registry, values}
use p2ptest.Registry.Invariant.{IsValid}
use p2ptest.Registry.Preserve.{register-IsValid}
use p2ptest.Registry.Lookup.{get-register}
use p2ptest.Registry.ByName.{visited_sound}
use p2ptest.Membership.{Service, Runtime, Reply, handshake}
use p2ptest.Membership.Accepting.{IsAcceptable, accepted_iff}
use p2ptest.Membership.Effects.{handshake_effects, handshake-IsValid, has_public_key}
use p2ptest.ConnPool.{Conn}
use p2ptest.Node.{Node}
use p2ptest.Client.{Sender, build_handshake_req}
use p2ptest.Client.Sending.{IsGenuine}
use p2ptest.Client.Connecting.{Stamps, Dialed, connect_to_peers}
use p2ptest.Client.Linked.{AreNamed, AreLinked, connect_to_peers-IsConnected}
use p2ptest.Services.{ok}
use p2ptest.Client.Joining.{
  replied, reached, Seeded, Attempt, add_seed, handshake_seed_node, peers_error,
  handshake_and_connect, join, prefixed,
}

-- What a node says of itself in its handshake.
abbrev pub self_of : Sender → NodeInfo
self_of n = record {
  id = some n.node_id;
  addrs = record { ip = n.cfg.listen_ip; port = n.cfg.listen_port } ∷ [];
  status = online;
  last_seen = 0;
}

-- The handshake of a genuine node is acceptable.
acceptable_of :
    {n : Sender}
    → IsGenuine n
    → is_empty n.node_id.uuid ≡ false
    → IsAcceptable n.ed25519 (some (build_handshake_req n))
unfolding build_handshake_req
acceptable_of {n} g ne = record {
  request = build_handshake_req n;
  info = self_of n;
  id = n.node_id;
  the_request = refl;
  has_self = refl;
  has_id = refl;
  not_empty = ne;
  signed = inr (
    rw (g.own_key) (has_public_key g.law n.identity),
    rw (g.own_key) (verify-sign g.law n.identity (handshake_sign_data n.node_id.uuid)),
  );
}

-- A node and a service that may meet: the node is genuine, both registries are valid, the service
-- knows its own node, and neither of the two identities is empty or the other's own.
pub record AreStrangers (n : Sender) (a : Node) (s : Service) (rt : Runtime) : Type 0 where
  pub genuine : IsGenuine n
  pub guest_valid : IsValid a.registry
  pub host_valid : IsValid s.registry
  pub once : IsVisit rt.peers_order
  pub guest_named : is_empty n.node_id.uuid ≡ false
  pub guest_other : n.node_id.uuid ≢ s.registry.self_uuid
  pub host : NodeInfo
  pub host_id : NodeId
  pub self_info : s.self_info ≡ some host
  pub has_id : host.id ≡ some host_id
  pub host_named : is_empty host_id.uuid ≡ false
  pub host_other : host_id.uuid ≢ a.registry.self_uuid

-- The answer to the node's handshake.
abbrev pub answer : Sender → Service → Runtime → Reply HandshakeResp
answer n s rt = handshake n.ed25519 rt s (some (build_handshake_req n))

values-AreNamed :
    {r : Registry} (l : List (Str × NodeInfo))
    → IsValid r
    → ((k : Str) (p : NodeInfo) → Mem (k, p) l → Registry.get r k ≡ some p)
    → AreNamed (values l)
unfolding values
values-AreNamed [] v from = tt
values-AreNamed ((k, p) ∷ l) v from = (
  ap is_some (v.entry k p (from k p (mem-cons.1 (Or.inl refl)))).has_id,
  values-AreNamed l v (λ j q m. from j q (mem-cons.1 (Or.inr m))),
)

append-AreNamed :
    (l : List NodeInfo) (p : NodeInfo) → AreNamed l → is_some p.id ≡ true → AreNamed (l ++ p ∷ [])
append-AreNamed [] p named h = (h, tt)
append-AreNamed (x ∷ l) p named h = (named.0, append-AreNamed l p named.1 h)

handshake_seed_node-replied :
    (t : Stamps) (a : Node) (seed : Str) (conn : Conn) (resp : HandshakeResp) (host : NodeInfo)
    → resp.accepted ≡ true
    → resp.peer ≡ some host
    → let out = handshake_seed_node t a seed (reached conn (replied resp)) in
      (out.result ≡ ok (resp.known_peers ++ host ∷ [])) × (out.node ≡ add_seed t a (some host))
unfolding handshake_seed_node
handshake_seed_node-replied t a seed conn resp host accepted peer = ground (arith, accepted, peer)

-- The service's own node is in its answer.
answer_peer :
    {n : Sender} {a : Node} {s : Service} {rt : Runtime} (st : AreStrangers n a s rt)
    → (answer n s rt).resp.peer ≡ some st.host
unfolding acceptable_of
answer_peer {n} {s} {rt} st =
    (handshake_effects n.ed25519 rt s st.host_valid st.once
      (acceptable_of st.genuine st.guest_named) n.node_id.uuid st.guest_other).1
    ∙ st.self_info

module _ {n : Sender} {a : Node} {s : Service} {rt : Runtime} (st : AreStrangers n a s rt)
    (t : Stamps) (seed : Str) (conn : Conn) where
  -- When a genuine node shakes hands with the Membership service of another one: the handshake is
  -- accepted, each of the two is stored in the registry of the other, and the node gets the peers that
  -- the service knows, itself among them, and the service's own node.
  pub meeting :
      let reply = answer n s rt in
      let out = handshake_seed_node t a seed (reached conn (replied reply.resp)) in
      (out.result ≡ ok (reply.resp.known_peers ++ st.host ∷ []))
      × Mem (self_of n) reply.resp.known_peers
      × (Registry.get out.node.registry st.host_id.uuid ≡ some st.host)
      × (Registry.get reply.service.registry n.node_id.uuid ≡ some (self_of n))
  unfolding add_seed acceptable_of
  meeting =
      let acceptable = acceptable_of st.genuine st.guest_named in
      let eff =
        handshake_effects n.ed25519 rt s st.host_valid st.once acceptable n.node_id.uuid
          st.guest_other in
      let accepted = (accepted_iff n.ed25519 rt s (some (build_handshake_req n))).1 acceptable in
      let read =
        handshake_seed_node-replied t a seed conn (answer n s rt).resp st.host accepted
          (answer_peer st) in
      let stored =
        get-register a.registry st.host_id st.host t.active_at t.registered_at st.host_id.uuid
          st.has_id st.host_named st.host_other in
      (
        read.0,
        eff.3,
        rw (read.1) (ground (arith, stored, str_beq_iff st.host_id.uuid st.host_id.uuid)),
        ground (arith, eff.0, str_beq_iff n.node_id.uuid n.node_id.uuid),
      )

-- What is promised of an attempt to join the peers.
abbrev pub HasJoined : Str → List NodeInfo → Attempt → Type 0
HasJoined self_addr peers out =
    IsValid out.node.registry × (out.error ≡ none → AreLinked self_addr out.node peers)

no_error : (at_peers err_msg : Str) → prefixed at_peers (peers_error err_msg) ≡ none → err_msg ≡ []
unfolding peers_error
no_error at_peers [] h = refl
no_error at_peers (c ∷ rest) h = cc

pub join-HasJoined :
    (at_seed at_peers self_addr : Str) (clock : ℕ → Stamps) (dial : ℕ → Str → Dialed) (s : Seeded)
    (peers : List NodeInfo)
    → s.result ≡ ok peers
    → IsValid s.node.registry
    → AreNamed peers
    → Returns (HasJoined self_addr peers) (join at_seed at_peers self_addr clock dial s)
unfolding join
join-HasJoined at_seed at_peers self_addr clock dial s peers got v named =
    rw (got, join)
      (Returns-bind _ _ (connect_to_peers self_addr clock dial s.node peers) _
        (connect_to_peers-IsConnected self_addr clock dial s.node peers v named)
        (λ p h. (h.0, λ e. (h.2 (no_error at_peers p.err_msg e)).1)))

list-AreNamed :
    {r : Registry} (visit : Visit (Str × NodeInfo))
    → IsValid r
    → IsVisit visit
    → AreNamed (Registry.list r visit)
unfolding Registry.list
list-AreNamed visit v once = values-AreNamed _ v (λ k p m. visited_sound v visit once k p m)

module _ {n : Sender} {a : Node} {s : Service} {rt : Runtime} (st : AreStrangers n a s rt)
    (t : Stamps) (seed : Str) (conn : Conn) where
  answer-AreNamed : AreNamed ((answer n s rt).resp.known_peers ++ st.host ∷ [])
  unfolding acceptable_of
  answer-AreNamed =
      let acceptable = acceptable_of st.genuine st.guest_named in
      let eff =
        handshake_effects n.ed25519 rt s st.host_valid st.once acceptable n.node_id.uuid
          st.guest_other in
      let v = handshake-IsValid n.ed25519 rt s st.host_valid st.once acceptable st.guest_other in
      append-AreNamed _ st.host
        (subst AreNamed (sym (eff.2)) (list-AreNamed rt.peers_order v st.once))
        (ap is_some st.has_id)

  -- When such a node joins by `HandshakeAndConnect`, whatever the dialling of the peers returns: the call
  -- returns, the node's registry stays valid, and if no error is returned, then each peer that the service
  -- knew, and the service's own node, is the node itself, by its address or its identity, or there
  -- is a stream to its address.
  pub joining :
      (self_addr : Str) (clock : ℕ → Stamps) (dial : ℕ → Str → Dialed)
      → let reply = answer n s rt in
        Returns
          (HasJoined self_addr (reply.resp.known_peers ++ st.host ∷ []))
          (handshake_and_connect self_addr t clock dial a seed (reached conn (replied reply.resp)))
  unfolding handshake_and_connect add_seed
  joining self_addr clock dial =
      let reply = answer n s rt in
      let out = handshake_seed_node t a seed (reached conn (replied reply.resp)) in
      let acceptable = acceptable_of st.genuine st.guest_named in
      let read =
        handshake_seed_node-replied t a seed conn reply.resp st.host
          ((accepted_iff n.ed25519 rt s _).1 acceptable) (answer_peer st) in
      join-HasJoined _ _ self_addr clock dial out (reply.resp.known_peers ++ st.host ∷ []) (read.0)
        (rw (read.1) (register-IsValid st.guest_valid (some st.host) t.active_at t.registered_at))
        answer-AreNamed
