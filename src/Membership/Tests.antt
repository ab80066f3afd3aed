-- ===== src/Membership/Tests.antt =====
-- The theorems about the Membership service at a concrete service, and runs of its handlers.
use mathlib.Core.Option
use p2ptest.Base.{
  str_eq, str_beq, true, false, if◌then◌else◌, none, some, List, [], ◌∷◌, ◌≡◌, ◌↔◌, refl, inl, Mem,
  arith, Returns,
}
use p2ptest.Proto.{NodeId, NodeInfo, HandshakeReq, HeartbeatReq, online, unknown}
use p2ptest.Crypto.{public_key, sign, verify, handshake_sign_data, heartbeat_sign_data}
use p2ptest.Crypto.Tests.{toy, toy-IsEd25519, alice_key}
use p2ptest.Notifier
use p2ptest.Registry
use p2ptest.Registry.{get, get_last_active, get_stale, is_online}
use p2ptest.Registry.Tests.{
  self_uuid, alice_id, alice, one, one-IsValid, one_online, one_not_self, same_order,
  same_order-IsVisit,
}
use p2ptest.Membership.{Service, Runtime, new_service, handshake, heartbeat}
use p2ptest.Membership.Accepting.{IsAcceptable, accepted_iff, rejected_unchanged}
use p2ptest.Membership.Effects.{greeted, handshake_effects, impersonation}
use p2ptest.Membership.Heartbeats.{forged_heartbeat_refreshes}
use p2ptest.Membership.Leave.{disconnect}
use p2ptest.Membership.Departures.{HasParted, disconnect_effects}
use p2ptest.Membership.Keeping.{
  Request, IsSound, serve_all, serve_all-IsSound, handshake_with, disconnect_with,
  notify_node_join_with, heartbeat_at,
}

abbrev self_id : NodeId
self_id = record { uuid = self_uuid; name = 83 ∷ []; public_key = [] }

abbrev self_node : NodeInfo
self_node = record { id = some self_id; addrs = []; status = online; last_seen = 0 }

abbrev rt : Runtime
rt = record {
  active_at = 10;
  registered_at = 11;
  emitted_at = 12;
  emitted_again_at = 13;
  peers_order = same_order;
  callbacks_order = same_order;
  callbacks_order_again = same_order;
}

-- The service that knows one peer.
abbrev home : Service
home = record {
  registry = one;
  self_info = some self_node;
  notifier = some (Notifier.new 100);
  status_getter = some (λ s. online);
}

abbrev ask : HandshakeReq
ask = record { self = some alice; proto_version = 1; signature = [] }

abbrev ask-IsAcceptable : IsAcceptable toy (some ask)
ask-IsAcceptable = record {
  request = ask;
  info = alice;
  id = alice_id;
  the_request = refl;
  has_self = refl;
  has_id = refl;
  not_empty = refl;
  signed = inl refl;
}

accepted_iff_example :
    ((handshake toy rt home (some ask)).resp.accepted ≡ true) ↔ IsAcceptable toy (some ask)
accepted_iff_example = accepted_iff toy rt home (some ask)

refused : (handshake toy rt home none).resp.accepted ≡ false
unfolding handshake
refused = refl

rejected_unchanged_example :
    ((handshake toy rt home none).service ≡ home) × ((handshake toy rt home none).calls ≡ [])
rejected_unchanged_example = rejected_unchanged toy rt home none refused

handshake_effects_example :
    let reply = handshake toy rt home (some ask) in
    (get reply.service.registry (97 ∷ [])
      ≡ (if str_beq (97 ∷ []) (97 ∷ []) then some alice else get one (97 ∷ [])))
    × (reply.resp.peer ≡ some self_node)
    × (reply.resp.known_peers ≡ Registry.list reply.service.registry same_order)
    × Mem alice reply.resp.known_peers
    × (reply.service.notifier ≡ Option.map (greeted rt alice alice_id) home.notifier)
handshake_effects_example =
    handshake_effects toy rt home one-IsValid same_order-IsVisit ask-IsAcceptable (97 ∷ [])
      one_not_self

impersonation_example :
    let id : NodeId = record {
      uuid = 97 ∷ [];
      name = 65 ∷ [];
      public_key = public_key toy alice_key;
    } in
    let info : NodeInfo = record { id = some id; addrs = []; status = online; last_seen = 0 } in
    let req : HandshakeReq = record {
      self = some info;
      proto_version = 1;
      signature = sign toy alice_key (handshake_sign_data (97 ∷ []));
    } in
    let reply = handshake toy rt home (some req) in
    (reply.resp.accepted ≡ true) × (get reply.service.registry (97 ∷ []) ≡ some info)
impersonation_example =
    impersonation toy home rt alice_key (97 ∷ []) (65 ∷ []) [] online toy-IsEd25519 one-IsValid
      same_order-IsVisit refl one_not_self

-- A heartbeat of alice with a signature that is too short.
abbrev forged : HeartbeatReq
forged = record { node_id = some alice_id; timestamp = 7; signature = 1 ∷ [] }

not_genuine : verify toy alice_id.public_key (heartbeat_sign_data alice_id.uuid 7) (1 ∷ []) ≡ false
unfolding verify
not_genuine = refl

forged_heartbeat_refreshes_example :
    ((heartbeat toy 20 home (some forged)).0.status ≡ unknown)
    × (get_last_active (heartbeat toy 20 home (some forged)).1.registry (97 ∷ []) ≡ some 20)
    × ¬ (
        Mem (97 ∷ []) (get_stale (heartbeat toy 20 home (some forged)).1.registry same_order 40 30))
forged_heartbeat_refreshes_example =
    forged_heartbeat_refreshes toy 20 home forged alice_id same_order 40 30 one-IsValid
      same_order-IsVisit refl refl not_genuine one_online (omega arith)

disconnect_effects_example :
    Returns
      (HasParted rt home alice_id [] (97 ∷ []))
      (disconnect rt home (some (record { node_id = some alice_id; reason = [] })))
disconnect_effects_example =
    disconnect_effects rt home (record { node_id = some alice_id; reason = [] }) alice_id (97 ∷ [])
      one-IsValid refl refl

-- A service that knows no peer.
abbrev lonely : Service
lonely = record {
  registry = Registry.new self_uuid;
  self_info = some self_node;
  notifier = some (Notifier.new 100);
  status_getter = some (λ s. online);
}

abbrev session : List Request
session =
    handshake_with rt (some ask)
    ∷ heartbeat_at 20 (some forged)
    ∷ notify_node_join_with rt (some (record { new_node = some alice }))
    ∷ disconnect_with rt (some (record { node_id = some alice_id; reason = [] }))
    ∷ []

serve_all-IsSound_example : Returns (IsSound self_node) (
    serve_all toy
      (new_service (Registry.new self_uuid) (some self_node) (some (Notifier.new 100)))
      session)
serve_all-IsSound_example =
    serve_all-IsSound toy self_node self_id (some (Notifier.new 100)) session refl
