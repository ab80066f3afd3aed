-- ===== src/Membership/Effects.antt =====
-- What an accepted handshake of internal/membership/application/service.go does, and whom it trusts.
use mathlib.Core.List.{not-mem-nil}
use mathlib.Core.Option
use p2ptest.Base.{
  ltb, Str, str_eq, ◌==◌, true, false, if◌then◌else◌, is_empty, Option, some, List, [], length, ◌≡◌,
  ◌≢◌, inr, refl, sym, ◌∙◌, arith, subst, str_beq_iff, Mem, ◌∷◌,
}
use p2ptest.Proto.{NodeStatus, NodeId, NodeAddr, NodeInfo, HandshakeReq}
use p2ptest.Crypto.{Ed25519, handshake_sign_data}
use p2ptest.Notification.{new_peer_online, new_peer_discovered}
use p2ptest.Notifier
use p2ptest.Notifier.{Notifier, Callback, Delivery}
use p2ptest.Registry
use p2ptest.Registry.{Registry}
use p2ptest.Crypto.{IsEd25519, Identity, public_key, sign}
use p2ptest.Crypto.Signing.{verify-sign}
use p2ptest.Membership.{Service, Runtime, peer_addr, with_registry, accept, handshake}
use p2ptest.Base.Dict.{IsVisit}
use p2ptest.Registry.Invariant.{IsValid}
use p2ptest.Registry.Preserve.{register-IsValid}
use p2ptest.Registry.Lookup.{get-register}
use p2ptest.Registry.Stale.{IsStoredAs, mem-list}
use p2ptest.Membership.Accepting.{IsAcceptable, handshake-admit, admit-accept, accepted_iff}

nonempty_of_mem : (p : NodeInfo) (l : List NodeInfo) → Mem p l → ltb 0 (length l) ≡ true
nonempty_of_mem p [] m = absurd (not-mem-nil m)
nonempty_of_mem p (x ∷ l) m = ground arith

nonempty_of_length : (xs : Str) → length xs ≡ 32 → is_empty xs ≡ false
nonempty_of_length [] h = absurd (omega arith)
nonempty_of_length (x ∷ xs) h = refl

-- The two emissions of an accepted handshake.
abbrev pub greeted : Runtime → NodeInfo → NodeId → Notifier → Notifier
greeted rt info id n =
    let addr = peer_addr info.addrs in
    (Notifier.emit
      (Notifier.emit n rt.callbacks_order (new_peer_online id.name addr rt.emitted_at)).0
      rt.callbacks_order_again (new_peer_discovered id.name addr id.uuid rt.emitted_again_at)).0

accept_known :
    (rt : Runtime) (s : Service) (info : NodeInfo) (id : NodeId)
    → Mem info (Registry.list s.registry rt.peers_order)
    → let reply = accept rt s info id in
      (reply.service.registry ≡ s.registry)
      × (reply.resp.known_peers ≡ Registry.list s.registry rt.peers_order)
      × (reply.resp.peer ≡ s.self_info)
      × (reply.service.notifier ≡ Option.map (greeted rt info id) s.notifier)
unfolding accept
accept_known rt s info id m =
    ground (arith, nonempty_of_mem info (Registry.list s.registry rt.peers_order) m)

-- The registry after the registration of the sender.
abbrev registered : Runtime → Service → NodeInfo → Registry
registered rt s info = (Registry.register s.registry (some info) rt.active_at rt.registered_at).1

module _ (e : Ed25519) (rt : Runtime) (s : Service) (v : IsValid s.registry)
    (once : IsVisit rt.peers_order) where
  stored_sender :
      (info : NodeInfo) (id : NodeId)
      → info.id ≡ some id
      → is_empty id.uuid ≡ false
      → id.uuid ≢ s.registry.self_uuid
      → Registry.get (registered rt s info) id.uuid ≡ some info
  stored_sender info id has ne other =
      let f = get-register s.registry id info rt.active_at rt.registered_at id.uuid has ne other in
      ground (arith, f, str_beq_iff id.uuid id.uuid)

  listed_sender :
      (info : NodeInfo) (id : NodeId)
      → info.id ≡ some id
      → is_empty id.uuid ≡ false
      → id.uuid ≢ s.registry.self_uuid
      → Mem info (Registry.list (registered rt s info) rt.peers_order)
  listed_sender info id has ne other =
      (mem-list rt.peers_order info (register-IsValid v (some info) rt.active_at rt.registered_at)
          once).1
        (subst (IsStoredAs (registered rt s info) info) (sym has)
          (stored_sender info id has ne other))

  -- An acceptable handshake of another node stores the sender under its identity and nothing else
  -- under any other, answers with the service's own information and with all known peers, the
  -- sender among them, and emits that the sender is online and then that it was discovered.
  pub handshake_effects :
      {req : Option HandshakeReq} (a : IsAcceptable e req) (k : Str)
      → a.id.uuid ≢ s.registry.self_uuid
      → let reply = handshake e rt s req in
        (Registry.get reply.service.registry k
          ≡ (if a.id.uuid == k then some a.info else Registry.get s.registry k))
        × (reply.resp.peer ≡ s.self_info)
        × (reply.resp.known_peers ≡ Registry.list reply.service.registry rt.peers_order)
        × Mem a.info reply.resp.known_peers
        × (reply.service.notifier ≡ Option.map (greeted rt a.info a.id) s.notifier)
  handshake_effects {req} a k other =
      let r' : Registry = registered rt s a.info in
      let listed = listed_sender a.info a.id a.has_id a.not_empty other in
      let known = accept_known rt (with_registry s r') a.info a.id listed in
      let found =
        get-register s.registry a.id a.info rt.active_at rt.registered_at k a.has_id a.not_empty
          other in
      let path = handshake-admit e rt s a ∙ admit-accept rt s a.info a.id a.has_id a.not_empty in
      rw path (rw (known.0, known.1) (found.1, known.2, refl, listed, known.3))

  pub handshake-IsValid :
      {req : Option HandshakeReq} (a : IsAcceptable e req)
      → a.id.uuid ≢ s.registry.self_uuid
      → IsValid (handshake e rt s req).service.registry
  handshake-IsValid {req} a other =
      let listed = listed_sender a.info a.id a.has_id a.not_empty other in
      let known = accept_known rt (with_registry s (registered rt s a.info)) a.info a.id listed in
      rw (handshake-admit e rt s a ∙ admit-accept rt s a.info a.id a.has_id a.not_empty)
        (rw (known.0) (register-IsValid v (some a.info) rt.active_at rt.registered_at))

pub has_public_key :
    {e : Ed25519} → IsEd25519 e → (identity : Identity) → is_empty (public_key e identity) ≡ false
unfolding public_key
has_public_key {e} law identity =
    nonempty_of_length (e.public_of identity.private_key) (law.public_size identity.private_key)

-- Whoever holds any key can take over any identity but the node's own: a handshake for the
-- identity of another peer, signed with the attacker's key and carrying the attacker's public key,
-- is accepted, and replaces what is stored of that peer.
pub impersonation :
    (e : Ed25519) (s : Service) (rt : Runtime) (attacker : Identity) (victim name : Str)
    (addrs : List NodeAddr) (status : NodeStatus)
    → IsEd25519 e
    → IsValid s.registry
    → IsVisit rt.peers_order
    → is_empty victim ≡ false
    → victim ≢ s.registry.self_uuid
    → let id : NodeId = record { uuid = victim; name = name; public_key = public_key e attacker } in
      let info : NodeInfo = record {
        id = some id;
        addrs = addrs;
        status = status;
        last_seen = 0;
      } in
      let req : HandshakeReq = record {
        self = some info;
        proto_version = 1;
        signature = sign e attacker (handshake_sign_data victim);
      } in
      let reply = handshake e rt s (some req) in
      (reply.resp.accepted ≡ true) × (Registry.get reply.service.registry victim ≡ some info)
impersonation e s rt attacker victim name addrs status law v once ne other =
    let id : NodeId = record { uuid = victim; name = name; public_key = public_key e attacker } in
    let info : NodeInfo = record { id = some id; addrs = addrs; status = status; last_seen = 0 } in
    let req : HandshakeReq = record {
      self = some info;
      proto_version = 1;
      signature = sign e attacker (handshake_sign_data victim);
    } in
    let a : IsAcceptable e (some req) = record {
      request = req;
      info = info;
      id = id;
      the_request = refl;
      has_self = refl;
      has_id = refl;
      not_empty = ne;
      signed =
          inr (has_public_key law attacker, verify-sign law attacker (handshake_sign_data victim));
    } in
    let eff = handshake_effects e rt s v once a victim other in
    ((accepted_iff e rt s (some req)).1 a, ground (arith, eff.0, str_beq_iff victim victim))
