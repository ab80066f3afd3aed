-- ===== src/Membership/Keeping.antt =====
-- Any sequence of requests to the service of internal/membership/application/service.go.
use p2ptest.Base.{
  ℕ, Str, Option, none, some, List, [], ◌∷◌, Outcome, done, ◌>>=◌, ◌≡◌, refl, arith, Option-cases,
  Bool-cases, inl, inr, is_empty, Returns, Returns-bind, true, if◌then◌else◌, Returns-deref, str_eq,
  ◌==◌, is_some, ◌∙◌,
}
use p2ptest.Proto.{
  NodeId, NodeInfo, HandshakeReq, HeartbeatReq, DisconnectReq, NotifyNodeJoinReq,
  NotifyNodeJoinResp,
}
use p2ptest.Crypto.{Ed25519}
use p2ptest.Notification.{Notification}
use p2ptest.Notifier.{Notifier}
use p2ptest.Registry
use p2ptest.Registry.{Registry}
use p2ptest.Registry.Invariant.{IsValid, new-IsValid}
use p2ptest.Registry.Preserve.{register-IsValid, update_last_active-IsValid, unregister-IsValid}
use p2ptest.Membership.{
  Service, Runtime, Reply, new_service, handshake, accept, emit, with_registry, heartbeat,
}
use p2ptest.Membership.Leave.{
  disconnect, disconnect_id, join_request, joined, notify_node_join, join_id, join_new,
}
use p2ptest.Registry.{unregister}
use p2ptest.Membership.Accepting.{accepted_iff, rejected_unchanged, handshake-admit, admit-accept}
use p2ptest.Membership.Departures.{marked, marked-IsValid}

-- One request, as it arrives, with what its run meets.
pub data Request : Type 0 where
  handshake_with : Runtime → Option HandshakeReq → Request
  heartbeat_at : ℕ → Option HeartbeatReq → Request
  disconnect_with : Runtime → Option DisconnectReq → Request
  notify_node_join_with : Runtime → Option NotifyNodeJoinReq → Request

-- The state of the service after a request.
unfoldable pub serve : Ed25519 → Service → Request → Outcome Service
serve e s (handshake_with rt req) = done (handshake e rt s req).service
serve e s (heartbeat_at now req) = done (heartbeat e now s req).1
serve e s (disconnect_with rt req) = disconnect rt s req >>= λ reply. done reply.service
serve e s (notify_node_join_with rt req) = notify_node_join rt s req >>= λ reply. done reply.service

unfoldable pub serve_all : Ed25519 → Service → List Request → Outcome Service
unfolding serve
serve_all e s [] = done s
serve_all e s (req ∷ rest) = serve e s req >>= λ s'. serve_all e s' rest

-- The registry is valid, and the service knows its own node by the identity `self_id`.
pub record IsSound (self : NodeInfo) (s : Service) : Type 0 where
  pub valid : IsValid s.registry
  pub has_self : s.self_info ≡ some self

of_registry-IsSound :
    {self : NodeInfo} {s : Service} (s' : Service) (r : Registry)
    → IsSound self s
    → IsValid r
    → (s'.registry ≡ r) × (s'.self_info ≡ s.self_info)
    → IsSound self s'
of_registry-IsSound s' r w v same = record { valid = rw (same.0) v; has_self = same.1 ∙ w.has_self }

accept_keeps :
    (rt : Runtime) (s : Service) (info : NodeInfo) (id : NodeId)
    → ((accept rt s info id).service.registry ≡ s.registry)
      × ((accept rt s info id).service.self_info ≡ s.self_info)
unfolding accept emit
accept_keeps rt s info id = ground arith

emit_keeps :
    (s : Service) (rt : Runtime) (x : Notification)
    → ((emit s rt.callbacks_order x).0.registry ≡ s.registry)
      × ((emit s rt.callbacks_order x).0.self_info ≡ s.self_info)
unfolding emit
emit_keeps s rt x = ground arith

join_new_keeps :
    (rt : Runtime) (s : Service) (info : NodeInfo) (id : NodeId)
    → ((join_new rt s info id).service.registry
        ≡ (Registry.register s.registry (some info) rt.active_at rt.registered_at).1)
      × ((join_new rt s info id).service.self_info ≡ s.self_info)
unfolding join_new emit
join_new_keeps rt s info id = ground arith

module _ (e : Ed25519) {self : NodeInfo} {s : Service} (w : IsSound self s) where
  handshake-IsSound :
      (rt : Runtime) (req : Option HandshakeReq) → IsSound self (handshake e rt s req).service
  handshake-IsSound rt req = elim (Bool-cases (handshake e rt s req).resp.accepted) [
    | inl accepted ↦
        let a = (accepted_iff e rt s req).0 accepted in
        let s' : Service =
          with_registry s
            (Registry.register s.registry (some a.info) rt.active_at rt.registered_at).1 in
        rw (handshake-admit e rt s a ∙ admit-accept rt s a.info a.id a.has_id a.not_empty) (
          of_registry-IsSound (accept rt s' a.info a.id).service s'.registry w
            (register-IsValid w.valid (some a.info) rt.active_at rt.registered_at)
            (accept_keeps rt s' a.info a.id))
    | inr rejected ↦ rw ((rejected_unchanged e rt s req rejected).0) w
  ]

  heartbeat-IsSound : (now : ℕ) (req : Option HeartbeatReq) → IsSound self (heartbeat e now s req).1
  unfolding heartbeat
  heartbeat-IsSound now none = w
  heartbeat-IsSound now (some req) = elim (Option-cases req.node_id) [
    | inl anonymous ↦ rw anonymous w
    | inr (id, has) ↦
        rw has
          (record { valid = update_last_active-IsValid w.valid id.uuid now; has_self = w.has_self })
  ]

  disconnect_keeps :
      (rt : Runtime) (id : NodeId) (reason : Str)
      → Returns (λ reply. IsSound self reply.service) (disconnect_id rt s id reason)
  unfolding disconnect_id emit
  disconnect_keeps rt id reason =
      let r : Registry = marked s.registry id.uuid in
      Returns-bind (λ out. IsValid out.1) _ (unregister r id.uuid) _
        (unregister-IsValid (marked-IsValid w.valid id.uuid) id.uuid)
        (λ out v. elim (Bool-cases out.0) [
          | inl removed ↦
              rw removed (of_registry-IsSound _ out.1 w v (emit_keeps (with_registry s out.1) rt _))
          | inr absent ↦ rw absent (record { valid = v; has_self = w.has_self })
        ])

  disconnect-IsSound :
      (rt : Runtime) (req : Option DisconnectReq)
      → Returns (λ reply. IsSound self reply.service) (disconnect rt s req)
  unfolding disconnect
  disconnect-IsSound rt none = w
  disconnect-IsSound rt (some req) = elim (Option-cases req.node_id) [
    | inl anonymous ↦ rw anonymous w
    | inr (id, has) ↦ elim (Bool-cases (is_empty id.uuid)) [
      | inl empty ↦ rw (has, empty) w
      | inr named ↦ rw (has, named) (disconnect_keeps rt id req.reason)
    ]
  ]

  join_id_keeps :
      {self_id : NodeId} (rt : Runtime) (info : NodeInfo) (id : NodeId)
      → self.id ≡ some self_id
      → Returns (λ reply. IsSound self reply.service) (join_id rt s info id)
  unfolding join_id
  join_id_keeps {self_id} rt info id has = Returns-deref _ _ w.has_self (
      Returns-deref _ _ has (elim (Bool-cases (id.uuid == self_id.uuid)) [
        | inl same ↦ rw same w
        | inr other ↦ elim (Bool-cases (is_some (Registry.get s.registry id.uuid))) [
          | inl known ↦
              rw (other, known)
                (record {
                  valid = update_last_active-IsValid w.valid id.uuid rt.active_at;
                  has_self = w.has_self;
                })
          | inr unheard ↦
              rw (other, unheard)
                (of_registry-IsSound _ _ w
                  (register-IsValid w.valid (some info) rt.active_at rt.registered_at)
                  (join_new_keeps rt s info id))
        ]
      ]))

  join-IsSound :
      {self_id : NodeId} (rt : Runtime) (req : Option NotifyNodeJoinReq)
      → self.id ≡ some self_id
      → Returns (λ reply. IsSound self reply.service) (notify_node_join rt s req)
  unfolding notify_node_join
  join-IsSound rt req has =
      elim (join_request req)
        as (λ asked.
          Returns (λ reply. IsSound self reply.service)
            (elim asked as (λ _. Outcome (Reply NotifyNodeJoinResp)) [
              | none ↦ done (joined true s [])
              | some (info, id) ↦
                  if is_empty id.uuid then done (joined true s []) else join_id rt s info id
            ])) [
              | none ↦ w
              | some (info, id) ↦ elim (Bool-cases (is_empty id.uuid)) [
                | inl empty ↦ rw empty w
                | inr filled ↦ rw filled (join_id_keeps rt info id has)
              ]
            ]

  serve-IsSound :
      {self_id : NodeId} (request : Request)
      → self.id ≡ some self_id
      → Returns (IsSound self) (serve e s request)
  unfolding serve
  serve-IsSound (handshake_with rt req) has = handshake-IsSound rt req
  serve-IsSound (heartbeat_at now req) has = heartbeat-IsSound now req
  serve-IsSound (disconnect_with rt req) has =
      Returns-bind (λ reply. IsSound self reply.service) _ (disconnect rt s req) _
        (disconnect-IsSound rt req) (λ reply h. h)
  serve-IsSound (notify_node_join_with rt req) has =
      Returns-bind (λ reply. IsSound self reply.service) _ (notify_node_join rt s req) _
        (join-IsSound rt req has) (λ reply h. h)

served-IsSound :
    (e : Ed25519) {self : NodeInfo} {self_id : NodeId} {s : Service} (requests : List Request)
    → IsSound self s
    → self.id ≡ some self_id
    → Returns (IsSound self) (serve_all e s requests)
unfolding serve_all
served-IsSound e [] w has = w
served-IsSound e {self} {self_id} {s} (req ∷ rest) w has =
    Returns-bind (IsSound self) _ (serve e s req) _ (serve-IsSound e w req has)
      (λ s' w'. served-IsSound e rest w' has)

-- Whatever requests arrive at a new service of a node with an identity, in whatever order, none of
-- them panics, the service keeps its own information, and its registry stays valid.
pub serve_all-IsSound :
    (e : Ed25519) (self : NodeInfo) (self_id : NodeId) (n : Option Notifier)
    (requests : List Request)
    → self.id ≡ some self_id
    → Returns
        (IsSound self)
        (serve_all e (new_service (Registry.new self_id.uuid) (some self) n) requests)
unfolding new_service
serve_all-IsSound e self self_id n requests has =
    served-IsSound e requests (record { valid = new-IsValid self_id.uuid; has_self = refl }) has
