-- ===== src/Node/Flood.antt =====
-- How the announcement of a new node spreads: internal/membership/application/service.go registers it and emits the
-- discovery, and internal/node/node.go then announces the node to its peers in turn.
use p2ptest.Base.{
  ℕ, zero, suc, ◌+◌, Str, lit, str_eq, ◌==◌, ◌||◌, Bool, if◌then◌else◌, Option, none, some, List,
  [], ◌∷◌, ◌++◌, ◌≡◌, Outcome, done, ◌>>=◌,
}
use p2ptest.Proto.{NodeId, NodeInfo}
use p2ptest.Notification.{
  NotificationType, message_received, peer_online, peer_offline, peer_discovered, zero_type,
  unmarshal, field,
}
use p2ptest.Notifier.{Delivery}
use p2ptest.Registry.{is_online}
use p2ptest.Membership.{Service, Runtime}
use p2ptest.Membership.Leave.{notify_node_join}
use p2ptest.Node.Peers.{new_node_info}

-- An announcement, and the place of the service that it goes to.
pub record Message : Type 0 where
  pub place : ℕ
  pub info : NodeInfo

-- What `broadcastNodeJoin` announces: nothing where the payload is not readable.
unfoldable pub announcement : NotificationType → Option (List (Str × Str)) → Option NodeInfo
unfolding field
announcement peer_discovered (some fields) =
    new_node_info (field fields (lit "addr")) (field fields (lit "uuid"))
      (field fields (lit "name"))
announcement peer_discovered none = none
announcement message_received fields = none
announcement peer_online fields = none
announcement peer_offline fields = none
announcement zero_type fields = none

-- What the node announces on, whose service has made these calls of callbacks for one notification. The
-- callback that `Start` subscribes is one of them.
unfoldable pub announced_on : List Delivery → Option NodeInfo
unfolding announcement
announced_on [] = none
announced_on (c ∷ calls) = announcement c.notification.kind (unmarshal c.notification.payload)

-- The delivery to the service at a place: what is announced on, and the services. A message to a
-- place where there is none is lost.
unfoldable pub deliver :
    Runtime → ℕ → NodeInfo → List Service → Outcome (Option NodeInfo × List Service)
unfolding announced_on
deliver rt i info [] = done (none, [])
deliver rt zero info (s ∷ rest) =
    notify_node_join rt s (some (record { new_node = some info })) >>= λ reply.
    done (announced_on reply.calls, reply.service ∷ rest)
deliver rt (suc i) info (s ∷ rest) = deliver rt i info rest >>= λ out. done (out.0, s ∷ out.1)

abbrev pub to_places : Option NodeInfo → List ℕ → List Message
to_places none places = []
to_places (some info) [] = []
to_places (some info) (i ∷ places) =
    record { place = i; info = info } ∷ to_places (some info) places

-- The deliveries one after the other, as many as `fuel`. `places` are those that the node of a delivery
-- then announces to: they are free, as they hang on the registry of that node at that time.
unfoldable pub flood :
    (ℕ → Runtime)
    → (ℕ → List ℕ)
    → ℕ
    → List Message
    → List Service
    → Outcome (List Message × List Service)
unfolding deliver
flood rt places zero queue services = done (queue, services)
flood rt places (suc fuel) [] services = done ([], services)
flood rt places (suc fuel) (m ∷ queue) services =
    deliver (rt fuel) m.place m.info services >>= λ out.
    flood rt places fuel (queue ++ to_places out.0 (places fuel)) out.1

-- The service knows its own node, by the identity of its registry.
pub record IsMember (s : Service) : Type 0 where
  pub self : NodeInfo
  pub self_id : NodeId
  pub has_self : s.self_info ≡ some self
  pub has_id : self.id ≡ some self_id
  pub own : self_id.uuid ≡ s.registry.self_uuid

abbrev pub AreMembers : List Service → Type 0
AreMembers [] = Unit
AreMembers (s ∷ rest) = IsMember s × AreMembers rest

-- The announcement is about the node with this identity.
pub record IsAbout (u : Str) (info : NodeInfo) : Type 0 where
  pub id : NodeId
  pub has_id : info.id ≡ some id
  pub same : id.uuid ≡ u

abbrev pub knows : Str → Service → Bool
knows u s = is_online s.registry u || (u == s.registry.self_uuid)

-- `k` for each service that does not know it.
abbrev pub unaware : ℕ → Str → List Service → ℕ
unaware k u [] = 0
unaware k u (s ∷ rest) = (if knows u s then 0 else k) + unaware k u rest
