-- ===== src/Node/Told.antt =====
-- What the delivery of an announcement does to a service of internal/membership/application/service.go.
use p2ptest.Base.{
  str_beq, lit, ℕ, Str, lit, str_eq, str_beq_iff, ◌==◌, ◌||◌, Bool, true, false, is_some, is_empty,
  Option, none, some, List, [], ◌∷◌, ◌≡◌, ◌≢◌, refl, sym, ◌∙◌, arith, ap, Returns, Returns-deref,
  Bool-cases, Option-cases, inl, inr, subst,
}
use p2ptest.Base.Dict.{Visit}
use p2ptest.Proto.{NodeId, NodeInfo, NotifyNodeJoinResp}
use p2ptest.Notification.{new_peer_discovered}
use p2ptest.Notifier
use p2ptest.Notifier.{Delivery, Callback, deliveries}
use p2ptest.Registry
use p2ptest.Registry.{Registry, is_online}
use p2ptest.Registry.Lookup.{get-register}
use p2ptest.Membership.{Service, Runtime, Reply, emit}
use p2ptest.Membership.Leave.{notify_node_join, join_id, join_new}
use p2ptest.Addr.Parse.{parse_host_port}
use p2ptest.Node.Peers.{new_node_info}
use p2ptest.Node.Flood.{announcement, announced_on, IsMember, IsAbout, knows}

self_uuid-register :
    (r : Registry) (p : Option NodeInfo) (now now' : ℕ)
    → (Registry.register r p now now').1.self_uuid ≡ r.self_uuid
unfolding Registry.register Registry.enroll Registry.add_name_addr
self_uuid-register r p now now' = ground arith

join_new_lem :
    (rt : Runtime) (s : Service) (info : NodeInfo) (id : NodeId)
    → info.id ≡ some id
    → is_empty id.uuid ≡ false
    → id.uuid ≢ s.registry.self_uuid
    → (knows id.uuid (join_new rt s info id).service ≡ true)
      × ((join_new rt s info id).service.self_info ≡ s.self_info)
      × ((join_new rt s info id).service.registry.self_uuid ≡ s.registry.self_uuid)
unfolding join_new emit
join_new_lem rt s info id has ne other =
    let f = get-register s.registry id info rt.active_at rt.registered_at id.uuid has ne other in
    ground (
      arith,
      f,
      str_beq_iff id.uuid id.uuid,
      self_uuid-register s.registry (some info) rt.active_at rt.registered_at,
    )

-- What a delivery does to one service: it comes to know the node, emits only if it did not,
-- and what is announced on is about the same node.
abbrev pub IsTold : Str → Service → Reply NotifyNodeJoinResp → Type 0
IsTold u s reply =
    IsMember reply.service
    × (knows u s ≡ true → (knows u reply.service ≡ true) × (reply.calls ≡ []))
    × (knows u s ≡ false → knows u reply.service ≡ true)
    × ((info : NodeInfo) → announced_on reply.calls ≡ some info → IsAbout u info)

kept-IsMember :
    {s : Service} (s' : Service)
    → IsMember s
    → s'.self_info ≡ s.self_info
    → s'.registry.self_uuid ≡ s.registry.self_uuid
    → IsMember s'
kept-IsMember s' m e e' = record {
  self = m.self;
  self_id = m.self_id;
  has_self = e ∙ m.has_self;
  has_id = m.has_id;
  own = m.own ∙ sym e';
}

true-false : {b : Bool} → b ≡ true → b ≡ false → ⊥
true-false p q = cc

self_uuid-touched :
    (r : Registry) (u : Str) (now : ℕ)
    → ((Registry.update_last_active r u now).self_uuid ≡ r.self_uuid)
      × (is_online (Registry.update_last_active r u now) u ≡ is_online r u)
unfolding Registry.update_last_active
self_uuid-touched r u now = ground arith

to_join_id :
    (rt : Runtime) (s : Service) (info : NodeInfo) (id : NodeId)
    → info.id ≡ some id
    → is_empty id.uuid ≡ false
    → notify_node_join rt s (some (record { new_node = some info })) ≡ join_id rt s info id
unfolding notify_node_join
to_join_id rt s info id has ne = ground (arith, has, ne)

none-some : {A : Type 0} {a : A} → none ≡ some a → ⊥
none-some e = cc

some_inj : {A : Type 0} {a b : A} → some a ≡ some b → a ≡ b
some_inj e = cc

new_node_info-IsAbout :
    (address u name : Str) (info : NodeInfo)
    → new_node_info address u name ≡ some info
    → IsAbout u info
unfolding new_node_info
new_node_info-IsAbout address u name info e = elim (Bool-cases (is_empty address || is_empty u)) [
  | inl nothing ↦ absurd (none-some (rw (nothing, new_node_info) at e))
  | inr filled ↦ elim (Option-cases (parse_host_port address)) [
    | inl malformed ↦ absurd (none-some (rw (malformed, filled, new_node_info) at e))
    | inr (found, parsed) ↦
        subst (IsAbout u) (some_inj (rw (parsed, filled, new_node_info) at e))
          (record { id = _; has_id = refl; same = refl })
  ]
]

silent : (u : Str) (info : NodeInfo) → announced_on [] ≡ some info → IsAbout u info
unfolding announced_on
silent u info e = absurd (none-some e)

deliveries-IsAbout :
    (name addr u : Str) (now : ℕ) (calls : List (ℕ × Callback)) (info : NodeInfo)
    → announced_on (deliveries (new_peer_discovered name addr u now) calls) ≡ some info
    → IsAbout u info
unfolding announced_on deliveries announcement new_peer_discovered str_beq lit
deliveries-IsAbout name addr u now [] info e = absurd (none-some e)
deliveries-IsAbout name addr u now (c ∷ calls) info e = new_node_info-IsAbout addr u name info e

emit-IsAbout :
    (s : Service) (visit : Visit (ℕ × Callback)) (name addr u : Str) (now : ℕ) (info : NodeInfo)
    → announced_on (emit s visit (new_peer_discovered name addr u now)).1 ≡ some info
    → IsAbout u info
unfolding emit Notifier.emit
emit-IsAbout s visit name addr u now info e = elim (Option-cases s.notifier) [
  | inl without ↦ silent u info (rw without at e)
  | inr (n, has) ↦ deliveries-IsAbout name addr u now _ info (rw has at e)
]

join_new-IsAbout :
    (rt : Runtime) (s : Service) (info : NodeInfo) (id : NodeId) (info' : NodeInfo)
    → announced_on (join_new rt s info id).calls ≡ some info'
    → IsAbout id.uuid info'
unfolding join_new
join_new-IsAbout rt s info id info' e =
    elim (Option-cases (Registry.register s.registry (some info) rt.active_at rt.registered_at).0) [
      | inl registered ↦
          emit-IsAbout _ rt.callbacks_order id.name _ id.uuid rt.emitted_at info'
            (rw (registered, join_new) at e)
      | inr (err, failed) ↦ silent id.uuid info' (rw (failed, join_new) at e)
    ]

module _ (u : Str) (named : is_empty u ≡ false) where
  join_id-IsTold :
      (rt : Runtime) (s : Service) (info : NodeInfo) (id : NodeId)
      → IsMember s
      → info.id ≡ some id
      → id.uuid ≡ u
      → Returns (IsTold u s) (join_id rt s info id)
  unfolding join_id
  join_id-IsTold rt s info id m has same = Returns-deref _ _ m.has_self (
      Returns-deref _ _ m.has_id (elim (Bool-cases (id.uuid == m.self_id.uuid)) [
        | inl own ↦
            let is_own : knows u s ≡ true = ground (
              arith,
              str_beq_iff id.uuid m.self_id.uuid,
              own,
              same,
              m.own,
              str_beq_iff u s.registry.self_uuid,
            ) in
            rw own (m, λ e. (is_own, refl), λ e. absurd (true-false is_own e), silent u)
        | inr other ↦ elim (Bool-cases (is_some (Registry.get s.registry id.uuid))) [
          | inl online ↦
              let touched = self_uuid-touched s.registry id.uuid rt.active_at in
              let is_known : knows u s ≡ true = ground (arith, online, same) in
              rw (other, online)
                (
                  kept-IsMember _ m refl touched.0,
                  λ e. (ground (arith, online, same, touched.1), refl),
                  λ e. absurd (true-false is_known e),
                  silent u,
                )
          | inr unheard ↦
              let not_own : id.uuid ≢ s.registry.self_uuid =
                λ e. true-false ((str_beq_iff id.uuid m.self_id.uuid).1 (e ∙ sym m.own)) other in
              let new = join_new_lem rt s info id has (ap is_empty same ∙ named) not_own in
              let is_new : knows u s ≡ false =
                ground (arith, unheard, same, not_own, str_beq_iff u s.registry.self_uuid) in
              rw (other, unheard)
                (
                  kept-IsMember _ m new.1 new.2,
                  λ e. absurd (true-false e is_new),
                  λ e. subst (λ k. knows k (join_new rt s info id).service ≡ true) same new.0,
                  λ info' e.
                      subst (λ v. IsAbout v info') same (join_new-IsAbout rt s info id info' e),
                )
        ]
      ]))

  pub notify_node_join-IsTold :
      (rt : Runtime) (s : Service) (info : NodeInfo)
      → IsMember s
      → IsAbout u info
      → Returns (IsTold u s) (notify_node_join rt s (some (record { new_node = some info })))
  notify_node_join-IsTold rt s info m about =
      subst (λ o. Returns (IsTold u s) o)
        (sym (to_join_id rt s info about.id about.has_id (ap is_empty about.same ∙ named)))
        (join_id-IsTold rt s info about.id m about.has_id about.same)
