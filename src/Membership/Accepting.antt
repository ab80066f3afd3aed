-- ===== src/Membership/Accepting.antt =====
-- Which handshakes internal/membership/application/service.go accepts.
use p2ptest.Base.{
  ℕ, str_eq, Bool, true, false, is_empty, Option, none, some, [], ◌≡◌, ◌↔◌, ◌⊎◌, inl, inr, refl, ap,
  ◌∙◌, arith, Option-cases, Bool-cases,
}
use p2ptest.Proto.{NodeId, NodeInfo, HandshakeReq, HandshakeResp}
use p2ptest.Crypto.{Ed25519, verify, handshake_sign_data}
use p2ptest.Registry
use p2ptest.Registry.{Registry}
use p2ptest.Membership.{
  Service, Runtime, Reply, with_registry, accept, admit, check_handshake, handshake,
}

-- The request names its sender, and its signature, if it has one, verifies under the public key
-- that the request itself carries.
pub record IsAcceptable (e : Ed25519) (req : Option HandshakeReq) : Type 0 where
  pub request : HandshakeReq
  pub info : NodeInfo
  pub id : NodeId
  pub the_request : req ≡ some request
  pub has_self : request.self ≡ some info
  pub has_id : info.id ≡ some id
  pub not_empty : is_empty id.uuid ≡ false
  pub signed :
      (is_empty request.signature ≡ true)
      ⊎ ((is_empty id.public_key ≡ false)
          × (verify e id.public_key (handshake_sign_data id.uuid) request.signature ≡ true))

true_and_false : {b : Bool} → b ≡ true → b ≡ false → ⊥
true_and_false p q = cc

-- A registration of a named peer makes no error.
register_no_error :
    (r : Registry) (info : NodeInfo) (id : NodeId) (now now' : ℕ)
    → info.id ≡ some id
    → is_empty id.uuid ≡ false
    → (Registry.register r (some info) now now').0 ≡ none
unfolding Registry.register
register_no_error r info id now now' has ne = ground (arith, has, ne)

accepted-accept :
    (rt : Runtime) (s : Service) (info : NodeInfo) (id : NodeId)
    → (accept rt s info id).resp.accepted ≡ true
unfolding accept
accepted-accept rt s info id = ground arith

pub admit-accept :
    (rt : Runtime) (s : Service) (info : NodeInfo) (id : NodeId)
    → info.id ≡ some id
    → is_empty id.uuid ≡ false
    → admit rt s info id
      ≡ accept rt
          (with_registry s
            (Registry.register s.registry (some info) rt.active_at rt.registered_at).1)
          info
          id
unfolding admit
admit-accept rt s info id has ne =
    ground (arith, register_no_error s.registry info id rt.active_at rt.registered_at has ne)

accepted-admit :
    (rt : Runtime) (s : Service) (info : NodeInfo) (id : NodeId)
    → info.id ≡ some id
    → is_empty id.uuid ≡ false
    → (admit rt s info id).resp.accepted ≡ true
accepted-admit rt s info id has ne =
    ap (λ (r : Reply HandshakeResp). r.resp.accepted) (admit-accept rt s info id has ne)
    ∙ accepted-accept rt _ info id

module _ (e : Ed25519) (rt : Runtime) (s : Service) where
  -- An acceptable request goes through to its registration.
  pub handshake-admit :
      {req : Option HandshakeReq} (a : IsAcceptable e req)
      → handshake e rt s req ≡ admit rt s a.info a.id
  unfolding handshake
  handshake-admit {req} a =
      ground (arith, a.the_request, a.has_self, a.has_id, a.not_empty, a.signed)

  signed_of_accepted :
      (req : HandshakeReq) (info : NodeInfo) (id : NodeId)
      → (check_handshake e rt s req info id).resp.accepted ≡ true
      → (is_empty req.signature ≡ true)
        ⊎ ((is_empty id.public_key ≡ false)
            × (verify e id.public_key (handshake_sign_data id.uuid) req.signature ≡ true))
  unfolding check_handshake
  signed_of_accepted req info id h = ground arith

  accepted_sound :
      (req : Option HandshakeReq) → (handshake e rt s req).resp.accepted ≡ true → IsAcceptable e req
  unfolding handshake
  accepted_sound none h = absurd (true_and_false h refl)
  accepted_sound (some q) h = elim (Option-cases q.self) [
    | inl no_self ↦ absurd (true_and_false h (rw (no_self, handshake) refl))
    | inr (info, has_self) ↦ elim (Option-cases info.id) [
      | inl no_id ↦ absurd (true_and_false h (ground (arith, has_self, no_id)))
      | inr (id, has_id) ↦ elim (Bool-cases (is_empty id.uuid)) [
        | inl empty ↦ absurd (true_and_false h (ground (arith, has_self, has_id, empty)))
        | inr named ↦ record {
          request = q;
          info = info;
          id = id;
          the_request = refl;
          has_self = has_self;
          has_id = has_id;
          not_empty = named;
          signed = signed_of_accepted q info id (ground (arith, h, has_self, has_id, named));
        }
      ]
    ]
  ]

  -- A handshake is accepted exactly if it names its sender by an identity that is not empty and its signature, if it has one, verifies under the public key that it carries.
  pub accepted_iff :
      (req : Option HandshakeReq)
      → ((handshake e rt s req).resp.accepted ≡ true) ↔ IsAcceptable e req
  accepted_iff req = (
    accepted_sound req,
    λ a.
        ap (λ (r : Reply HandshakeResp). r.resp.accepted)
          (handshake-admit a ∙ admit-accept rt s a.info a.id a.has_id a.not_empty)
        ∙ accepted-accept rt _ a.info a.id,
  )

  check_unchanged :
      (req : HandshakeReq) (info : NodeInfo) (id : NodeId)
      → info.id ≡ some id
      → is_empty id.uuid ≡ false
      → (check_handshake e rt s req info id).resp.accepted ≡ false
      → ((check_handshake e rt s req info id).service ≡ s)
        × ((check_handshake e rt s req info id).calls ≡ [])
  unfolding check_handshake
  check_unchanged req info id has ne h = ground (arith, accepted-admit rt s info id has ne)

  -- A handshake that is not accepted changes nothing, and calls nobody.
  pub rejected_unchanged :
      (req : Option HandshakeReq)
      → (handshake e rt s req).resp.accepted ≡ false
      → ((handshake e rt s req).service ≡ s) × ((handshake e rt s req).calls ≡ [])
  unfolding handshake
  rejected_unchanged none h = (refl, refl)
  rejected_unchanged (some q) h = elim (Option-cases q.self) [
    | inl no_self ↦ ground (arith, no_self)
    | inr (info, has_self) ↦ elim (Option-cases info.id) [
      | inl no_id ↦ ground (arith, has_self, no_id)
      | inr (id, has_id) ↦ elim (Bool-cases (is_empty id.uuid)) [
        | inl empty ↦ ground (arith, has_self, has_id, empty)
        | inr named ↦
            ground (arith, has_self, has_id, named, check_unchanged q info id has_id named)
      ]
    ]
  ]
