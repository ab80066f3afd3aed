-- ===== src/Client/Receiving.antt =====
-- `recvPeerMessageLoop` of internal/client/client.go, over the node of internal/node/node.go. Log
-- lines are left out.
use p2ptest.Base.{
  ℕ, Str, lit, str_eq, str_beq_iff, ◌==◌, true, false, if◌then◌else◌, is_some, none, some, List, [],
  ◌∷◌, ◌≡◌, refl, sym, arith, Bool-cases, inl, inr, Outcome, done, ◌>>=◌, deref, Returns,
  Returns-bind, Returns-both, subst,
}
use p2ptest.Base.Dict.{get-remove}
use p2ptest.Proto.{Payload, empty, text, ping, pong, Envelope}
use p2ptest.Notification.{new_message_received, new_peer_offline}
use p2ptest.Notifier
use p2ptest.Registry
use p2ptest.Registry.{Registry, get_last_active, get_registered_at}
use p2ptest.Registry.Invariant.{IsValid}
use p2ptest.Registry.Preserve.{unregister-IsValid}
use p2ptest.Registry.Lookup.{get-unregister}
use p2ptest.ConnPool.{get_conn, has_stream, delete_conn, delete_stream}
use p2ptest.Node.{Node, Moment, Effects, no_effects, then_effects, handle_pong_received, offer}

-- The peer at the other end of the stream.
pub record Peer : Type 0 where
  pub addr : Str
  pub name : Str
  pub uuid : Str

-- The tests of the payload of an envelope, which arrives at the time `now`.
unfoldable pub receive_payload : Moment → ℕ → Node → Peer → Payload → Outcome (Node × Effects)
receive_payload m now n peer empty = done (n, no_effects)
receive_payload m now n peer (ping p) = done (n, no_effects)
receive_payload m now n peer (pong none) = done (n, no_effects)
receive_payload m now n peer (pong (some p)) =
    done (handle_pong_received n p.nonce p.ping_timestamp now, no_effects)
receive_payload m now n peer (text t) = deref t >>= λ t'.
    let (notifier, calls) =
      Notifier.emit n.notifier m.callbacks_order
        (new_message_received peer.name t'.content m.emitted_at) in
    done (record n { notifier = notifier }, record { calls = calls; closings = [] })

-- What is done when `stream.Recv` has an error.
unfoldable pub disconnected : Moment → Node → Peer → Outcome (Node × Effects)
disconnected m n peer = Registry.unregister n.registry peer.uuid >>= λ out.
    let (notifier, calls) =
      Notifier.emit n.notifier m.callbacks_order
        (new_peer_offline peer.name (lit "stream disconnected") m.emitted_at) in
    let (pool, closings) = delete_conn n.conn_pool peer.addr in
    let n' : Node = record n { registry = out.1; conn_pool = delete_stream pool peer.addr } in
    if out.0
    then done (record n' { notifier = notifier }, record { calls = calls; closings = closings })
    else done (n', record { calls = []; closings = closings })

-- One return of `stream.Recv`.
pub data Arrival : Type 0 where
  arrived : Moment → ℕ → Envelope → Arrival
  broken : Moment → Arrival

-- `recvPeerMessageLoop`, over what `stream.Recv` returns one after the other: it returns at the
-- first error.
unfoldable pub recv_peer_message_loop : Node → Peer → List Arrival → Outcome (Node × Effects)
unfolding receive_payload disconnected
recv_peer_message_loop n peer [] = done (n, no_effects)
recv_peer_message_loop n peer (broken m ∷ rest) = disconnected m n peer
recv_peer_message_loop n peer (arrived m now env ∷ rest) =
    receive_payload m now n peer env.payload >>= λ out.
    recv_peer_message_loop out.0 peer rest >>= λ out'. done (out'.0, then_effects out.1 out'.1)

-- A text has its message: the decoder of protobuf fills it.
abbrev pub IsFilled : Payload → Type 0
IsFilled empty = Unit
IsFilled (text t) = is_some t ≡ true
IsFilled (ping p) = Unit
IsFilled (pong p) = Unit

-- An envelope that arrives, with the reading of the clock and of the callbacks then.
pub record Received : Type 0 where
  pub moment : Moment
  pub arrival : ℕ
  pub envelope : Envelope

abbrev pub AreFilled : List Received → Type 0
AreFilled [] = Unit
AreFilled (x ∷ rest) = IsFilled x.envelope.payload × AreFilled rest

-- These envelopes one after the other, and then an error.
abbrev pub in_turn : List Received → Moment → List Arrival
in_turn [] last = broken last ∷ []
in_turn (x ∷ rest) last = arrived x.moment x.arrival x.envelope ∷ in_turn rest last

false-true : false ≡ true → ⊥
false-true e = cc

pub registry-handle_pong_received :
    (n : Node) (nonce : Str) (t now : ℕ)
    → (handle_pong_received n nonce t now).registry ≡ n.registry
unfolding handle_pong_received offer
registry-handle_pong_received n nonce t now = ground arith

-- An envelope leaves the registry.
receive_payload_keeps :
    (m : Moment) (now : ℕ) (n : Node) (peer : Peer) (p : Payload)
    → IsFilled p
    → Returns (λ out. out.0.registry ≡ n.registry) (receive_payload m now n peer p)
unfolding receive_payload
receive_payload_keeps m now n peer empty filled = refl
receive_payload_keeps m now n peer (ping p) filled = refl
receive_payload_keeps m now n peer (pong none) filled = refl
receive_payload_keeps m now n peer (pong (some p)) filled =
    registry-handle_pong_received n p.nonce p.ping_timestamp now
receive_payload_keeps m now n peer (text none) filled = absurd (false-true filled)
receive_payload_keeps m now n peer (text (some t)) filled = refl

-- The identity of the peer is in none of the registry's three maps, nothing has changed in them for the
-- identity `k` of another one, and the pool has neither a connection nor a stream at its address.
abbrev pub HasLost : Registry → Peer → Str → Node × Effects → Type 0
HasLost r peer k out =
    IsValid out.0.registry
    × (Registry.get out.0.registry k ≡ (if peer.uuid == k then none else Registry.get r k))
    × (get_last_active out.0.registry k ≡ (if peer.uuid == k then none else get_last_active r k))
    × (get_registered_at out.0.registry k
        ≡ (if peer.uuid == k then none else get_registered_at r k))
    × (get_conn out.0.conn_pool peer.addr ≡ none)
    × (has_stream out.0.conn_pool peer.addr ≡ false)

disconnected-HasLost :
    (m : Moment) (n : Node) (peer : Peer) (k : Str)
    → IsValid n.registry
    → Returns (HasLost n.registry peer k) (disconnected m n peer)
unfolding disconnected delete_conn delete_stream get_conn has_stream
disconnected-HasLost m n peer k v =
    let no_conn = get-remove n.conn_pool.conns peer.addr peer.addr in
    let no_stream = get-remove n.conn_pool.streams peer.addr peer.addr in
    let same = str_beq_iff peer.addr peer.addr in
    Returns-bind _ _ (Registry.unregister n.registry peer.uuid) _
      (Returns-both _ _ (Registry.unregister n.registry peer.uuid) (get-unregister v peer.uuid k)
        (unregister-IsValid v peer.uuid))
      (λ out h. elim (Bool-cases out.0) [
        | inl removed ↦ rw removed (
          h.1,
          h.0.1,
          h.0.2,
          h.0.3,
          ground (arith, no_conn, same),
          ground (arith, no_stream, same),
        )
        | inr absent ↦ rw absent (
          h.1,
          h.0.1,
          h.0.2,
          h.0.3,
          ground (arith, no_conn, same),
          ground (arith, no_stream, same),
        )
      ])

-- The loop of a stream over a node with a valid registry, for any envelopes whose texts are there, each
-- arriving at a time of its own, up to the first error of the stream: it returns, the peer's identity
-- is in none of the registry's maps of peers and of their times, the pool has neither a connection nor a stream
-- at its address, and for every other identity the registry has the peer and the times that it had at the start.
pub recv_peer_message_loop-HasLost :
    (n : Node) (peer : Peer) (received : List Received) (last : Moment) (k : Str)
    → IsValid n.registry
    → AreFilled received
    → Returns (HasLost n.registry peer k) (recv_peer_message_loop n peer (in_turn received last))
unfolding recv_peer_message_loop
recv_peer_message_loop-HasLost n peer [] last k v filled = disconnected-HasLost last n peer k v
recv_peer_message_loop-HasLost n peer (x ∷ rest) last k v filled =
    Returns-bind _ _ (receive_payload x.moment x.arrival n peer x.envelope.payload) _
      (receive_payload_keeps x.moment x.arrival n peer x.envelope.payload filled.0)
      (λ out kept.
        Returns-bind _ _ (recv_peer_message_loop out.0 peer (in_turn rest last)) _
          (recv_peer_message_loop-HasLost out.0 peer rest last k (subst IsValid (sym kept) v)
            filled.1)
          (λ out' lost. subst (λ r. HasLost r peer k out') kept lost))
