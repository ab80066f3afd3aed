-- ===== src/Client/Linked.antt =====
-- What `ConnectToPeers` of internal/client/client.go leaves behind.
use p2ptest.Base.{
  ℕ, suc, Str, lit, str_eq, str_beq_iff, ◌==◌, Bool, true, false, is_some, is_empty, Option, none,
  some, List, [], ◌∷◌, ◌++◌, ◌≡◌, ◌≢◌, ◌||◌, refl, sym, ◌∙◌, arith, Bool-cases, Option-cases, inl,
  inr, Returns, Returns-weaken, Returns-deref, subst,
}
use p2ptest.Base.Dict.{get-put}
use p2ptest.Proto.{NodeId, NodeInfo}
use p2ptest.Addr.{first_addr}
use p2ptest.Registry.Invariant.{IsValid}
use p2ptest.Registry.Preserve.{register-IsValid}
use p2ptest.ConnPool.{has_stream, set_conn, delete_conn, set_stream}
use p2ptest.Node.{Node, addr_or_empty}
use p2ptest.Client.Connecting.{
  stream_failed, opened, Dialed, dial_failed, dialed, Connected, connect_to_single_peer, Stamps,
  Progress, note, connect_round, connect_rounds, connect_to_peers,
}

-- Every peer has an identity.
abbrev pub AreNamed : List NodeInfo → Type 0
AreNamed [] = Unit
AreNamed (p ∷ rest) = (is_some p.id ≡ true) × AreNamed rest

connect_to_single_peer_keeps :
    (n : Node) (addr : Str) (d : Dialed)
    → ((connect_to_single_peer n addr d).node.registry ≡ n.registry)
      × ((connect_to_single_peer n addr d).node.node_id ≡ n.node_id)
      × ((connect_to_single_peer n addr d).error ≡ none
          → has_stream (connect_to_single_peer n addr d).node.conn_pool addr ≡ true)
      × ((k : Str)
          → has_stream n.conn_pool k ≡ true
          → has_stream (connect_to_single_peer n addr d).node.conn_pool k ≡ true)
unfolding connect_to_single_peer has_stream set_stream set_conn delete_conn
connect_to_single_peer_keeps n addr (dial_failed why) =
    (ground arith, ground arith, λ h. ground arith, λ k h. ground arith)
connect_to_single_peer_keeps n addr (dialed conn (stream_failed why)) =
    (ground arith, ground arith, λ h. ground arith, λ k h. ground arith)
connect_to_single_peer_keeps n addr (dialed conn (opened stream)) = (
  ground arith,
  ground arith,
  λ h. ground (arith, get-put n.conn_pool.streams addr addr stream, str_beq_iff addr addr),
  λ k h. ground (arith, get-put n.conn_pool.streams addr k stream),
)

-- The peer is the node itself, by its address or its identity, or there is a stream to its
-- address.
abbrev pub is_linked : Str → Node → NodeInfo → NodeId → Bool
is_linked self_addr n p id =
    (addr_or_empty (first_addr p.addrs) == self_addr)
    || (id.uuid == n.node_id.uuid)
    || has_stream n.conn_pool (addr_or_empty (first_addr p.addrs))

abbrev pub AreLinked : Str → Node → List NodeInfo → Type 0
AreLinked self_addr n [] = Unit
AreLinked self_addr n (p ∷ rest) =
    ((id : NodeId) → p.id ≡ some id → is_linked self_addr n p id ≡ true)
    × AreLinked self_addr n rest

-- The streams of one node are there in a later one, of the same identity.
abbrev HasGrown : Node → Node → Type 0
HasGrown n n' =
    (n'.node_id ≡ n.node_id)
    × ((k : Str) → has_stream n.conn_pool k ≡ true → has_stream n'.conn_pool k ≡ true)

is_linked-HasGrown :
    (self_addr : Str) (n n' : Node) (p : NodeInfo) (id : NodeId)
    → HasGrown n n'
    → is_linked self_addr n p id ≡ true
    → is_linked self_addr n' p id ≡ true
is_linked-HasGrown self_addr n n' p id grown linked =
    ground (arith, grown.0, grown.1 (addr_or_empty (first_addr p.addrs)), linked)

-- What one round promises.
abbrev IsRound : Str → Progress → NodeInfo → NodeId → Progress → Type 0
IsRound self_addr s p id s' =
    IsValid s'.node.registry
    × HasGrown s.node s'.node
    × (s'.err_msg ≡ [] → (s.err_msg ≡ []) × (is_linked self_addr s'.node p id ≡ true))

same_id : {o : Option NodeId} {a b : NodeId} → o ≡ some a → o ≡ some b → a ≡ b
same_id p q = cc

true-false : true ≡ false → ⊥
true-false e = cc

append-filled : (xs ys : Str) → is_empty ys ≡ false → xs ++ ys ≢ []
append-filled [] [] filled e = absurd (true-false filled)
append-filled [] (y ∷ ys) filled e = cc
append-filled (x ∷ xs) ys filled e = cc

note-IsRound :
    (self_addr : Str) (t : Stamps) (s : Progress) (p : NodeInfo) (id : NodeId) (c : Connected)
    → IsValid c.node.registry
    → HasGrown s.node c.node
    → (c.error ≡ none → has_stream c.node.conn_pool (addr_or_empty (first_addr p.addrs)) ≡ true)
    → IsRound self_addr s p id (note t s p id.name (addr_or_empty (first_addr p.addrs)) c)
unfolding note lit
note-IsRound self_addr t s p id c v grown made = elim (Option-cases c.error) [
  | inl fine ↦
      rw (fine, note)
        (
          register-IsValid v (some p) t.active_at t.registered_at,
          grown,
          λ e. (e, ground (arith, made fine)),
        )
  | inr (why, bad) ↦ rw (bad, note) (v, grown, λ e. absurd (append-filled s.err_msg _ refl e))
]

-- The round for a peer that the loop does not skip.
to_note :
    (self_addr : Str) (t : Stamps) (dial : Str → Dialed) (s : Progress) (p : NodeInfo) (id : NodeId)
    → let addr = addr_or_empty (first_addr p.addrs) in
      (addr == self_addr) ≡ false
      → (id.uuid == s.node.node_id.uuid) ≡ false
      → is_empty addr ≡ false
      → connect_round self_addr t dial s p id
        ≡ note t s p id.name addr (connect_to_single_peer s.node addr (dial addr))
unfolding connect_round
to_note self_addr t dial s p id away other somewhere =
    rw (away, other, somewhere, connect_round) refl

connect_round-IsRound :
    (self_addr : Str) (t : Stamps) (dial : Str → Dialed) (s : Progress) (p : NodeInfo) (id : NodeId)
    → IsValid s.node.registry
    → IsRound self_addr s p id (connect_round self_addr t dial s p id)
unfolding connect_round lit
connect_round-IsRound self_addr t dial s p id v =
    let addr : Str = addr_or_empty (first_addr p.addrs) in
    elim (Bool-cases (addr == self_addr)) [
      | inl own_addr ↦ rw (own_addr, connect_round) (v, (refl, λ k h. h), λ e. (e, refl))
      | inr away ↦ elim (Bool-cases (id.uuid == s.node.node_id.uuid)) [
        | inl own_id ↦
            rw (away, own_id, connect_round) (v, (refl, λ k h. h), λ e. (e, rw own_id refl))
        | inr other ↦ elim (Bool-cases (is_empty addr)) [
          | inl nowhere ↦
              rw (away, other, nowhere, connect_round)
                (v, (refl, λ k h. h), λ e. absurd (append-filled s.err_msg _ refl e))
          | inr somewhere ↦
              let kept = connect_to_single_peer_keeps s.node addr (dial addr) in
              subst (IsRound self_addr s p id)
                (sym (to_note self_addr t dial s p id away other somewhere))
                (note-IsRound self_addr t s p id (connect_to_single_peer s.node addr (dial addr))
                  (subst IsValid (sym kept.0) v) (kept.1, kept.3) kept.2)
        ]
      ]
    ]

-- What the rounds promise.
abbrev pub IsConnected : Str → Progress → List NodeInfo → Progress → Type 0
IsConnected self_addr s peers s' =
    IsValid s'.node.registry
    × HasGrown s.node s'.node
    × (s'.err_msg ≡ [] → (s.err_msg ≡ []) × AreLinked self_addr s'.node peers)

connect_rounds-IsConnected :
    (self_addr : Str) (clock : ℕ → Stamps) (dial : ℕ → Str → Dialed) (i : ℕ) (s : Progress)
    (peers : List NodeInfo)
    → IsValid s.node.registry
    → AreNamed peers
    → Returns (IsConnected self_addr s peers) (connect_rounds self_addr clock dial i s peers)
unfolding connect_rounds
connect_rounds-IsConnected self_addr clock dial i s [] v named = (v, (refl, λ k h. h), λ e. (e, tt))
connect_rounds-IsConnected self_addr clock dial i s (p ∷ rest) v named = elim (Option-cases p.id) [
  | inl anonymous ↦ absurd (ground (arith, anonymous, named.0))
  | inr (id, has) ↦
      let s' : Progress = connect_round self_addr (clock i) (dial i) s p id in
      let first = connect_round-IsRound self_addr (clock i) (dial i) s p id v in
      Returns-deref _ _ has (
        Returns-weaken _ _ (connect_rounds self_addr clock dial (suc i) s' rest)
          (connect_rounds-IsConnected self_addr clock dial (suc i) s' rest first.0 named.1)
          (λ out h. (
            h.0,
            (h.1.0 ∙ first.1.0, λ k has_one. h.1.1 k (first.1.1 k has_one)),
            λ e.
                let earlier = h.2 e in
                let now = first.2 earlier.0 in
                (
                  now.0,
                  (
                    λ id' has'. is_linked-HasGrown self_addr s'.node out.node p id' h.1 (
                        subst (λ j. is_linked self_addr s'.node p j ≡ true) (same_id has has')
                          now.1),
                    earlier.1,
                  ),
                ),
          )))
]

-- A run of `ConnectToPeers` on a node with a valid registry, for peers with an identity: it
-- returns, the registry stays valid, and no stream is lost. If it reports no error, then each of
-- the peers is the node itself, by its address or its identity, or there is a stream to its
-- address.
pub connect_to_peers-IsConnected :
    (self_addr : Str) (clock : ℕ → Stamps) (dial : ℕ → Str → Dialed) (n : Node)
    (peers : List NodeInfo)
    → IsValid n.registry
    → AreNamed peers
    → Returns
        (IsConnected self_addr (record { node = n; err_msg = []; closings = [] }) peers)
        (connect_to_peers self_addr clock dial n peers)
unfolding connect_to_peers
connect_to_peers-IsConnected self_addr clock dial n peers v named =
    connect_rounds-IsConnected self_addr clock dial 0
      (record { node = n; err_msg = []; closings = [] }) peers v named
