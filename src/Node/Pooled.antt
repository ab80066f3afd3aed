-- ===== src/Node/Pooled.antt =====
-- The connections of a node of internal/node/node.go: that none is nil, and that the loops keep this.
use p2ptest.Base.{
  ℕ, Str, str_eq, Option, none, some, List, [], ◌∷◌, ◌≢◌, arith, Returns, Returns-bind,
  Returns-both, Returns-deref, Bool-cases, Option-cases, inl, inr,
}
use p2ptest.Base.Dict.{get-put, get-remove}
use p2ptest.Proto.{HeartbeatReq, HeartbeatResp, offline}
use p2ptest.Crypto.{Ed25519, Identity}
use p2ptest.Registry.{get, update_status, unregister}
use p2ptest.Registry.Invariant.{IsValid}
use p2ptest.Registry.Preserve.{update_status-IsValid, unregister-IsValid}
use p2ptest.ConnPool.{ConnPool, Conn, get_conn, set_conn, close_by_addr}
use p2ptest.Node.{
  Node, Moment, heartbeat_answered, is_known, clean_one, clean_all, clean_peer, announce_stale,
  close_if_addr,
}
use p2ptest.Node.Peers.{Target}
use p2ptest.Node.Remote.{Dial, conn_for, send_heartbeat_to_peer}
use p2ptest.Node.Cleaning.{clean_one-IsCleaned}

-- No connection of the pool is nil.
abbrev pub HasConns : ConnPool → Type 0
HasConns pool = (addr : Str) → get_conn pool addr ≢ some none

-- The registry is valid, and no connection is nil.
abbrev pub IsLive : Node → Type 0
IsLive n = IsValid n.registry × HasConns n.conn_pool

close_if_addr-HasConns :
    (pool : ConnPool) (addr : Str) → HasConns pool → HasConns (close_if_addr pool addr).0
unfolding close_if_addr close_by_addr get_conn
close_if_addr-HasConns pool addr h a e = h a (ground (arith, e, get-remove pool.conns addr a))

set_conn-HasConns :
    (pool : ConnPool) (addr : Str) (c : Conn)
    → HasConns pool
    → HasConns (set_conn pool addr (some c))
unfolding set_conn get_conn
set_conn-HasConns pool addr c h a e = h a (ground (arith, e, get-put pool.conns addr a (some c)))

clean_one-HasConns :
    (m : Moment) (n : Node) (uuid : Str)
    → IsLive n
    → Returns (λ out. HasConns out.0.conn_pool) (clean_one m n uuid)
unfolding clean_one clean_peer announce_stale
clean_one-HasConns m n uuid live = elim (Option-cases (get n.registry uuid)) [
  | inl off ↦ rw (off, clean_one) live.1
  | inr (p, on) ↦
      rw (on, clean_one)
        (Returns-deref _ _ (live.0.entry uuid p on).has_id (
          Returns-bind _ _ (unregister (update_status n.registry uuid offline).1 uuid) _
            (unregister-IsValid (update_status-IsValid live.0 uuid offline) uuid)
            (λ out v. elim (Bool-cases out.0) [
              | inl removed ↦ rw removed (close_if_addr-HasConns n.conn_pool _ live.1)
              | inr absent ↦ rw absent live.1
            ])))
]

pub clean_all-IsLive :
    (moment : Str → Moment) (n : Node) (uuids : List Str)
    → IsLive n
    → Returns (λ out. IsLive out.0) (clean_all moment n uuids)
unfolding clean_all
clean_all-IsLive moment n [] live = live
clean_all-IsLive moment n (uuid ∷ rest) live =
    Returns-bind _ _ (clean_one (moment uuid) n uuid) _
      (Returns-both _ _ (clean_one (moment uuid) n uuid)
        (clean_one-IsCleaned (moment uuid) n uuid uuid live.0)
        (clean_one-HasConns (moment uuid) n uuid live))
      (λ out h.
        Returns-bind _ _ (clean_all moment out.0 rest) _
          (clean_all-IsLive moment out.0 rest (h.0.0, h.1)) (λ out' k. k))

-- What is found or made for a call is not nil.
conn_for_lem :
    (pool : ConnPool) (addr : Str) (dial : Dial)
    → HasConns pool
    → HasConns (conn_for pool addr dial).1 × ((conn_for pool addr dial).0 ≢ some none)
unfolding conn_for
conn_for_lem pool addr dial h = elim (Option-cases (get_conn pool addr)) [
  | inr (c, found) ↦ rw (found, conn_for) (h, λ e. h addr (ground (arith, found, e)))
  | inl missing ↦ elim (Option-cases dial) [
    | inl failed ↦ rw (missing, failed, conn_for) (h, λ e. cc)
    | inr (c, dialed) ↦ rw (missing, dialed, conn_for) (set_conn-HasConns pool addr c h, λ e. cc)
  ]
]

heartbeat_answered-IsLive :
    (n : Node) (uuid : Str) (resp : Option HeartbeatResp)
    → IsLive n
    → IsLive (heartbeat_answered n uuid resp)
unfolding heartbeat_answered
heartbeat_answered-IsLive n uuid none live = live
heartbeat_answered-IsLive n uuid (some resp) live = elim (Bool-cases (is_known resp.status)) [
  | inl known ↦
      rw (known, heartbeat_answered) (update_status-IsValid live.0 uuid resp.status, live.1)
  | inr strange ↦ rw (strange, heartbeat_answered) live
]

pub send_heartbeat_to_peer-IsLive :
    (e : Ed25519) (identity : Identity) (ts : ℕ) (dial : Dial)
    (answer : HeartbeatReq → Option HeartbeatResp) (n : Node) (t : Target)
    → IsLive n
    → Returns IsLive (send_heartbeat_to_peer e identity ts dial answer n t)
unfolding send_heartbeat_to_peer
send_heartbeat_to_peer-IsLive e identity ts dial answer n t live =
    let reach = conn_for_lem n.conn_pool t.address dial live.1 in
    elim (Option-cases (conn_for n.conn_pool t.address dial).0) [
      | inl failed ↦ rw (failed, send_heartbeat_to_peer) (live.0, reach.0)
      | inr (c, dialed) ↦ elim (Option-cases c) [
        | inl nothing ↦ absurd (reach.1 (ground (arith, dialed, nothing)))
        | inr (c', there) ↦
            rw (dialed, send_heartbeat_to_peer)
              (rw there (heartbeat_answered-IsLive _ t.uuid _ (live.0, reach.0)))
      ]
    ]
