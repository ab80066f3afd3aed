-- ===== src/Client/Connecting.antt =====
-- `ConnectToPeers` and `connectToSinglePeer` of internal/client/client.go, over the node of
-- internal/node/node.go. What dialling returns is a parameter. The goroutine that is started for a
-- new stream is the loop of Receiving.antt, and does not run here. Log lines are left out.
use p2ptest.Base.{
  ℕ, suc, Str, lit, str_eq, ◌==◌, if◌then◌else◌, is_empty, Option, none, some, List, [], ◌∷◌, ◌++◌,
  Outcome, done, ◌>>=◌, deref,
}
use p2ptest.Proto.{NodeId, NodeInfo}
use p2ptest.Addr.{first_addr}
use p2ptest.Registry
use p2ptest.Registry.{Registry}
use p2ptest.ConnPool.{
  ConnPool, Conn, Stream, Call, close, has_stream, set_conn, delete_conn, set_stream,
}
use p2ptest.Node.{Node, addr_or_empty}

-- What `grpcutil.NewClientConn` returns, and then `cli.Stream`: an error's text, or the object.
pub data Opened : Type 0 where
  stream_failed : Str → Opened
  opened : Stream → Opened

pub data Dialed : Type 0 where
  dial_failed : Str → Dialed
  dialed : Conn → Opened → Dialed

-- The error's text, the node, and the closed connections.
pub record Connected : Type 0 where
  pub error : Option Str
  pub node : Node
  pub closings : List Call

abbrev pub with_pool : Node → ConnPool → Node
with_pool n pool = record n { conn_pool = pool }

-- The part of `connectToSinglePeer` after the connection is made.
unfoldable pub open_stream : Node → Str → Conn → Opened → Connected
open_stream n addr conn (opened stream) = record {
  error = none;
  node = with_pool n (set_stream (set_conn n.conn_pool addr (some conn)) addr stream);
  closings = [];
}
open_stream n addr conn (stream_failed why) =
    let (pool, calls) = delete_conn (set_conn n.conn_pool addr (some conn)) addr in
    record {
      error = some (lit "create stream failed: " ++ why);
      node = with_pool n pool;
      closings = calls ++ close conn ∷ [];
    }

-- `connectToSinglePeer`
unfoldable pub connect_to_single_peer : Node → Str → Dialed → Connected
unfolding open_stream
connect_to_single_peer n addr (dialed conn result) =
    if has_stream n.conn_pool addr
    then record { error = none; node = n; closings = [] }
    else open_stream n addr conn result
connect_to_single_peer n addr (dial_failed why) =
    if has_stream n.conn_pool addr
    then record { error = none; node = n; closings = [] }
    else record { error = some (lit "connect failed: " ++ why); node = n; closings = [] }

-- The readings of the clock for a registration.
pub record Stamps : Type 0 where
  pub active_at : ℕ
  pub registered_at : ℕ

-- The variables of the loop of `ConnectToPeers`.
pub record Progress : Type 0 where
  pub node : Node
  pub err_msg : Str
  pub closings : List Call

-- The texts that a round adds to `errMsg`.
abbrev pub connect_failure : Str → Str → Str → Str
connect_failure name addr why =
    lit "connect peer " ++ name ++ lit "(" ++ addr ++ lit ") failed: " ++ why ++ lit "; "

abbrev pub no_addr : Str → Str
no_addr name = lit "peer " ++ name ++ lit " has no valid addr; "

-- The end of a round: the error's text is noted, or the peer is added.
unfoldable pub note : Stamps → Progress → NodeInfo → Str → Str → Connected → Progress
note t s p name addr c = elim c.error [
  | some why ↦ record {
    node = c.node;
    err_msg = s.err_msg ++ connect_failure name addr why;
    closings = s.closings ++ c.closings;
  }
  | none ↦ record {
    node = record c.node {
      registry = (Registry.register c.node.registry (some p) t.active_at t.registered_at).1;
    };
    err_msg = s.err_msg;
    closings = s.closings ++ c.closings;
  }
]

-- One round of the loop.
unfoldable pub connect_round :
    Str → Stamps → (Str → Dialed) → Progress → NodeInfo → NodeId → Progress
unfolding connect_to_single_peer note
connect_round self_addr t dial s p id =
    let addr = addr_or_empty (first_addr p.addrs) in
    if addr == self_addr
    then s
    else if id.uuid == s.node.node_id.uuid
    then s
    else if is_empty addr
    then record s { err_msg = s.err_msg ++ no_addr id.name }
    else note t s p id.name addr (connect_to_single_peer s.node addr (dial addr))

-- The loop: `p.Id.Uuid` panics where the identity is nil.
unfoldable pub connect_rounds :
    Str → (ℕ → Stamps) → (ℕ → Str → Dialed) → ℕ → Progress → List NodeInfo → Outcome Progress
unfolding connect_round
connect_rounds self_addr clock dial i s [] = done s
connect_rounds self_addr clock dial i s (p ∷ rest) = deref p.id >>= λ id.
    connect_rounds self_addr clock dial (suc i) (connect_round self_addr (clock i) (dial i) s p id)
      rest

-- `ConnectToPeers`, up to the error's prefix: an error is returned exactly if `err_msg` is not
-- empty. `self_addr` is the node's own address.
unfoldable pub connect_to_peers :
    Str → (ℕ → Stamps) → (ℕ → Str → Dialed) → Node → List NodeInfo → Outcome Progress
unfolding connect_rounds
connect_to_peers self_addr clock dial n peers =
    connect_rounds self_addr clock dial 0 (record { node = n; err_msg = []; closings = [] }) peers
