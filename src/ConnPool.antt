-- ===== src/ConnPool.antt =====
-- internal/transport/conn_pool.go: the connections and streams to peers, by address. Each method
-- holds the pool's lock, so each is one step. A connection and a stream are objects of
-- google.golang.org/grpc, known here by numbers; the calls that a method makes of them are a part
-- of its result. The wrapper `lockedStream` only orders the sends on one stream, and is the
-- stream itself here.
pub mod Closing
pub mod Leaks
mod Tests
use p2ptest.Base.{
  ℕ, Str, lit, str_eq, ◌==◌, Bool, true, false, if◌then◌else◌, is_some, Option, none, some, List,
  [], ◌∷◌, ◌++◌,
}
use p2ptest.Base.Dict
use p2ptest.Base.Dict.{Dict, Visit}
use p2ptest.Proto.{Envelope}

abbrev pub Conn : Type 0
Conn = ℕ

abbrev pub Stream : Type 0
Stream = ℕ

-- A call of an object of the library: `conn.Close()`, `stream.CloseSend()`.
pub data Call : Type 0 where
  close : Conn → Call
  close_send : Stream → Call

-- `ConnPool`: a connection may be nil, a stream is not.
pub record ConnPool : Type 0 where
  pub conns : Dict Str (Option Conn)
  pub streams : Dict Str Stream

-- `NewConnPool`
unfoldable pub new : ConnPool
new = record { conns = Dict.empty; streams = Dict.empty }

-- `SetConn`
unfoldable pub set_conn : ConnPool → Str → Option Conn → ConnPool
set_conn p addr conn = record p { conns = Dict.put p.conns addr conn }

-- `GetConn`
unfoldable pub get_conn : ConnPool → Str → Option (Option Conn)
get_conn p addr = Dict.get p.conns addr

-- `if conn, ok := p.conns[addr]; ok && conn != nil { _ = conn.Close() }`
abbrev pub close_conn : Option (Option Conn) → List Call
close_conn none = []
close_conn (some none) = []
close_conn (some (some conn)) = close conn ∷ []

-- `DeleteConn`
unfoldable pub delete_conn : ConnPool → Str → ConnPool × List Call
delete_conn p addr =
    (record p { conns = Dict.remove p.conns addr }, close_conn (Dict.get p.conns addr))

-- `SetStream`
unfoldable pub set_stream : ConnPool → Str → Stream → ConnPool
set_stream p addr stream = record p { streams = Dict.put p.streams addr stream }

-- `GetStream`
unfoldable pub get_stream : ConnPool → Str → Option Stream
get_stream p addr = Dict.get p.streams addr

-- `DeleteStream`
unfoldable pub delete_stream : ConnPool → Str → ConnPool
delete_stream p addr = record p { streams = Dict.remove p.streams addr }

-- `GetStreamsCopy`: a map of its own, with the same entries.
unfoldable pub get_streams_copy : ConnPool → Dict Str Stream
get_streams_copy p = p.streams

unfoldable pub keys : List (Str × Stream) → List Str
keys [] = []
keys ((addr, stream) ∷ rest) = addr ∷ keys rest

-- `StreamAddrs`
unfoldable pub stream_addrs : ConnPool → Visit (Str × Stream) → List Str
unfolding keys
stream_addrs p visit = keys (visit p.streams.entries)

-- `HasStream`
unfoldable pub has_stream : ConnPool → Str → Bool
has_stream p addr = is_some (Dict.get p.streams addr)

-- The result of `SendToStream`: there is no stream, or the stream's `Send` is called, and its
-- error is the result.
pub data Sent : Type 0 where
  no_stream : Str → Sent
  send_on : Stream → Envelope → Sent

-- `SendToStream`
unfoldable pub send_to_stream : ConnPool → Str → Envelope → Sent
send_to_stream p addr env = elim (Dict.get p.streams addr) [
  | none ↦ no_stream (lit "no stream to " ++ addr)
  | some stream ↦ send_on stream env
]

abbrev pub close_stream : Option Stream → List Call
close_stream none = []
close_stream (some stream) = close_send stream ∷ []

-- `CloseByAddr`
unfoldable pub close_by_addr : ConnPool → Str → ConnPool × List Call
close_by_addr p addr = (
  record { conns = Dict.remove p.conns addr; streams = Dict.remove p.streams addr },
  close_stream (Dict.get p.streams addr) ++ close_conn (Dict.get p.conns addr),
)

-- The two loops of `CloseAll`.
unfoldable pub close_streams : List (Str × Stream) → List Call
close_streams [] = []
close_streams ((addr, stream) ∷ rest) = close_send stream ∷ close_streams rest

unfoldable pub close_conns : List (Str × Option Conn) → List Call
close_conns [] = []
close_conns ((addr, conn) ∷ rest) = close_conn (some conn) ++ close_conns rest

-- `CloseAll`
unfoldable pub close_all :
    ConnPool → Visit (Str × Stream) → Visit (Str × Option Conn) → ConnPool × List Call
unfolding new close_streams close_conns
close_all p visit visit' =
    (new, close_streams (visit p.streams.entries) ++ close_conns (visit' p.conns.entries))
