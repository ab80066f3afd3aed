-- ===== src/Node/Listing.antt =====
-- `GetOnlinePeers` and `formatDuration` of internal/node/node.go. A time of day is written by the
-- parameter `clock_text`, as it depends on the time zone. The seconds, minutes and hours of the source are
-- floating-point numbers that are cut: up to 4095 hours that is the division of whole numbers.
use p2ptest.Base.{
  ℕ, ◌-◌, ◌*◌, ◌/◌, ◌%◌, ltb, Str, lit, str_eq, if◌then◌else◌, Option, none, some, List, [], ◌∷◌,
  ◌++◌, Outcome, done, ◌>>=◌, deref,
}
use p2ptest.Base.Dict.{Visit}
use p2ptest.Proto.{NodeId, NodeInfo}
use p2ptest.Addr.{decimal, first_addr}
use p2ptest.Config.{second}
use p2ptest.Registry
use p2ptest.Registry.{get_last_active, get_registered_at}
use p2ptest.ConnPool.{has_stream}
use p2ptest.Node.{Node, status_to_string}

abbrev pub minute : ℕ
minute = 60 * second

abbrev pub hour : ℕ
hour = 60 * minute

-- `formatDuration`, of a duration that is not negative
unfoldable pub format_duration : ℕ → Str
format_duration d =
    if ltb d minute
    then decimal (d / second) ++ lit "s"
    else if ltb d hour
    then decimal (d / minute) ++ lit "m" ++ decimal (d / second % 60) ++ lit "s"
    else decimal (d / hour) ++ lit "h" ++ decimal (d / minute % 60) ++ lit "m"

-- An entry of the map that is there only where its value is.
abbrev pub entry_of : Str → Option Str → List (Str × Str) → List (Str × Str)
entry_of key none rest = rest
entry_of key (some v) rest = (key, v) ∷ rest

abbrev pub text_of : (ℕ → Str) → Option ℕ → Option Str
text_of write none = none
text_of write (some t) = some (write t)

abbrev pub stream_text : Node → Option Str → Option Str
stream_text n none = none
stream_text n (some a) = some (if has_stream n.conn_pool a then lit "已连接" else lit "未连接")

-- The map of one peer, at the time `now`.
unfoldable pub peer_map : (ℕ → Str) → ℕ → Node → NodeInfo → NodeId → List (Str × Str)
unfolding format_duration
peer_map clock_text now n p id =
    (lit "name", id.name)
    ∷ (lit "uuid", id.uuid)
    ∷ entry_of (lit "addr") (first_addr p.addrs) (
        (lit "status", status_to_string p.status)
        ∷ entry_of (lit "last_active") (text_of clock_text (get_last_active n.registry id.uuid)) (
            entry_of (lit "online_for")
              (text_of (λ t. format_duration (now - t)) (get_registered_at n.registry id.uuid))
              (entry_of (lit "stream") (stream_text n (first_addr p.addrs)) [])))

-- The loop of `GetOnlinePeers`: `p.Id.Name` panics where the identity is nil.
unfoldable pub peer_maps : (ℕ → Str) → ℕ → Node → List NodeInfo → Outcome (List (List (Str × Str)))
unfolding peer_map
peer_maps clock_text now n [] = done []
peer_maps clock_text now n (p ∷ rest) = deref p.id >>= λ id.
    peer_maps clock_text now n rest >>= λ later. done (peer_map clock_text now n p id ∷ later)

-- `GetOnlinePeers`, whose calls of the clock read `now`.
unfoldable pub get_online_peers :
    (ℕ → Str) → ℕ → Visit (Str × NodeInfo) → Node → Outcome (List (List (Str × Str)))
unfolding peer_maps
get_online_peers clock_text now visit n =
    peer_maps clock_text now n (Registry.list n.registry visit)
