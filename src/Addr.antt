-- ===== src/Addr.antt =====
-- Addresses: `formatNodeAddr` and `getPeerFirstAddr`, which internal/discovery/domain/registry.go
-- and internal/node/node.go declare each for itself, in the same words, and the error values of
-- internal/types/errors.go.
mod Tests
pub mod Parse
pub mod Digits
pub mod RoundTrip
use p2ptest.Base.{
  ℕ, zero, suc, ◌+◌, ◌/◌, ◌%◌, ◌^◌, Str, lit, List, [], ◌∷◌, ◌++◌, ltb, if◌then◌else◌, Option, none,
  some, ◌≡◌, refl,
}
use p2ptest.Proto.{NodeAddr, NodeInfo}

pub data Error : Type 0 where
  no_valid_node_address invalid_peer_info peer_not_found : Error

-- `err.Error()`
unfoldable pub message : Error → Str
message no_valid_node_address = lit "no valid node address"
message invalid_peer_info = lit "invalid peer info"
message peer_not_found = lit "peer not found"

-- `%d` of a number that is not negative, on fuel: the number has at most as many digits as its
-- value plus one.
unfoldable pub decimal_from : ℕ → ℕ → Str
decimal_from zero n = []
decimal_from (suc fuel) n =
    let rest = decimal_from fuel (n / 10) ++ (b'0' + n % 10) ∷ [] in
    if ltb n 10 then (b'0' + n) ∷ [] else rest

unfoldable pub decimal : ℕ → Str
unfolding decimal_from
decimal n = decimal_from (suc n) n

-- `fmt.Sprintf("%s:%d", ip, port)`: the port is a `uint32`.
unfoldable pub format_node_addr : Str → ℕ → Str
format_node_addr ip port = ip ++ b':' ∷ decimal (port % 2 ^ 32)

-- The address, or the error.
pub data AddrResult : Type 0 where
  addr : Str → AddrResult
  failed : Error → AddrResult

-- `formatNodeAddr(peer.Addrs[0].Ip, peer.Addrs[0].Port)` where there is an address.
unfoldable pub first_addr : List NodeAddr → Option Str
first_addr [] = none
first_addr (a ∷ rest) = some (format_node_addr a.ip a.port)

unfoldable pub get_peer_first_addr : Option NodeInfo → AddrResult
unfolding first_addr
get_peer_first_addr none = failed no_valid_node_address
get_peer_first_addr (some peer) = elim (first_addr peer.addrs) [
  | none ↦ failed no_valid_node_address
  | some a ↦ addr a
]

format_seed : format_node_addr (lit "127.0.0.1") 50051 ≡ lit "127.0.0.1:50051"
unfolding format_node_addr decimal lit
format_seed = refl
