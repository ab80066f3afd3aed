-- ===== src/Discovery.antt =====
-- internal/discovery/application/service.go: the Discovery service, which only reads the registry.
pub mod Answers
mod Tests
use p2ptest.Base.{
  ℕ, ltb, Str, Bool, true, false, ◌&&◌, if◌then◌else◌, is_some, Option, none, some, List, length,
  take,
}
use p2ptest.Base.Dict.{Visit}
use p2ptest.Proto.{NodeInfo, GetPeersReq, GetPeersResp, FindNodeReq, FindNodeResp}
use p2ptest.Registry
use p2ptest.Registry.{Registry}

-- The number of peers asked for: `req != nil && req.Limit > 0 && int(req.Limit) < len(peers)`.
unfoldable pub limited : Option GetPeersReq → List NodeInfo → List NodeInfo
limited none peers = peers
limited (some req) peers =
    if ltb 0 req.limit && ltb req.limit (length peers) then take req.limit peers else peers

-- `GetPeers`
unfoldable pub get_peers : Registry → Visit (Str × NodeInfo) → Option GetPeersReq → GetPeersResp
unfolding limited
get_peers r visit req = record { peers = limited req (Registry.list r visit) }

unfoldable pub find_uuid : Registry → Str → FindNodeResp
find_uuid r uuid = record { node = Registry.get r uuid; found = is_some (Registry.get r uuid) }

-- `FindNode`
unfoldable pub find_node : Registry → Option FindNodeReq → FindNodeResp
unfolding find_uuid
find_node r none = record { node = none; found = false }
find_node r (some req) = elim req.target [
  | none ↦ record { node = none; found = false }
  | some target ↦ find_uuid r target.uuid
]
