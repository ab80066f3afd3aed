-- ===== src/Registry.antt =====
-- internal/discovery/domain/registry.go: the registry of online peers. Every method holds the
-- registry's lock, so each is one step. The times are the readings of `time.Now()`, in
-- nanoseconds. `proto.Clone` is the identity on values, and no pointer is shared.
pub mod Invariant
pub mod Preserve
pub mod Lookup
pub mod ByName
pub mod Stale
pub mod Names
pub mod Tests
use p2ptest.Base.{
  ℕ, ◌-◌, ltb, Str, str_eq, Bool, true, false, ◌==◌, if◌then◌else◌, is_some, is_empty, Option, none,
  some, List, [], ◌∷◌, Outcome, done, ◌>>=◌, deref,
}
use p2ptest.Base.Dict
use p2ptest.Base.Dict.{Dict, Visit}
use p2ptest.Proto.{NodeStatus, NodeId, NodeAddr, NodeInfo}
use p2ptest.Addr.{
  Error, invalid_peer_info, peer_not_found, AddrResult, addr, failed, get_peer_first_addr,
  format_node_addr,
}

pub record Registry : Type 0 where
  pub online_peers : Dict Str NodeInfo
  pub last_active : Dict Str ℕ
  pub registered_at : Dict Str ℕ
  pub name_to_addrs : Dict Str (List Str)
  pub self_uuid : Str

-- `NewPeerRegistry`
unfoldable pub new : Str → Registry
new self_uuid = record {
  online_peers = Dict.empty;
  last_active = Dict.empty;
  registered_at = Dict.empty;
  name_to_addrs = Dict.empty;
  self_uuid = self_uuid;
}

-- `r.nameToAddrs[name]`, nil where there is none
abbrev pub addrs_at : Option (List Str) → List Str
addrs_at none = []
addrs_at (some addrs) = addrs

abbrev pub addrs_of : Registry → Str → List Str
addrs_of r name = addrs_at (Dict.get r.name_to_addrs name)

-- The search of a slice for a string.
unfoldable pub has_addr : List Str → Str → Bool
has_addr [] a = false
has_addr (x ∷ xs) a = if x == a then true else has_addr xs a

unfoldable pub append_addr : List Str → Str → List Str
append_addr [] a = a ∷ []
append_addr (x ∷ xs) a = x ∷ append_addr xs a

-- `addNameAddrUnlocked`
unfoldable pub add_name_addr : Registry → Str → Str → Registry
add_name_addr r name a = if has_addr (addrs_of r name) a then r else record r {
  name_to_addrs = Dict.put r.name_to_addrs name (append_addr (addrs_of r name) a);
}

-- `exists := r.onlinePeers[uuid] != nil`: a value of the map is never nil.
abbrev pub is_online : Registry → Str → Bool
is_online r uuid = is_some (Dict.get r.online_peers uuid)

-- The two writes that a registration always makes.
abbrev pub refresh : Registry → Str → NodeInfo → ℕ → Registry
refresh r uuid peer now = record r {
  online_peers = Dict.put r.online_peers uuid peer;
  last_active = Dict.put r.last_active uuid now;
}

-- What is done for a peer that was not there.
unfoldable pub enroll : Registry → NodeId → NodeInfo → ℕ → Registry
enroll r id peer now =
    let r' : Registry = record r { registered_at = Dict.put r.registered_at id.uuid now } in
    elim (get_peer_first_addr (some peer)) [ addr a ↦ add_name_addr r' id.name a | failed e ↦ r' ]

-- `Register`, past the tests of the peer's pointers. `now` and `now'` are the two readings of
-- the clock.
unfoldable pub register_id : Registry → NodeId → NodeInfo → ℕ → ℕ → Option Error × Registry
register_id r id peer now now' =
    if is_empty id.uuid
    then (some invalid_peer_info, r)
    else if id.uuid == r.self_uuid
    then (none, r)
    else if is_online r id.uuid
    then (none, refresh r id.uuid peer now)
    else (none, enroll (refresh r id.uuid peer now) id peer now')

unfoldable pub register : Registry → Option NodeInfo → ℕ → ℕ → Option Error × Registry
unfolding register_id
register r none now now' = (some invalid_peer_info, r)
register r (some peer) now now' = elim peer.id [
  | none ↦ (some invalid_peer_info, r)
  | some id ↦ register_id r id peer now now'
]

-- Whether one of the peer's addresses is written `a`.
unfoldable pub is_addr_of : List NodeAddr → Str → Bool
is_addr_of [] a = false
is_addr_of (x ∷ xs) a = if format_node_addr x.ip x.port == a then true else is_addr_of xs a

-- The loop over the old addresses: those that are not the peer's.
unfoldable pub keep_addrs : List NodeAddr → List Str → List Str
keep_addrs peer_addrs [] = []
keep_addrs peer_addrs (a ∷ as') =
    let rest = keep_addrs peer_addrs as' in if is_addr_of peer_addrs a then rest else a ∷ rest

abbrev pub store_addrs : Dict Str (List Str) → Str → List Str → Dict Str (List Str)
store_addrs m name [] = Dict.remove m name
store_addrs m name (a ∷ rest) = Dict.put m name (a ∷ rest)

-- `cleanNameAddrUnlocked`: `peer.Id.Name` panics where the identity is nil.
unfoldable pub clean_name_addr : Registry → NodeInfo → Outcome Registry
clean_name_addr r peer = do
  id ← deref peer.id
  done (record r {
    name_to_addrs =
        store_addrs r.name_to_addrs id.name (keep_addrs peer.addrs (addrs_of r id.name));
  })

-- The three deletions of `Unregister`.
abbrev pub forget : Registry → Str → Registry
forget r uuid = record r {
  online_peers = Dict.remove r.online_peers uuid;
  last_active = Dict.remove r.last_active uuid;
  registered_at = Dict.remove r.registered_at uuid;
}

-- `Unregister`: whether the peer was there. Its error is always nil.
unfoldable pub unregister : Registry → Str → Outcome (Bool × Registry)
unfolding clean_name_addr
unregister r uuid = elim (Dict.get r.online_peers uuid) [
  | none ↦ done (false, r)
  | some peer ↦ clean_name_addr r peer >>= λ r'. done (true, forget r' uuid)
]

-- `Get`
abbrev pub get : Registry → Str → Option NodeInfo
get r uuid = Dict.get r.online_peers uuid

-- The loop of `GetByName` over the entries in visiting order.
unfoldable pub first_by_name : Str → List (Str × NodeInfo) → Outcome (Option NodeInfo)
first_by_name name [] = done none
first_by_name name ((k, p) ∷ rest) =
    let later = first_by_name name rest in
    deref p.id >>= λ id. if id.name == name then done (some p) else later

-- `GetByName`
unfoldable pub get_by_name : Registry → Visit (Str × NodeInfo) → Str → Outcome (Option NodeInfo)
unfolding first_by_name
get_by_name r visit name = first_by_name name (visit r.online_peers.entries)

-- `GetLastActive`
abbrev pub get_last_active : Registry → Str → Option ℕ
get_last_active r uuid = Dict.get r.last_active uuid

-- `GetRegisteredAt`
abbrev pub get_registered_at : Registry → Str → Option ℕ
get_registered_at r uuid = Dict.get r.registered_at uuid

unfoldable pub values : List (Str × NodeInfo) → List NodeInfo
values [] = []
values ((k, p) ∷ rest) = p ∷ values rest

-- `List`
unfoldable pub list : Registry → Visit (Str × NodeInfo) → List NodeInfo
unfolding values
list r visit = values (visit r.online_peers.entries)

-- `UpdateLastActive`
unfoldable pub update_last_active : Registry → Str → ℕ → Registry
update_last_active r uuid now =
    if is_online r uuid then record r { last_active = Dict.put r.last_active uuid now } else r

-- `UpdateStatus`: the write through the stored pointer.
unfoldable pub update_status : Registry → Str → NodeStatus → Option Error × Registry
update_status r uuid status = elim (Dict.get r.online_peers uuid) [
  | none ↦ (some peer_not_found, r)
  | some peer ↦ (
    none,
    record r { online_peers = Dict.put r.online_peers uuid (record peer { status = status }) },
  )
]

-- `!exists || now.Sub(last) > threshold`, for a threshold that is not negative: where `last` is
-- later than `now` the difference of the source is negative, and here 0.
abbrev pub is_stale : Option ℕ → ℕ → ℕ → Bool
is_stale none now threshold = true
is_stale (some last) now threshold = ltb threshold (now - last)

unfoldable pub collect_stale : Registry → ℕ → ℕ → List (Str × NodeInfo) → List Str
collect_stale r now threshold [] = []
collect_stale r now threshold ((uuid, p) ∷ rest) =
    let later = collect_stale r now threshold rest in
    if is_stale (get_last_active r uuid) now threshold then uuid ∷ later else later

-- `GetStale`
unfoldable pub get_stale : Registry → Visit (Str × NodeInfo) → ℕ → ℕ → List Str
unfolding collect_stale
get_stale r visit now threshold = collect_stale r now threshold (visit r.online_peers.entries)

abbrev pub head_addr : List Str → AddrResult
head_addr [] = failed peer_not_found
head_addr (a ∷ rest) = addr a

-- `GetAddrByName`
unfoldable pub get_addr_by_name : Registry → Str → AddrResult
get_addr_by_name r name = head_addr (addrs_of r name)
