-- ===== src/Registry/Tests.antt =====
-- The theorems about the registry at concrete registries, and runs of its operations.
use mathlib.Core.List.Perm
use p2ptest.Base.{
  ◌≡◌, refl, ◌≢◌, str_eq, str_beq, Str, lit, true, false, none, some, [], ◌∷◌, List, Returns,
  if◌then◌else◌, is_some, ap, arith,
}
use p2ptest.Base.Dict
use p2ptest.Base.Dict.{Visit, IsVisit}
use p2ptest.Proto.{NodeId, NodeAddr, NodeInfo, online, busy}
use p2ptest.Addr.{addr, format_node_addr, decimal, get_peer_first_addr}
use p2ptest.Registry.{
  Registry, new, get, register, enroll, add_name_addr, append_addr, has_addr, unregister,
  get_addr_by_name, is_online, get_last_active, get_registered_at,
}
use p2ptest.Registry.Invariant.{IsValid, new-IsValid}
use p2ptest.Registry.Preserve.{Op, add, drop, touch, mark, run, run-IsValid, register-IsValid}
use p2ptest.Registry.Lookup.{get-register, get-unregister}

abbrev pub self_uuid : Str
self_uuid = 115 ∷ []

abbrev pub alice_id : NodeId
alice_id = record { uuid = 97 ∷ []; name = 65 ∷ []; public_key = [] }

abbrev pub alice_addr : NodeAddr
alice_addr = record { ip = 49 ∷ []; port = 50051 }

abbrev pub alice : NodeInfo
alice = record { id = some alice_id; addrs = alice_addr ∷ []; status = online; last_seen = 0 }

-- The same identity under another name.
abbrev pub renamed_id : NodeId
renamed_id = record { uuid = 97 ∷ []; name = 66 ∷ []; public_key = [] }

abbrev pub renamed : NodeInfo
renamed = record { id = some renamed_id; addrs = alice_addr ∷ []; status = online; last_seen = 0 }

abbrev pub start : Registry
start = new self_uuid

abbrev pub one : Registry
one = (register start (some alice) 1 2).1

pub one-IsValid : IsValid one
one-IsValid = register-IsValid (new-IsValid self_uuid) (some alice) 1 2

abbrev pub same_order {ℓ} : {A : Type ℓ} → Visit A
same_order l = l

pub same_order-IsVisit {ℓ} : {A : Type ℓ} → IsVisit {A = A} same_order
same_order-IsVisit l = Perm.refl l

abbrev script : List Op
script =
    add (some alice) 1 2
    ∷ touch (97 ∷ []) 5
    ∷ mark (97 ∷ []) busy
    ∷ add (some renamed) 6 7
    ∷ drop (97 ∷ [])
    ∷ []

pub get-one : get one (97 ∷ []) ≡ some alice
unfolding register enroll add_name_addr has_addr append_addr new Dict.get Dict.lookup Dict.put
    Dict.empty str_beq get_peer_first_addr
get-one = refl

one_addr : get_addr_by_name one (65 ∷ []) ≡ addr (lit "1:50051")
unfolding register enroll add_name_addr has_addr append_addr new Dict.get Dict.lookup Dict.put
    Dict.empty str_beq get_peer_first_addr get_addr_by_name format_node_addr decimal lit
one_addr = refl

run-IsValid_example : Returns IsValid (run (new self_uuid) script)
run-IsValid_example = run-IsValid self_uuid script

pub not_self : ◌≢◌ {A = Str} (97 ∷ []) self_uuid
not_self = ground arith

other_name : ◌≢◌ {A = Str} (66 ∷ []) (65 ∷ [])
other_name = ground arith

pub one_online : is_online one (97 ∷ []) ≡ true
one_online = ap is_some get-one

start_offline : is_online start (97 ∷ []) ≡ false
unfolding new Dict.get Dict.lookup Dict.empty
start_offline = refl

self-one : one.self_uuid ≡ self_uuid
unfolding register enroll add_name_addr has_addr append_addr new Dict.get Dict.lookup Dict.put
    Dict.empty str_beq get_peer_first_addr
self-one = refl

pub one_not_self : ◌≢◌ {A = Str} (97 ∷ []) one.self_uuid
one_not_self = rw self-one not_self

pub start_not_self : ◌≢◌ {A = Str} (97 ∷ []) start.self_uuid
unfolding new
start_not_self = not_self

get-register_example :
    let (err, r') = register one (some renamed) 6 7 in
    (err ≡ none)
    × (get r' (97 ∷ []) ≡ (if str_beq (97 ∷ []) (97 ∷ []) then some renamed else get one (97 ∷ [])))
    × (get_last_active r' (97 ∷ [])
        ≡ (if str_beq (97 ∷ []) (97 ∷ []) then some 6 else get_last_active one (97 ∷ [])))
    × (get_registered_at r' (97 ∷ []) ≡ (
        if str_beq (97 ∷ []) (97 ∷ [])
        then (if is_online one (97 ∷ []) then get_registered_at one (97 ∷ []) else some 7)
        else get_registered_at one (97 ∷ [])))
get-register_example = get-register one renamed_id renamed 6 7 (97 ∷ []) refl refl one_not_self

get-unregister_example :
    Returns
      (λ out.
        (out.0 ≡ is_online one (97 ∷ []))
        × (get out.1 (97 ∷ []) ≡ (if str_beq (97 ∷ []) (97 ∷ []) then none else get one (97 ∷ [])))
        × (get_last_active out.1 (97 ∷ [])
            ≡ (if str_beq (97 ∷ []) (97 ∷ []) then none else get_last_active one (97 ∷ [])))
        × (get_registered_at out.1 (97 ∷ [])
            ≡ (if str_beq (97 ∷ []) (97 ∷ []) then none else get_registered_at one (97 ∷ []))))
      (unregister one (97 ∷ []))
get-unregister_example = get-unregister one-IsValid (97 ∷ []) (97 ∷ [])
