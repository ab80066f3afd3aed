-- ===== src/Discovery/Answers.antt =====
-- What the answers of internal/discovery/application/service.go mean for the registry.
use p2ptest.Base.{
  ℕ, zero, suc, ◌≡◌, ◌⊎◌, refl, ltb, ◌==◌, nat_eq, Str, Bool, true, false, is_some, ◌&&◌,
  if◌then◌else◌, Option, none, some, List, [], ◌∷◌, length, take, length-take, Mem, arith, ap,
  Option-cases, inl, inr,
}
use Prim.Native.Nat.{min}
use mathlib.Core.List.{mem-cons, not-mem-nil, Mem-prop}
use mathlib.Core.Logic.Or
use p2ptest.Base.Dict.{Visit, IsVisit}
use p2ptest.Proto.{NodeId, NodeInfo, GetPeersReq}
use p2ptest.Registry
use p2ptest.Registry.{Registry}
use p2ptest.Registry.Invariant.{IsValid, IsEntry}
use p2ptest.Registry.Stale.{IsStored, mem-list}
use p2ptest.Discovery.{limited, get_peers, find_node}

mem-take : (p : NodeInfo) (k : ℕ) (l : List NodeInfo) → Mem p (take k l) → Mem p l
mem-take p zero l m = absurd (not-mem-nil m)
mem-take p (suc k) [] m = m
mem-take p (suc k) (x ∷ l) m =
    Or.elim Mem-prop (mem-cons.0 m) (λ e. mem-cons.1 (Or.inl e))
      (λ h. mem-cons.1 (Or.inr (mem-take p k l h)))

mem-if :
    (b : Bool) (k : ℕ) (p : NodeInfo) (l : List NodeInfo)
    → Mem p (if b then take k l else l)
    → Mem p l
mem-if true k p l m = mem-take p k l m
mem-if false k p l m = m

mem-limited :
    (req : Option GetPeersReq) (p : NodeInfo) (l : List NodeInfo) → Mem p (limited req l) → Mem p l
unfolding limited
mem-limited none p l m = m
mem-limited (some req) p l m = mem-if (ltb 0 req.limit && ltb req.limit (length l)) req.limit p l m

-- `GetPeers` with a limit that is not 0 answers with as many peers as are online, but at most the limit; without one, or with 0, it answers with all. Every peer that it answers with is stored in the
-- registry under its own identity, whatever the visiting order.
pub get_peers_lem :
    {r : Registry} (visit : Visit (Str × NodeInfo)) (limit : ℕ) (p : NodeInfo)
    → IsValid r
    → IsVisit visit
    → (length (get_peers r visit (some (record { limit = limit }))).peers ≡ (
        if limit == 0
        then length (Registry.list r visit)
        else min limit (length (Registry.list r visit))))
      × (Mem p (get_peers r visit (some (record { limit = limit }))).peers → IsStored r p)
      × ((get_peers r visit none).peers ≡ Registry.list r visit)
unfolding get_peers
get_peers_lem {r} visit limit p v once = (
  ground (arith, length-take limit (Registry.list r visit)),
  λ m.
      (mem-list visit p v once).0
        (mem-limited (some (record { limit = limit })) p (Registry.list r visit) m),
  refl,
)

-- `FindNode` on a valid registry says `found` exactly if it answers with a node, and that node has
-- the identity that was asked for.
pub find_node_lem :
    {r : Registry} (target : NodeId)
    → IsValid r
    → let resp = find_node r (some (record { target = some target })) in
      ((resp.found ≡ false) × (resp.node ≡ none))
      ⊎ ((p : NodeInfo) × (id : NodeId) × (resp.found ≡ true)
          × (resp.node ≡ some p)
          × (p.id ≡ some id)
          × (id.uuid ≡ target.uuid))
unfolding find_node
find_node_lem {r} target v = elim (Option-cases (Registry.get r target.uuid)) [
  | inl off ↦ inl (ap is_some off, off)
  | inr (p, on) ↦
      let e : IsEntry r.self_uuid target.uuid p = v.entry target.uuid p on in
      inr (p, e.id, ap is_some on, on, e.has_id, e.same_uuid)
]
