-- ===== src/Node/Cleaning.antt =====
-- What `cleanupStalePeers` of internal/node/node.go does.
use mathlib.Core.List.{mem-cons, not-mem-nil}
use mathlib.Core.Logic.Or
use p2ptest.Base.{
  ℕ, Str, str_eq, str_beq_iff, ◌==◌, Bool, true, false, if◌then◌else◌, none, List, [], ◌∷◌, ◌≡◌,
  ◌↔◌, refl, sym, arith, Mem, Bool-cases, Option-cases, inl, inr, Returns, Returns-bind,
  Returns-both, Returns-weaken, Returns-deref,
}
use p2ptest.Base.Dict.{Visit, IsVisit, get-put}
use p2ptest.Proto.{NodeInfo, offline}
use p2ptest.Config.{heartbeat_timeout}
use p2ptest.Registry.{Registry, get, is_online, update_status, unregister, has_addr, get_stale}
use p2ptest.Registry.Invariant.{IsValid}
use p2ptest.Registry.Preserve.{update_status-IsValid, unregister-IsValid}
use p2ptest.Registry.Lookup.{get-unregister}
use p2ptest.Registry.Stale.{IsExpired, mem-get_stale}
use p2ptest.Node.{Node, Effects, Moment, clean_one, clean_all, cleanup_stale_peers, announce_stale}

-- A status that changes leaves the others, and everyone online.
get-update_status :
    (r : Registry) (uuid k : Str)
    → (is_online (update_status r uuid offline).1 k ≡ is_online r k)
      × ((uuid == k) ≡ false → get (update_status r uuid offline).1 k ≡ get r k)
unfolding update_status
get-update_status r uuid k = elim (Option-cases (get r uuid)) [
  | inl off ↦ ground (arith, off)
  | inr (p, on) ↦
      ground (
        arith,
        on,
        get-put r.online_peers uuid k (record p { status = offline }),
        str_beq_iff uuid k,
      )
]

registry-announce_stale :
    (m : Moment) (n : Node) (name addr : Str)
    → (announce_stale m n name addr).0.registry ≡ n.registry
unfolding announce_stale
registry-announce_stale m n name addr = refl

-- The registry after the round for one identity.
abbrev pub IsCleaned : Registry → Str → Str → Node × Effects → Type 0
IsCleaned r uuid k out =
    IsValid out.0.registry × (get out.0.registry k ≡ (if uuid == k then none else get r k))

pub clean_one-IsCleaned :
    (m : Moment) (n : Node) (uuid k : Str)
    → IsValid n.registry
    → Returns (IsCleaned n.registry uuid k) (clean_one m n uuid)
unfolding clean_one announce_stale
clean_one-IsCleaned m n uuid k v = elim (Option-cases (get n.registry uuid)) [
  | inl off ↦ rw (off, clean_one) (v, ground (arith, off, str_beq_iff uuid k))
  | inr (p, on) ↦
      let r : Registry = (update_status n.registry uuid offline).1 in
      let w : IsValid r = update_status-IsValid v uuid offline in
      rw (on, clean_one)
        (Returns-deref _ _ (v.entry uuid p on).has_id (
          Returns-bind _ _ (unregister r uuid) _
            (Returns-both _ _ (unregister r uuid) (get-unregister w uuid k)
              (unregister-IsValid w uuid))
            (λ out h.
              let left : get out.1 k ≡ (if uuid == k then none else get n.registry k) =
                ground (arith, h.0, get-update_status n.registry uuid k) in
              elim (Bool-cases out.0) [
                | inl removed ↦ rw removed (h.1, left)
                | inr absent ↦ rw absent (h.1, left)
              ])))
]

-- The registry after the loop over some identities.
abbrev IsSwept : Registry → List Str → Str → Node × Effects → Type 0
IsSwept r uuids k out =
    IsValid out.0.registry × (get out.0.registry k ≡ (if has_addr uuids k then none else get r k))

clean_all-IsSwept :
    (moment : Str → Moment) (n : Node) (uuids : List Str) (k : Str)
    → IsValid n.registry
    → Returns (IsSwept n.registry uuids k) (clean_all moment n uuids)
unfolding clean_all has_addr
clean_all-IsSwept moment n [] k v = (v, refl)
clean_all-IsSwept moment n (uuid ∷ rest) k v =
    Returns-bind _ _ (clean_one (moment uuid) n uuid) _
      (clean_one-IsCleaned (moment uuid) n uuid k v)
      (λ out cleaned.
        Returns-bind _ _ (clean_all moment out.0 rest) _
          (clean_all-IsSwept moment out.0 rest k cleaned.0)
          (λ out' swept. (swept.0, ground (arith, swept.1, cleaned.1))))

true_and_false : {b : Bool} → b ≡ true → b ≡ false → ⊥
true_and_false p q = cc

Bool-prop : {b : Bool} → IsProp (b ≡ true)
Bool-prop = hlevel

-- The search of a list tells membership.
has_addr-mem : (l : List Str) (k : Str) → (has_addr l k ≡ true) ↔ Mem k l
unfolding has_addr
has_addr-mem [] k = (λ h. absurd (true_and_false h refl), λ m. absurd (not-mem-nil m))
has_addr-mem (x ∷ l) k = elim (Bool-cases (x == k)) [
  | inl same ↦
      let e : x ≡ k = (str_beq_iff x k).0 same in
      rw same (λ h. mem-cons.1 (Or.inl (sym e)), λ m. refl)
  | inr other ↦ rw other (
    λ h. mem-cons.1 (Or.inr ((has_addr-mem l k).0 h)),
    λ m.
        Or.elim Bool-prop (mem-cons.0 m)
          (λ e. absurd (true_and_false ((str_beq_iff x k).1 (sym e)) other))
          (λ m'. (has_addr-mem l k).1 m'),
  )
]

-- A cleaning of a node with a valid registry returns, and leaves a valid registry: the peers
-- without activity for longer than the heartbeat timeout are gone, and every other one is as it
-- was.
pub cleanup_effects :
    (visit : Visit (Str × NodeInfo)) (now : ℕ) (moment : Str → Moment) (n : Node) (k : Str)
    → IsValid n.registry
    → IsVisit visit
    → Returns
        (λ out.
          IsValid out.0.registry
          × (IsExpired n.registry now heartbeat_timeout k → get out.0.registry k ≡ none)
          × (¬ (IsExpired n.registry now heartbeat_timeout k)
              → get out.0.registry k ≡ get n.registry k))
        (cleanup_stale_peers visit now moment n)
unfolding cleanup_stale_peers
cleanup_effects visit now moment n k v once =
    let uuids = get_stale n.registry visit now heartbeat_timeout in
    let listed = mem-get_stale visit now heartbeat_timeout k v once in
    Returns-weaken _ _ (clean_all moment n uuids) (clean_all-IsSwept moment n uuids k v)
      (λ out swept. (
        swept.0,
        λ expired. ground (arith, swept.1, (has_addr-mem uuids k).1 (listed.1 expired)),
        λ active. elim (Bool-cases (has_addr uuids k)) [
          | inl found ↦ absurd (active (listed.0 ((has_addr-mem uuids k).0 found)))
          | inr missing ↦ ground (arith, swept.1, missing)
        ],
      ))
