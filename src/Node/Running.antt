-- ===== src/Node/Running.antt =====
-- What the loops of internal/node/node.go keep.
use mathlib.Core.List.{mem-cons}
use mathlib.Core.Logic.Or
use p2ptest.Base.{
  if◌then◌else◌, ap, arith, ◌+◌, ◌≤◌, ℕ, Str, Option, some, List, [], ◌∷◌, Mem, ◌≡◌, refl, sym, ◌∙◌,
  subst, Returns, Returns-bind, Returns-deref, Bool-cases, Option-cases, inl, inr,
}
use p2ptest.Base.Dict.{Visit, IsVisit}
use p2ptest.Proto.{NodeInfo}
use p2ptest.Registry
use p2ptest.Registry.{values}
use p2ptest.Registry.Invariant.{IsValid}
use p2ptest.Registry.ByName.{visited_sound}
use p2ptest.Notification.{Notification}
use p2ptest.Notifier.{Callback}
use p2ptest.Node.{Node, cleanup_stale_peers, clean_all}
use p2ptest.Node.Peers.{gossip_notifications, heartbeat_targets, send_heartbeat_to_all_peers}
use p2ptest.Node.Remote.{emit_all, gossip_rounds, send_heartbeat_to_peer, perform_gossip_round}
use p2ptest.Config.{heartbeat_timeout}
use p2ptest.Notifier
use p2ptest.Node.Pooled.{IsLive, clean_all-IsLive, send_heartbeat_to_peer-IsLive}
use p2ptest.Node.Loops.{
  Loops, Event, beat, clean, gossip, send, close_stop, beat_returns, clean_returns, gossip_returns,
  pick, happen, started, stops, run_loops,
}

-- Maps are visited as maps are: each entry once.
abbrev pub IsFair : Event → Type 0
IsFair (beat visit) = IsVisit visit
IsFair (clean visit now moment) = IsVisit visit
IsFair (gossip visit visit' now answers) = Unit
IsFair (send e identity ts dial answer i) = Unit
IsFair close_stop = Unit
IsFair beat_returns = Unit
IsFair clean_returns = Unit
IsFair gossip_returns = Unit

abbrev pub AreFair : List Event → Type 0
AreFair [] = Unit
AreFair (x ∷ rest) = IsFair x × AreFair rest

targets-Returns :
    (n : Node) (l : List (Str × NodeInfo))
    → IsValid n.registry
    → ((k : Str) (p : NodeInfo) → Mem (k, p) l → Registry.get n.registry k ≡ some p)
    → Returns (λ targets. Unit) (heartbeat_targets n (values l))
unfolding heartbeat_targets values
targets-Returns n [] v from = tt
targets-Returns n ((k, p) ∷ l) v from =
    let e = v.entry k p (from k p (mem-cons.1 (Or.inl refl))) in
    Returns-deref _ _ e.has_id (
      Returns-bind _ _ (heartbeat_targets n (values l)) _
        (targets-Returns n l v (λ j q m. from j q (mem-cons.1 (Or.inr m)))) (λ later h. tt))

-- A round of gossip changes nothing of the node but its notifier.
emit_all_lem :
    (visit : ℕ → Visit (ℕ × Callback)) (i : ℕ) (l : List Notification) (n : Node)
    → (emit_all visit i n l).0 ≡ record n { notifier = (emit_all visit i n l).0.notifier }
unfolding emit_all
emit_all_lem visit i [] n = refl
emit_all_lem visit i (x ∷ l) n =
    emit_all_lem visit i l (record n { notifier = (Notifier.emit n.notifier (visit i) x).0 })

gossip_rounds_lem :
    (visit : ℕ → Visit (ℕ × Callback)) (now : ℕ) (answers : Str → Option (List NodeInfo))
    (l : List Str) (n : Node)
    → (gossip_rounds visit now answers n l).0
      ≡ record n { notifier = (gossip_rounds visit now answers n l).0.notifier }
unfolding gossip_rounds
gossip_rounds_lem visit now answers [] n = refl
gossip_rounds_lem visit now answers (a ∷ l) n = elim (Option-cases (answers a)) [
  | inl failed ↦ rw (failed, gossip_rounds) (gossip_rounds_lem visit now answers l n)
  | inr (peers, answered) ↦
      let news = gossip_notifications now n peers in
      let told : Node = (emit_all visit 0 n news).0 in
      rw (answered, gossip_rounds)
        (gossip_rounds_lem visit now answers l told
          ∙ ap
              (λ (m : Node). record m {
                notifier = (gossip_rounds visit now answers told l).0.notifier;
              })
              (emit_all_lem visit 0 news n))
]

-- No step that the rest of the events asks for closes `stopChan` a second time.
abbrev StopsOnce : Loops → List Event → Type 0
StopsOnce s events = (if s.stopped then 1 else 0) + stops events ≤ 1

happen-IsLive :
    (s : Loops) (x : Event) (rest : List Event)
    → IsLive s.node
    → IsFair x
    → StopsOnce s (x ∷ rest)
    → Returns (λ s'. IsLive s'.node × StopsOnce s' rest) (happen s x)
unfolding happen send_heartbeat_to_all_peers Registry.list perform_gossip_round cleanup_stale_peers
happen-IsLive s (beat visit) rest live once h = elim (Bool-cases s.beating) [
  | inl on ↦
      rw (on, happen)
        (Returns-bind _ _ (heartbeat_targets s.node (Registry.list s.node.registry visit)) _
          (targets-Returns s.node _ live.0 (visited_sound live.0 visit once))
          (λ targets k. (live, h)))
  | inr off ↦ rw (off, happen) (live, h)
]
happen-IsLive s (clean visit now moment) rest live once h = elim (Bool-cases s.cleaning) [
  | inl on ↦
      rw (on, happen)
        (Returns-bind _ _
          (clean_all moment s.node (Registry.get_stale s.node.registry visit now heartbeat_timeout))
          _ (clean_all-IsLive moment s.node _ live) (λ out k. (k, h)))
  | inr off ↦ rw (off, happen) (live, h)
]
happen-IsLive s (gossip visit visit' now answers) rest live fair h = elim (Bool-cases s.gossiping) [
  | inl on ↦
      rw (on, happen) (subst IsLive (sym (gossip_rounds_lem visit now answers _ s.node)) live, h)
  | inr off ↦ rw (off, happen) (live, h)
]
happen-IsLive s (send e identity ts dial answer i) rest live fair h =
    elim (Option-cases (pick i s.waiting)) [
      | inl missing ↦ rw (missing, happen) (live, h)
      | inr ((t, others), picked) ↦
          rw (picked, happen)
            (Returns-bind _ _ (send_heartbeat_to_peer e identity ts dial answer s.node t) _
              (send_heartbeat_to_peer-IsLive e identity ts dial answer s.node t live)
              (λ n k. (k, h)))
    ]
happen-IsLive s close_stop rest live fair h = elim (Bool-cases s.stopped) [
  | inl twice ↦ absurd (ground (arith, twice, h))
  | inr first ↦ rw (first, happen) (live, ground (arith, first, h))
]
happen-IsLive s beat_returns rest live fair h = (live, h)
happen-IsLive s clean_returns rest live fair h = (live, h)
happen-IsLive s gossip_returns rest live fair h = (live, h)

run_from-IsLive :
    (events : List Event) (s : Loops)
    → IsLive s.node
    → AreFair events
    → StopsOnce s events
    → Returns (λ s'. IsLive s'.node) (run_loops s events)
unfolding run_loops
run_from-IsLive [] s live fair h = live
run_from-IsLive (x ∷ rest) s live fair h =
    Returns-bind _ _ (happen s x) _ (happen-IsLive s x rest live fair.0 h)
      (λ s' k. run_from-IsLive rest s' k.0 fair.1 k.1)

-- At a started node with a valid registry and no nil connection in its pool, for events that close `stopChan` at most
-- once, where maps are visited as a map is: whatever the three loops do, and the goroutines that send the
-- heartbeats, in whatever order and with whatever answers, before `stopChan` is closed and after it, none
-- panics, and at the end the registry is valid and no connection is nil.
pub run_loops-IsLive :
    (events : List Event) (n : Node)
    → IsLive n
    → AreFair events
    → stops events ≤ 1
    → Returns (λ s. IsLive s.node) (run_loops (started n) events)
run_loops-IsLive events n live fair h =
    run_from-IsLive events (started n) live fair (omega (arith, h))
