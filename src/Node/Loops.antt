-- ===== src/Node/Loops.antt =====
-- The loops of internal/node/node.go: `startHeartbeatLoop`, `startPeerCleaner` and `startGossipLoop`, whose
-- tickers fire whenever they will, and the goroutines that the first of them starts.
use p2ptest.Base.{
  ℕ, zero, suc, Str, Bool, true, false, not, ◌&&◌, if◌then◌else◌, Option, none, some, List, [], ◌∷◌,
  ◌++◌, Outcome, done, panic, ◌>>=◌,
}
use p2ptest.Base.Dict.{Visit}
use p2ptest.Proto.{NodeInfo, HeartbeatReq, HeartbeatResp}
use p2ptest.Crypto.{Ed25519, Identity}
use p2ptest.ConnPool.{Stream}
use p2ptest.Notifier.{Callback}
use p2ptest.Node.{Node, Moment, cleanup_stale_peers}
use p2ptest.Node.Peers.{Target, send_heartbeat_to_all_peers}
use p2ptest.Node.Remote.{Dial, send_heartbeat_to_peer, perform_gossip_round}

-- A node that is started: the heartbeats that wait to be sent, whether `stopChan` is closed, and which of the
-- three loops have not returned.
pub record Loops : Type 0 where
  pub node : Node
  pub waiting : List Target
  pub stopped : Bool
  pub beating : Bool
  pub cleaning : Bool
  pub gossiping : Bool

-- A loop that takes a tick, a goroutine that sends the heartbeat at a place among those that wait, the
-- end of `stopChan`, and a loop that sees it.
pub data Event : Type 0 where
  beat : Visit (Str × NodeInfo) → Event
  clean : Visit (Str × NodeInfo) → ℕ → (Str → Moment) → Event
  gossip :
      (ℕ → Visit (ℕ × Callback)) → Visit (Str × Stream) → ℕ → (Str → Option (List NodeInfo)) → Event
  send : Ed25519 → Identity → ℕ → Dial → (HeartbeatReq → Option HeartbeatResp) → ℕ → Event
  close_stop beat_returns clean_returns gossip_returns : Event

-- The element at a place, and the others.
unfoldable pub pick : ℕ → List Target → Option (Target × List Target)
pick i [] = none
pick zero (t ∷ rest) = some (t, rest)
pick (suc i) (t ∷ rest) = elim (pick i rest) [
  | none ↦ none
  | some (found, others) ↦ some (found, t ∷ others)
]

-- What happens at an event. A loop that has returned takes no tick, and no loop returns before
-- `stopChan` is closed; when it is, a tick may still be taken first. A second `close(n.stopChan)` panics.
unfoldable pub happen : Loops → Event → Outcome Loops
unfolding pick
happen s (beat visit) =
    if s.beating
    then (send_heartbeat_to_all_peers visit s.node >>= λ targets.
        done (record s { waiting = s.waiting ++ targets }))
    else done s
happen s (clean visit now moment) =
    if s.cleaning
    then (cleanup_stale_peers visit now moment s.node >>= λ out. done (record s { node = out.0 }))
    else done s
happen s (gossip visit visit' now answers) =
    if s.gossiping
    then done (record s { node = (perform_gossip_round visit visit' now answers s.node).0 })
    else done s
happen s (send e identity ts dial answer i) = elim (pick i s.waiting) [
  | none ↦ done s
  | some (t, others) ↦ send_heartbeat_to_peer e identity ts dial answer s.node t >>= λ n.
      done (record s { node = n; waiting = others })
]
happen s close_stop = if s.stopped then panic else done (record s { stopped = true })
happen s beat_returns = done (record s { beating = s.beating && not s.stopped })
happen s clean_returns = done (record s { cleaning = s.cleaning && not s.stopped })
happen s gossip_returns = done (record s { gossiping = s.gossiping && not s.stopped })

-- The number of times that the events close `stopChan`.
abbrev pub stops : List Event → ℕ
stops [] = 0
stops (close_stop ∷ rest) = suc (stops rest)
stops (beat visit ∷ rest) = stops rest
stops (clean visit now moment ∷ rest) = stops rest
stops (gossip visit visit' now answers ∷ rest) = stops rest
stops (send e identity ts dial answer i ∷ rest) = stops rest
stops (beat_returns ∷ rest) = stops rest
stops (clean_returns ∷ rest) = stops rest
stops (gossip_returns ∷ rest) = stops rest

-- The loops once `Start` has started them.
abbrev pub started : Node → Loops
started n = record {
  node = n;
  waiting = [];
  stopped = false;
  beating = true;
  cleaning = true;
  gossiping = true;
}

-- The events one after the other.
unfoldable pub run_loops : Loops → List Event → Outcome Loops
run_loops s [] = done s
run_loops s (x ∷ rest) = happen s x >>= λ s'. run_loops s' rest
