-- ===== src/Node/Tests.antt =====
-- The theorems about the node at a concrete node.
use p2ptest.Base.{
  Str, str_eq, nat_eq, Option, some, none, List, [], ◌∷◌, ◌≡◌, ◌≢◌, arith, Returns, ℕ, lit, refl,
}
use p2ptest.Base.Dict
use p2ptest.Base.Dict.{get-empty}
use p2ptest.Proto.{online}
use p2ptest.Addr.{decimal}
use p2ptest.Node.Listing.{format_duration}
use p2ptest.Config.{heartbeat_timeout}
use p2ptest.Notifier
use p2ptest.Registry
use p2ptest.Registry.Stale.{IsExpired}
use p2ptest.Registry.Invariant
use p2ptest.Registry.Tests.{alice_id, one, one-IsValid, same_order, same_order-IsVisit}
use p2ptest.ConnPool
use p2ptest.Node.{Node, Moment, cleanup_stale_peers}
use p2ptest.Node.Cleaning.{cleanup_effects}
use p2ptest.Node.Pings.{IsValid, PingOp, sent, canceled, answered}

-- A node that knows one peer.
abbrev pub node : Node
node = record {
  node_id = alice_id;
  self_status = online;
  registry = one;
  conn_pool = ConnPool.new;
  notifier = Notifier.new 100;
  pending_pings = Dict.empty;
  channels = Dict.empty;
  next_channel = 0;
}

none-some {ℓ} : {A : Type ℓ} {o : Option A} {a : A} → o ≡ none → o ≡ some a → ⊥
none-some p q = cc

pub node-IsValid : IsValid node
node-IsValid = record {
  made = λ k ch h. absurd (none-some (get-empty k) h);
  unfilled = λ k ch h. get-empty ch;
  filled_made = λ ch rtt h. absurd (none-some (get-empty ch) h);
  own = λ a b ch h h'. absurd (none-some (get-empty a) h);
}

abbrev pub moment : Str → Moment
moment uuid = record { emitted_at = 9; callbacks_order = same_order }

cleanup_effects_example :
    Returns
      (λ out.
        Invariant.IsValid out.0.registry
        × (IsExpired one 40000000000 heartbeat_timeout (97 ∷ [])
            → Registry.get out.0.registry (97 ∷ []) ≡ none)
        × (¬ (IsExpired one 40000000000 heartbeat_timeout (97 ∷ []))
            → Registry.get out.0.registry (97 ∷ []) ≡ Registry.get one (97 ∷ [])))
      (cleanup_stale_peers same_order 40000000000 moment node)
cleanup_effects_example =
    cleanup_effects same_order 40000000000 moment node (97 ∷ []) one-IsValid same_order-IsVisit

abbrev others : List PingOp
others = sent (2 ∷ []) ∷ answered (2 ∷ []) 5 6 ∷ canceled (3 ∷ []) ∷ []

nonce_differs : ◌≢◌ {A = Str} (2 ∷ []) (1 ∷ [])
nonce_differs = ground arith

nonce_differs' : ◌≢◌ {A = Str} (3 ∷ []) (1 ∷ [])
nonce_differs' = ground arith

abbrev plain : ℕ → Str
plain t = 58 ∷ []

days : format_duration 200000000000000 ≡ lit "55h33m"
unfolding format_duration decimal lit
days = refl
