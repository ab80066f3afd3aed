-- ===== src/Node/FloodTests.antt =====
-- The theorem about announcements, for two services that announce to each other.
use p2ptest.Base.{ℕ, Str, lit, some, none, List, [], ◌∷◌, ◌≡◌, ◌+◌, refl, Returns, arith}
use p2ptest.Proto.{NodeInfo, unknown}
use p2ptest.Registry
use p2ptest.Registry.Tests.{same_order}
use p2ptest.Notifier
use p2ptest.Membership.{Service, Runtime}
use p2ptest.Node.Flood.{Message, flood, IsMember, unaware}
use p2ptest.Node.DiesOut.{flood_terminates}

abbrev rt : ℕ → Runtime
rt turn = record {
  active_at = turn;
  registered_at = turn;
  emitted_at = turn;
  emitted_again_at = turn;
  peers_order = same_order;
  callbacks_order = same_order;
  callbacks_order_again = same_order;
}

abbrev info_of : Str → NodeInfo
info_of uuid = record {
  id = some (record { uuid = uuid; name = uuid; public_key = [] });
  addrs = record { ip = lit "1"; port = 2 } ∷ [];
  status = unknown;
  last_seen = 0;
}

-- A new service, to whose notifier the node's callback is subscribed.
abbrev member : Str → Service
member uuid = record {
  registry = Registry.new uuid;
  self_info = some (info_of uuid);
  notifier = some (Notifier.subscribe (Notifier.new 100) 7).1;
  status_getter = none;
}

member-IsMember : (uuid : Str) → IsMember (member uuid)
unfolding Registry.new
member-IsMember uuid = record {
  self = info_of uuid;
  self_id = record { uuid = uuid; name = uuid; public_key = [] };
  has_self = refl;
  has_id = refl;
  own = refl;
}

abbrev members : List Service
members = member (97 ∷ []) ∷ member (98 ∷ []) ∷ []

abbrev both : ℕ → List ℕ
both turn = 0 ∷ 1 ∷ []

abbrev news : List Message
news = record { place = 0; info = info_of (99 ∷ []) } ∷ []

flood_terminates_example :
    Returns (λ out. out.0 ≡ []) (flood rt both (1 + unaware 2 (99 ∷ []) members) news members)
flood_terminates_example =
    flood_terminates (99 ∷ []) 2 rt both news members refl (λ turn. omega arith)
      (member-IsMember (97 ∷ []), (member-IsMember (98 ∷ []), tt))
      (record { id = _; has_id = refl; same = refl }, tt)
