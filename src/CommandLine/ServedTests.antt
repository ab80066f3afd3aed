-- ===== src/CommandLine/ServedTests.antt =====
-- The theorem about a node behind the dashboard, at a concrete node and concrete requests.
use p2ptest.Base.{Str, lit, some, true, List, [], ◌∷◌, Returns}
use p2ptest.Notification.{object}
use p2ptest.Registry.Tests.{one-IsValid, same_order, same_order-IsVisit}
use p2ptest.Registry.Invariant.{IsValid}
use p2ptest.Node.Tests
use p2ptest.Client.Tests.{node, stamp, reachable}
use p2ptest.Client.Joining.{unreachable}
use p2ptest.Web.{Request, Upgrader, refused}
use p2ptest.Web.Routes.{Route, connect, disconnect, ping, get_peers}
use p2ptest.Web.Keeping.{serve_all}
use p2ptest.CommandLine.Adapter.{Running, Environment, node_services}
use p2ptest.CommandLine.Served.{IsFair, node_stays-IsValid}

abbrev environment : Environment
environment = record {
  sender = node;
  self_addr = lit "1:2";
  sends = λ turn stream env. true;
  why = λ turn. lit "closed";
  stamps = λ turn i. stamp;
  streams_order = λ turn. same_order;
  peers_order = λ turn. same_order;
  moment = λ turn. Tests.moment [];
  now = λ turn. 50;
  clock_text = λ t. [];
  random = λ turn. some (1 ∷ []);
  meanwhile = λ turn. [];
  chosen = λ turn. true;
  seed_stamps = λ turn. record { active_at = 1; registered_at = 2 };
  clock = λ turn i. record { active_at = 1; registered_at = 2 };
  dial = λ turn. reachable;
  answer = λ turn addr. unreachable (lit "refused");
}

environment-IsFair : IsFair environment
environment-IsFair = record {
  peers_once = λ turn. same_order-IsVisit;
  answers_named = λ turn addr. tt;
}

abbrev running : Running
running = record { node = Tests.node; turn = 0 }

abbrev post : List (Str × Str) → Request
post fields = record { method = lit "POST"; body = object fields }

abbrev requests : List (Request × Route)
requests =
    (post ((lit "addr", lit "1:3") ∷ []), connect)
    ∷ (post ((lit "target", lit "A") ∷ []), ping)
    ∷ (post ((lit "name", lit "A") ∷ []), disconnect)
    ∷ (record { method = lit "GET"; body = object [] }, get_peers)
    ∷ []

abbrev refusing : Upgrader
refusing r = refused 400 (lit "Bad Request")

node_stays-IsValid_example :
    Returns
      (λ out. IsValid out.node.registry)
      (serve_all refusing (node_services environment) running requests)
node_stays-IsValid_example =
    node_stays-IsValid refusing environment running requests environment-IsFair one-IsValid
