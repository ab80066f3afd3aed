-- ===== src/Web/Keeping.antt =====
-- What internal/web/handlers.go keeps of the node, whatever it is asked.
use p2ptest.Base.{
  Str, lit, str_eq, ◌==◌, Option, none, some, List, [], ◌∷◌, Outcome, done, ◌>>=◌, Returns,
  Returns-bind, Bool-cases, Option-cases, inl, inr,
}
use p2ptest.Notification.{unmarshal, field}
use p2ptest.Services.{Services, Result, error, ok, ℤ}
use p2ptest.Web.{Request, Answer, Upgrader, posted, got}
use p2ptest.Web.Handlers.{
  named_or, literal, sent_answer, disconnect_answer, ping_answer, status_answer, send_fields,
  handle_send_message, broadcast_fields, handle_broadcast_message, connect_fields, handle_connect,
  disconnect_fields, handle_disconnect, handle_get_notifications, handle_get_messages, ping_fields,
  handle_ping, status_fields, handle_status, handle_get_peers,
}
use p2ptest.Web.Routes.{
  Route, get_peers, send_message, broadcast_message, connect, disconnect, get_notifications,
  get_messages, ping, status, ws, handle_web_socket, serve_route,
}

-- The services of a node keep `P`, and return where it holds.
pub record IsKeeping {S : Type 0} (P : S → Type 0) (srv : Services S) : Type 0 where
  pub lists : (s : S) → P s → Returns (λ rows. Unit) (srv.get_online_peers s)
  pub sends : (s : S) (a content : Str) → P s → P (srv.send_text_message s a content).1
  pub broadcasts : (s : S) (content : Str) → P s → P (srv.broadcast_message s content).1
  pub connects : (s : S) (a : Str) → P s → Returns (λ out. P out.1) (srv.connect_to_peer s a)
  pub disconnects :
      (s : S) (name : Str) → P s → Returns (λ out. P out.1) (srv.disconnect_peer s name)
  pub pings : (s : S) (a : Str) → P s → P (srv.send_ping s a).1
  pub sets : (s : S) (name : Str) → P s → P (srv.set_node_status s name).1

-- Requests that are served one after the other.
unfoldable pub serve_all :
    {S : Type 0} → Upgrader → Services S → S → List (Request × Route) → Outcome S
serve_all upgrade srv s [] = done s
serve_all upgrade srv s ((r, route) ∷ rest) =
    serve_route upgrade srv s r route >>= λ out. serve_all upgrade srv out.1 rest

module _ {S : Type 0} (P : S → Type 0) where
  sent-kept : (out : Option Str × S) → P out.1 → P (sent_answer out).1
  sent-kept (none, s) h = h
  sent-kept (some why, s) h = h

  disconnect-kept : (out : Result Str × S) → P out.1 → P (disconnect_answer out).1
  disconnect-kept (error why, s) h = h
  disconnect-kept (ok a, s) h = h

  ping-kept : (out : Result ℤ × S) → P out.1 → P (ping_answer out).1
  ping-kept (error why, s) h = h
  ping-kept (ok latency, s) h = h

  status-kept : (name : Str) (out : Option Str × S) → P out.1 → P (status_answer name out).1
  status-kept name (none, s) h = h
  status-kept name (some why, s) h = h

  posted-kept :
      (s : S) (r : Request) (handle : List (Str × Str) → Outcome (Answer S))
      → P s
      → ((f : List (Str × Str)) → Returns (λ out. P out.1) (handle f))
      → Returns (λ out. P out.1) (posted s r handle)
  unfolding posted
  posted-kept s r handle h k = elim (Bool-cases (r.method == lit "POST")) [
    | inr other ↦ rw (other, posted) h
    | inl post ↦ elim (Option-cases (unmarshal r.body)) [
      | inl unreadable ↦ rw (post, posted) (rw unreadable h)
      | inr (f, readable) ↦ rw (post, posted) (rw readable (k f))
    ]
  ]

  got-kept :
      (s : S) (r : Request) (answer : Outcome (Answer S))
      → P s
      → Returns (λ out. P out.1) answer
      → Returns (λ out. P out.1) (got s r answer)
  unfolding got
  got-kept s r answer h k = elim (Bool-cases (r.method == lit "GET")) [
    | inr other ↦ rw (other, got) h
    | inl get ↦ rw (get, got) k
  ]

module _ {S : Type 0} {P : S → Type 0} {srv : Services S} (keeping : IsKeeping P srv) (s : S)
    (h : P s) where
  send_fields-kept : (target content : Str) → P (send_fields srv s target content).1
  unfolding send_fields
  send_fields-kept [] content = h
  send_fields-kept (c ∷ t) [] = h
  send_fields-kept (c ∷ t) (d ∷ u) =
      elim (Option-cases (named_or (literal (c ∷ t)) (srv.get_addr_by_name s (c ∷ t)))) [
        | inl nowhere ↦ rw (nowhere, send_fields) h
        | inr (a, found) ↦
            rw (found, send_fields)
              (sent-kept P (srv.send_text_message s a (d ∷ u)) (keeping.sends s a (d ∷ u) h))
      ]

  broadcast_fields-kept : (content : Str) → P (broadcast_fields srv s content).1
  unfolding broadcast_fields
  broadcast_fields-kept [] = h
  broadcast_fields-kept (c ∷ t) = keeping.broadcasts s (c ∷ t) h

  connect_fields-kept : (a : Str) → Returns (λ out. P out.1) (connect_fields srv s a)
  unfolding connect_fields
  connect_fields-kept [] = h
  connect_fields-kept (c ∷ t) =
      Returns-bind _ _ (srv.connect_to_peer s (c ∷ t)) _ (keeping.connects s (c ∷ t) h)
        (λ out k. sent-kept P out k)

  disconnect_fields-kept : (name : Str) → Returns (λ out. P out.1) (disconnect_fields srv s name)
  unfolding disconnect_fields
  disconnect_fields-kept [] = h
  disconnect_fields-kept (c ∷ t) =
      Returns-bind _ _ (srv.disconnect_peer s (c ∷ t)) _ (keeping.disconnects s (c ∷ t) h)
        (λ out k. disconnect-kept P out k)

  ping_fields-kept : (target : Str) → P (ping_fields srv s target).1
  unfolding ping_fields
  ping_fields-kept [] = h
  ping_fields-kept (c ∷ t) = ping-kept P _ (keeping.pings s _ h)

  status_fields-kept : (name : Str) → P (status_fields srv s name).1
  unfolding status_fields
  status_fields-kept [] = h
  status_fields-kept (c ∷ t) = status-kept P (c ∷ t) _ (keeping.sets s (c ∷ t) h)

  handle_status-kept : (r : Request) → Returns (λ out. P out.1) (handle_status srv s r)
  unfolding handle_status
  handle_status-kept r = elim (Bool-cases (r.method == lit "GET")) [
    | inl get ↦ rw (get, handle_status) h
    | inr other ↦
        rw (other, handle_status)
          (posted-kept P s r _ h (λ f. status_fields-kept (field f (lit "status"))))
  ]

  pub serve_route-kept :
      (upgrade : Upgrader) (r : Request) (route : Route)
      → Returns (λ out. P out.1) (serve_route upgrade srv s r route)
  unfolding serve_route handle_web_socket handle_send_message handle_broadcast_message
      handle_connect handle_disconnect handle_ping handle_get_peers handle_get_notifications
      handle_get_messages
  serve_route-kept upgrade r get_peers =
      got-kept P s r _ h
        (Returns-bind _ _ (srv.get_online_peers s) _ (keeping.lists s h) (λ rows k. h))
  serve_route-kept upgrade r send_message =
      posted-kept P s r _ h
        (λ f. send_fields-kept (field f (lit "target")) (field f (lit "content")))
  serve_route-kept upgrade r broadcast_message =
      posted-kept P s r _ h (λ f. broadcast_fields-kept (field f (lit "content")))
  serve_route-kept upgrade r connect =
      posted-kept P s r _ h (λ f. connect_fields-kept (field f (lit "addr")))
  serve_route-kept upgrade r disconnect =
      posted-kept P s r _ h (λ f. disconnect_fields-kept (field f (lit "name")))
  serve_route-kept upgrade r get_notifications = got-kept P s r _ h h
  serve_route-kept upgrade r get_messages = got-kept P s r _ h h
  serve_route-kept upgrade r ping =
      posted-kept P s r _ h (λ f. ping_fields-kept (field f (lit "target")))
  serve_route-kept upgrade r status = handle_status-kept r
  serve_route-kept upgrade r ws = h

-- Whatever the services keep, and return by, holds after any requests, and all of them return.
pub serve_all-kept :
    {S : Type 0} {P : S → Type 0} {srv : Services S} (upgrade : Upgrader) (s : S)
    (requests : List (Request × Route))
    → IsKeeping P srv
    → P s
    → Returns P (serve_all upgrade srv s requests)
unfolding serve_all
serve_all-kept upgrade s [] keeping h = h
serve_all-kept {srv} upgrade s ((r, route) ∷ rest) keeping h =
    Returns-bind _ _ (serve_route upgrade srv s r route) _
      (serve_route-kept keeping s h upgrade r route)
      (λ out k. serve_all-kept upgrade out.1 rest keeping k)
