-- ===== src/Console/Agreement.antt =====
-- The commands of internal/console/console.go and the handlers of internal/web/handlers.go do the same to the node.
use p2ptest.Base.{
  Str, lit, str_eq, true, false, is_empty, contains, Option, none, some, List, [], ◌∷◌, ◌≡◌, refl,
  Outcome, done, panic, Option-cases, inl, inr, sym, ap, ◌∙◌, ◌>>=◌, subst, str_beq,
}
use p2ptest.Base.Fields.{fields, join_words, AreWords, fields-AreWords}
use p2ptest.Addr.{AddrResult, addr, failed}
use p2ptest.Notification.{object, field}
use p2ptest.Services.{Result, error, ok, ℤ}
use p2ptest.Console.{Screen}
use p2ptest.Console.Commands.{
  Backend, Ran, resolve, ping_target, send_to, handle_send, handle_command, run_words, dispatch,
  handle_broadcast, handle_ping, handle_disconnect, handle_status, handle_connect, connect_to,
}
use p2ptest.Web.{Request, Upgrader, Answer, posted}
use p2ptest.Web.Handlers
use p2ptest.Web.Handlers.{
  named_or, literal, target_or, send_fields, handle_send_message, broadcast_fields,
  handle_broadcast_message, ping_fields, disconnect_fields, status_fields, connect_fields,
  sent_answer, ping_answer, status_answer, disconnect_answer,
}
use p2ptest.Web.Routes.{
  Route, send_message, broadcast_message, connect, disconnect, ping, status, serve_route,
}

-- Both find the same address for a message, and for a ping.
resolve_lem : (r : AddrResult) (target : Str) → named_or (literal target) r ≡ resolve r target
unfolding named_or resolve
resolve_lem (failed e) target = refl
resolve_lem (addr a) target = refl

ping_target_lem :
    (r : AddrResult) (target : Str) → target_or target (named_or none r) ≡ ping_target r target
unfolding named_or ping_target
ping_target_lem (failed e) target = refl
ping_target_lem (addr []) target = refl
ping_target_lem (addr (c ∷ a)) target = refl

-- What a user asks for, with the words that the console reads.
pub data Order : Type 0 where
  to_send : (target w : Str) (words : List Str) → Order
  to_broadcast : (w : Str) (words : List Str) → Order
  to_disconnect : (name : Str) → Order
  to_ping : (target : Str) → Order
  to_be : (state : Str) → Order
  to_connect : (address : Str) → contains b':' address ≡ true → Order

abbrev pub as_words : Order → List Str
as_words (to_send target w words) = lit "send" ∷ target ∷ w ∷ words
as_words (to_broadcast w words) = lit "broadcast" ∷ w ∷ words
as_words (to_disconnect name) = lit "disconnect" ∷ name ∷ []
as_words (to_ping target) = lit "ping" ∷ target ∷ []
as_words (to_be state) = lit "status" ∷ state ∷ []
as_words (to_connect address colon) = lit "connect" ∷ address ∷ []

abbrev post : List (Str × Str) → Request
post fields = record { method = lit "POST"; body = object fields }

abbrev pub as_request : Order → Route × Request
as_request (to_send target w words) =
    (send_message, post ((lit "target", target) ∷ (lit "content", join_words (w ∷ words)) ∷ []))
as_request (to_broadcast w words) =
    (broadcast_message, post ((lit "content", join_words (w ∷ words)) ∷ []))
as_request (to_disconnect name) = (disconnect, post ((lit "name", name) ∷ []))
as_request (to_ping target) = (ping, post ((lit "target", target) ∷ []))
as_request (to_be state) = (status, post ((lit "status", state) ∷ []))
as_request (to_connect address colon) = (connect, post ((lit "addr", address) ∷ []))

-- The node after a command, and after a request.
abbrev pub after_command : {S : Type 0} → Outcome (Ran S) → Outcome S
after_command o = o >>= λ out. done out.state

abbrev pub after_request : {S : Type 0} → Outcome (Answer S) → Outcome S
after_request o = o >>= λ out. done out.1

true-false : true ≡ false → ⊥
true-false e = cc

filled_join :
    (w : Str) (words : List Str) → is_empty w ≡ false → is_empty (join_words (w ∷ words)) ≡ false
unfolding join_words
filled_join [] words h = absurd (true-false h)
filled_join (c ∷ w) [] h = refl
filled_join (c ∷ w) (v ∷ words) h = refl

false-true : false ≡ true → ⊥
false-true e = cc

module _ {S : Type 0} where
  state-sent : (out : Option Str × S) → (sent_answer out).1 ≡ out.1
  state-sent (none, s) = refl
  state-sent (some why, s) = refl

  state-ping : (out : Result ℤ × S) → (ping_answer out).1 ≡ out.1
  state-ping (error why, s) = refl
  state-ping (ok latency, s) = refl

  state-status : (name : Str) (out : Option Str × S) → (status_answer name out).1 ≡ out.1
  state-status name (none, s) = refl
  state-status name (some why, s) = refl

  state-disconnect : (out : Result Str × S) → (disconnect_answer out).1 ≡ out.1
  state-disconnect (error why, s) = refl
  state-disconnect (ok a, s) = refl

  disconnected_same :
      (o : Outcome (Result Str × S)) (f : Result Str × S → Ran S)
      → ((out : Result Str × S) → (f out).state ≡ out.1)
      → after_command (o >>= λ out. done (f out))
        ≡ after_request (o >>= λ out. done (disconnect_answer out))
  disconnected_same (done out) f h = ap done (h out ∙ sym (state-disconnect out))
  disconnected_same panic f h = refl

  connected_same :
      (o : Outcome (Option Str × S)) (f : Option Str × S → Ran S)
      → ((out : Option Str × S) → (f out).state ≡ out.1)
      → after_command (o >>= λ out. done (f out))
        ≡ after_request (o >>= λ out. done (sent_answer out))
  connected_same (done out) f h = ap done (h out ∙ sym (state-sent out))
  connected_same panic f h = refl

module _ {S : Type 0} (upgrade : Upgrader) (b : Backend S) (m : Screen) (s : S) where
  send_agrees :
      (target content : Str)
      → is_empty target ≡ false
      → is_empty content ≡ false
      → (send_to b m s target content).state ≡ (send_fields b.services s target content).1
  unfolding send_to send_fields
  send_agrees target content some_target some_content =
      let r : AddrResult = b.services.get_addr_by_name s target in
      elim (Option-cases (resolve r target)) [
        | inl nowhere ↦
            rw (nowhere, send_to)
              (rw (some_target, some_content, resolve_lem r target, nowhere, send_fields) refl)
        | inr (a, found) ↦
            rw (found, send_to)
              (rw (some_target, some_content, resolve_lem r target, found, send_fields)
                (sym (state-sent (b.services.send_text_message s a content))))
      ]

  ping_agrees :
      (target : Str)
      → is_empty target ≡ false
      → b.has_ping ≡ true
      → (handle_ping b m s (target ∷ [])).state ≡ (ping_fields b.services s target).1
  unfolding handle_ping ping_fields
  ping_agrees target some_target there =
      rw (there, handle_ping)
        (rw
          (some_target, ping_target_lem (b.services.get_addr_by_name s target) target, ping_fields)
          (sym (
            state-ping (
              b.services.send_ping s (ping_target (b.services.get_addr_by_name s target) target)))))

  disconnect_agrees :
      (name : Str)
      → is_empty name ≡ false
      → after_command (handle_disconnect b m s (name ∷ []))
        ≡ after_request (disconnect_fields b.services s name)
  unfolding handle_disconnect disconnect_fields
  disconnect_agrees name some_name =
      rw (some_name, disconnect_fields)
        (disconnected_same (b.services.disconnect_peer s name) _ (λ out. refl))

  connect_agrees :
      (a : Str)
      → contains b':' a ≡ true
      → after_command (handle_connect b m s (a ∷ []))
        ≡ after_request (connect_fields b.services s a)
  unfolding handle_connect connect_fields connect_to
  connect_agrees [] colon = absurd (false-true colon)
  connect_agrees (c ∷ a) colon =
      rw (colon, handle_connect)
        (connected_same (b.services.connect_to_peer s (c ∷ a)) _ (λ out. refl))

  status_agrees :
      (name : Str)
      → is_empty name ≡ false
      → b.has_status ≡ true
      → (handle_status b m s (name ∷ [])).state ≡ (status_fields b.services s name).1
  unfolding handle_status status_fields
  status_agrees name some_name there =
      rw (there, handle_status)
        (rw (some_name, status_fields)
          (sym (state-status name (b.services.set_node_status s name))))

  broadcast_agrees :
      (w : Str) (words : List Str)
      → is_empty w ≡ false
      → (handle_broadcast b m s (w ∷ words)).state
        ≡ (broadcast_fields b.services s (join_words (w ∷ words))).1
  unfolding handle_broadcast broadcast_fields
  broadcast_agrees w words some_w = rw (filled_join w words some_w, broadcast_fields) refl

  -- The words of an order, run by the console, and its request, served by the dashboard.
  words_agree :
      (o : Order)
      → AreWords (as_words o)
      → b.has_ping ≡ true
      → b.has_status ≡ true
      → after_command (run_words b m s (as_words o))
        ≡ after_request (serve_route upgrade b.services s (as_request o).1 (as_request o).0)
  unfolding run_words dispatch serve_route handle_send handle_send_message handle_broadcast_message
      Handlers.handle_disconnect Handlers.handle_ping Handlers.handle_status Handlers.handle_connect
      posted lit str_beq field
  words_agree (to_send target w words) full pings states =
      ap done
        (send_agrees target (join_words (w ∷ words)) full.1.0 (filled_join w words full.1.1.0))
  words_agree (to_broadcast w words) full pings states = ap done (broadcast_agrees w words full.1.0)
  words_agree (to_disconnect name) full pings states = disconnect_agrees name full.1.0
  words_agree (to_ping target) full pings states = ap done (ping_agrees target full.1.0 pings)
  words_agree (to_be state) full pings states = ap done (status_agrees state full.1.0 states)
  words_agree (to_connect address colon) full pings states = connect_agrees address colon

  -- With a console that has all its services: for each order of a user (a message, a broadcast, a
  -- disconnection, a ping, a status, or a connection to an address with a colon), the command line that names it in the
  -- console and the request that names it to the dashboard leave the same node, or both panic.
  pub command_as_request :
      (o : Order) (input : Str)
      → fields input ≡ as_words o
      → b.has_ping ≡ true
      → b.has_status ≡ true
      → after_command (handle_command b m s input)
        ≡ after_request (serve_route upgrade b.services s (as_request o).1 (as_request o).0)
  unfolding handle_command
  command_as_request o input typed pings states =
      rw typed (words_agree o (subst AreWords typed (fields-AreWords input)) pings states)
