-- ===== src/Web/Socket/Closing.antt =====
-- How a client of internal/web/websocket.go ends.
use p2ptest.Base.{
  ◌+◌, ◌≤◌, true, false, List, [], ◌∷◌, ◌++◌, length, length-append, ◌≡◌, ◌≢◌, arith, refl, sym, ap,
  subst,
}
use p2ptest.Notification.{Notification}
use p2ptest.Web.Socket.{
  Socket, Writer, not_started, pumping, leaving, unsubscribed, conn_closed, channel_closed, gone,
  capacity, accepted, Step, push, subscribe, start, copy, accept, drop, ignore, read_fails, write,
  write_fails, stop, unsubscribe, close_conn, close_channel, remove, Steps, here, later, Reach,
  MayPanic, are_pump_steps,
}
use p2ptest.Web.Socket.Sound.{stage}
use p2ptest.Web.Socket.Invariant.{IsKept, Reach-IsKept}

-- One run after another.
pub and_then : {s t u : Socket} → Steps s t → Steps t u → Steps s u
and_then r here = r
and_then r (later r' st) = later (and_then r r') st

-- `writePump` comes to its end without waiting for anyone, and writes nothing more.
abbrev pub Ends : Socket → Type 0
Ends s =
    (t : Socket) × (path : Steps s t) × (are_pump_steps path ≡ true)
    × (t.writer ≡ gone)
    × (t.written ≡ s.written)

leave : (s : Socket) (w : Writer) → s.stopped ≡ true → s.writer ≡ w → 1 ≤ stage w → Ends s
leave s not_started stopped at started = absurd (omega (arith, started))
leave s pumping stopped at started = (
  _,
  later
      (later (later (later (later here (stop at stopped)) (unsubscribe refl)) (close_conn refl))
        (close_channel refl))
      (remove refl),
  refl,
  refl,
  refl,
)
leave s leaving stopped at started = (
  _,
  later (later (later (later here (unsubscribe at)) (close_conn refl)) (close_channel refl))
      (remove refl),
  refl,
  refl,
  refl,
)
leave s unsubscribed stopped at started = (
  _,
  later (later (later here (close_conn at)) (close_channel refl)) (remove refl),
  refl,
  refl,
  refl,
)
leave s conn_closed stopped at started =
    (_, later (later here (close_channel at)) (remove refl), refl, refl, refl)
leave s channel_closed stopped at started = (_, later here (remove at), refl, refl, refl)
leave s gone stopped at started = (s, here, refl, at, refl)

-- No step takes back what the end needs.
advances :
    {s t : Socket}
    → Step s t
    → (stage s.writer ≤ stage t.writer) × (s.stopped ≡ true → t.stopped ≡ true)
advances (push x rest e h) = (omega arith, λ e'. e')
advances (subscribe e w off) = (omega arith, λ e'. e')
advances (start on w) = (omega (arith, ap stage w), λ e'. e')
advances (copy x on) = (omega arith, λ e'. e')
advances (accept before after x e open' h) = (omega arith, λ e'. e')
advances (drop before after x e open' h) = (omega arith, λ e'. e')
advances (ignore before after x e stopped) = (omega arith, λ e'. e')
advances (read_fails w running) = (omega arith, λ e'. refl)
advances (write x rest w e) = (omega arith, λ e'. e')
advances (write_fails x rest w e) = (omega (arith, ap stage w), λ e'. e')
advances (stop w stopped) = (omega (arith, ap stage w), λ e'. e')
advances (unsubscribe w) = (omega (arith, ap stage w), λ e'. e')
advances (close_conn w) = (omega (arith, ap stage w), λ e'. e')
advances (close_channel w) = (omega (arith, ap stage w), λ e'. e')
advances (remove w) = (omega (arith, ap stage w), λ e'. e')

-- A client whose pumps are started and whose connection has failed, at any moment of a run with a
-- history of at most 256 notifications: steps of `writePump` alone lead to its end, where it has written nothing
-- more, it is no more among the dashboard's clients, its callback is unsubscribed and its channel is
-- closed; and no step of anyone else takes `writePump` back or undoes the failure.
pub closing :
    (history : List Notification) (s : Socket)
    → length history ≤ capacity
    → Reach history s
    → s.stopped ≡ true
    → 1 ≤ stage s.writer
    → ((t : Socket) × (path : Steps s t) × (are_pump_steps path ≡ true)
        × (t.writer ≡ gone)
        × (t.written ≡ s.written)
        × (t.registered ≡ false)
        × (t.subscribed ≡ false)
        × (t.closed ≡ true))
      × ((u : Socket) → Step s u → (stage s.writer ≤ stage u.writer) × (u.stopped ≡ true))
closing history s h r stopped started =
    let (t, path, alone, ended, same) = leave s s.writer stopped refl started in
    let kept : IsKept t = Reach-IsKept history t h (and_then r path) in
    let removed = kept.3.1 (omega (arith, ap stage ended)) in
    (
      (t, path, alone, ended, same, removed, (kept.3.0 removed).0, (kept.3.0 removed).1),
      λ u st. ((advances st).0, (advances st).1 stopped),
    )

pub pumping_started : pumping ≢ not_started
pumping_started e = cc

-- A client while its handler sends the history, and once it is ready.
abbrev at_history : List Notification → List Notification → Socket
at_history queue remaining = record (accepted []) { remaining = remaining; queue = queue }

append_one : (xs ys : List Notification) (x : Notification) → (xs ++ x ∷ []) ++ ys ≡ xs ++ x ∷ ys
append_one [] ys x = refl
append_one (z ∷ xs) ys x = ap (λ t. z ∷ t) (append_one xs ys x)

append_none : (xs : List Notification) → xs ++ [] ≡ xs
append_none [] = refl
append_none (z ∷ xs) = ap (λ t. z ∷ t) (append_none xs)

push_all :
    (queue remaining : List Notification)
    → length queue + length remaining ≤ capacity
    → Steps (at_history queue remaining) (at_history (queue ++ remaining) [])
push_all queue [] h =
    subst (λ q. Steps (at_history queue []) (at_history q [])) (sym (append_none queue)) here
push_all queue (x ∷ rest) h = and_then (later here (push x rest refl (omega (arith, h)))) (
    subst (λ q. Steps (at_history (queue ++ x ∷ []) rest) (at_history q []))
      (append_one queue rest x)
      (push_all (queue ++ x ∷ []) rest (omega (arith, h, length-append queue (x ∷ [])))))

-- For any history of at most 256 notifications and any notification, a client can come to a moment
-- where its channel is closed and its callback, copied by an `Emit` before, is still to be called
-- with that notification: the send that the callback's `select` may choose then panics.
pub closed_then_called :
    (history : List Notification) (x : Notification)
    → length history ≤ capacity
    → (s : Socket) × Reach history s × MayPanic x s
closed_then_called history x h =
    let ready = push_all [] history (omega (arith, h)) in
    let running = later (later ready (subscribe refl refl refl)) (start refl refl) in
    let failed = later (later running (copy x refl)) (read_fails (λ e. pumping_started e) refl) in
    let ended =
      later (later (later (later failed (stop refl refl)) (unsubscribe refl)) (close_conn refl))
        (close_channel refl) in
    (_, ended, record { others = []; is_copied = refl; is_closed = refl })
