-- ===== src/Web/Socket.antt =====
-- internal/web/websocket.go: one client of the dashboard, as a system of steps. The handler that
-- accepts it, its two pumps, and the goroutines that emit notifications run concurrently: a step
-- is one operation on the channels, the notifier, the connection or the set of clients.
pub mod Sound
pub mod Invariant
pub mod Order
pub mod Closing
use p2ptest.Base.{ℕ, suc, ◌<◌, ◌≤◌, Bool, ◌&&◌, true, false, List, [], ◌∷◌, ◌++◌, length, ◌≡◌, ◌≢◌}
use p2ptest.Notification.{Notification}

-- The capacity of `client.send`.
abbrev pub capacity : ℕ
capacity = 256

-- Where `writePump` stands: it is not started; in its loop; in its deferred function, before and after each
-- of its statements.
pub data Writer : Type 0 where
  not_started pumping leaving unsubscribed conn_closed channel_closed gone : Writer

pub record Socket : Type 0 where
  -- what `handleWebSocket` has still to send of the history
  pub remaining : List Notification
  -- `client.send`, and whether it is closed
  pub queue : List Notification
  pub closed : Bool
  -- whether `stopChan` is closed
  pub stopped : Bool
  -- whether the callback is one of the notifier's
  pub subscribed : Bool
  -- the notifications whose `Emit` has copied the callback and not yet called it
  pub copied : List Notification
  pub writer : Writer
  -- whether the client is in `wsClients`
  pub registered : Bool
  -- the calls of `WriteJSON`, and those of the callback, in their order
  pub written : List Notification
  pub offered : List Notification

-- A client that has been registered, with the history that the handler reads.
abbrev pub accepted : List Notification → Socket
accepted history = record {
  remaining = history;
  queue = [];
  closed = false;
  stopped = false;
  subscribed = false;
  copied = [];
  writer = not_started;
  registered = true;
  written = [];
  offered = [];
}

-- The callback has been called with `x`: the call is no longer to come.
abbrev pub called : Socket → List Notification → Notification → Socket
called s others x = record s { copied = others; offered = s.offered ++ x ∷ [] }

pub data Step : Socket → Socket → Type 0 where
  -- `client.send <- notification` of the handler, which waits for room
  push :
      {s : Socket} (x : Notification) (rest : List Notification)
      → s.remaining ≡ x ∷ rest
      → length s.queue < capacity
      → Step s (record s { remaining = rest; queue = s.queue ++ x ∷ [] })
  subscribe :
      {s : Socket}
      → s.remaining ≡ []
      → s.writer ≡ not_started
      → s.subscribed ≡ false
      → Step s (record s { subscribed = true })
  -- the two `go` statements
  start :
      {s : Socket}
      → s.subscribed ≡ true
      → s.writer ≡ not_started
      → Step s (record s { writer = pumping })
  -- an `Emit` copies the callbacks
  copy :
      {s : Socket} (x : Notification)
      → s.subscribed ≡ true
      → Step s (record s { copied = s.copied ++ x ∷ [] })
  -- the callback's `select` takes the case of the channel
  accept :
      {s : Socket} (before after : List Notification) (x : Notification)
      → s.copied ≡ before ++ x ∷ after
      → s.closed ≡ false
      → length s.queue < capacity
      → Step s (record (called s (before ++ after) x) { queue = s.queue ++ x ∷ [] })
  -- its `default` case, for a full channel
  drop :
      {s : Socket} (before after : List Notification) (x : Notification)
      → s.copied ≡ before ++ x ∷ after
      → s.closed ≡ false
      → capacity ≤ length s.queue
      → Step s (called s (before ++ after) x)
  -- its case of `stopChan`
  ignore :
      {s : Socket} (before after : List Notification) (x : Notification)
      → s.copied ≡ before ++ x ∷ after
      → s.stopped ≡ true
      → Step s (called s (before ++ after) x)
  -- `ReadMessage` has an error, and `readPump` closes `stopChan`
  read_fails :
      {s : Socket}
      → s.writer ≢ not_started
      → s.stopped ≡ false
      → Step s (record s { stopped = true })
  -- `writePump` takes a notification from the channel and writes it
  write :
      {s : Socket} (x : Notification) (rest : List Notification)
      → s.writer ≡ pumping
      → s.queue ≡ x ∷ rest
      → Step s (record s { queue = rest; written = s.written ++ x ∷ [] })
  write_fails :
      {s : Socket} (x : Notification) (rest : List Notification)
      → s.writer ≡ pumping
      → s.queue ≡ x ∷ rest
      → Step s (record s { queue = rest; written = s.written ++ x ∷ []; writer = leaving })
  stop :
      {s : Socket} → s.writer ≡ pumping → s.stopped ≡ true → Step s (record s { writer = leaving })
  -- the four statements of its deferred function
  unsubscribe :
      {s : Socket}
      → s.writer ≡ leaving
      → Step s (record s { writer = unsubscribed; subscribed = false })
  close_conn : {s : Socket} → s.writer ≡ unsubscribed → Step s (record s { writer = conn_closed })
  close_channel :
      {s : Socket}
      → s.writer ≡ conn_closed
      → Step s (record s { writer = channel_closed; closed = true })
  remove :
      {s : Socket}
      → s.writer ≡ channel_closed
      → Step s (record s { writer = gone; registered = false })

-- The steps from one state to another, the last one first.
pub data Steps : Socket → Socket → Type 0 where
  here : {s : Socket} → Steps s s
  later : {s t u : Socket} → Steps s t → Step t u → Steps s u

-- Which steps are those of `writePump`.
abbrev pub is_pump_step : {s t : Socket} → Step s t → Bool
is_pump_step (push x rest e h) = false
is_pump_step (subscribe e w off) = false
is_pump_step (start on w) = false
is_pump_step (copy x on) = false
is_pump_step (accept before after x e open' h) = false
is_pump_step (drop before after x e open' h) = false
is_pump_step (ignore before after x e stopped) = false
is_pump_step (read_fails w running) = false
is_pump_step (write x rest w e) = true
is_pump_step (write_fails x rest w e) = true
is_pump_step (stop w stopped) = true
is_pump_step (unsubscribe w) = true
is_pump_step (close_conn w) = true
is_pump_step (close_channel w) = true
is_pump_step (remove w) = true

-- All the steps are those of `writePump`.
abbrev pub are_pump_steps : {s t : Socket} → Steps s t → Bool
are_pump_steps here = true
are_pump_steps (later r st) = are_pump_steps r && is_pump_step st

-- The states that a client can come to, with the history that its handler reads.
abbrev pub Reach : List Notification → Socket → Type 0
Reach history s = Steps (accepted history) s

-- The callback may be called now with `x`, and its send on the closed channel panics: `select` may
-- choose it.
pub record MayPanic (x : Notification) (s : Socket) : Type 0 where
  pub others : List Notification
  pub is_copied : s.copied ≡ x ∷ others
  pub is_closed : s.closed ≡ true
