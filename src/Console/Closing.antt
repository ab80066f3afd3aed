-- ===== src/Console/Closing.antt =====
-- `StartInteractiveConsole` of internal/console/console.go: the channel between the notifier and the program, as a
-- system of steps, each one operation on the channel, the notifier or the program.
use p2ptest.Base.{
  ℕ, ◌<◌, ◌≤◌, Bool, true, false, List, [], ◌∷◌, ◌++◌, length, length-append, ◌≡◌, ◌∙◌, refl, arith,
  ap,
}
use p2ptest.Notification.{Notification}

-- The capacity of `ch`.
abbrev pub capacity : ℕ
capacity = 100

-- Where `StartInteractiveConsole` stands, from its subscription on: in `p.Run`, and after each statement behind it.
pub data Stage : Type 0 where
  running returned channel_closed unsubscribed : Stage

pub record Feed : Type 0 where
  pub stage : Stage
  pub queue : List Notification
  pub closed : Bool
  pub subscribed : Bool
  -- the notifications whose `Emit` has copied the callback and not yet called it
  pub copied : List Notification
  -- the calls of `p.Send`
  pub shown : List Notification

abbrev pub started : Feed
started = record {
  stage = running;
  queue = [];
  closed = false;
  subscribed = true;
  copied = [];
  shown = [];
}

pub data Step : Feed → Feed → Type 0 where
  -- an `Emit` copies the callbacks
  copy :
      {s : Feed} (x : Notification)
      → s.subscribed ≡ true
      → Step s (record s { copied = s.copied ++ x ∷ [] })
  -- the callback's `select` sends, where there is room
  accept :
      {s : Feed} (before after : List Notification) (x : Notification)
      → s.copied ≡ before ++ x ∷ after
      → s.closed ≡ false
      → length s.queue < capacity
      → Step s (record s { copied = before ++ after; queue = s.queue ++ x ∷ [] })
  -- its `default` case
  drop :
      {s : Feed} (before after : List Notification) (x : Notification)
      → s.copied ≡ before ++ x ∷ after
      → s.closed ≡ false
      → capacity ≤ length s.queue
      → Step s (record s { copied = before ++ after })
  -- the goroutine that reads the channel
  forward :
      {s : Feed} (x : Notification) (rest : List Notification)
      → s.queue ≡ x ∷ rest
      → Step s (record s { queue = rest; shown = s.shown ++ x ∷ [] })
  -- `p.Run` returns, `close(ch)`, `n.Unsubscribe(token)`
  run_returns : {s : Feed} → s.stage ≡ running → Step s (record s { stage = returned })
  close_channel :
      {s : Feed} → s.stage ≡ returned → Step s (record s { stage = channel_closed; closed = true })
  unsubscribe :
      {s : Feed}
      → s.stage ≡ channel_closed
      → Step s (record s { stage = unsubscribed; subscribed = false })

pub data Reach : Feed → Type 0 where
  start : Reach started
  later : {s t : Feed} → Reach s → Step s t → Reach t

pub data Steps (s : Feed) : Feed → Type 0 where
  here : Steps s s
  next : {t u : Feed} → Steps s t → Step t u → Steps s u

-- The channel is closed, and the callback is to be called with `x`: the send of its `select` panics.
pub record Panics (x : Notification) (s : Feed) : Type 0 where
  pub before : List Notification
  pub after : List Notification
  pub is_copied : s.copied ≡ before ++ x ∷ after
  pub is_closed : s.closed ≡ true

abbrev pub position : Stage → ℕ
position running = 0
position returned = 1
position channel_closed = 2
position unsubscribed = 3

-- The room in the channel, and what the place of the function says of the channel and the callback.
pub record IsSound (s : Feed) : Type 0 where
  pub room : length s.queue ≤ capacity
  pub open_early : position s.stage ≤ 1 → s.closed ≡ false
  pub closed_late : 2 ≤ position s.stage → s.closed ≡ true
  pub listening : position s.stage ≤ 2 → s.subscribed ≡ true

same-IsSound :
    (s : Feed) (queue copied shown : List Notification)
    → IsSound s
    → length queue ≤ capacity
    → IsSound (record s { queue = queue; copied = copied; shown = shown })
same-IsSound s queue copied shown v h = record {
  room = h;
  open_early = v.open_early;
  closed_late = v.closed_late;
  listening = v.listening;
}

Step-IsSound : {s t : Feed} → Step s t → IsSound s → IsSound t
Step-IsSound {s} (copy x on) v = same-IsSound s s.queue (s.copied ++ x ∷ []) s.shown v v.room
Step-IsSound {s} (accept before after x e open' h) v =
    same-IsSound s (s.queue ++ x ∷ []) (before ++ after) s.shown v
      (omega (arith, h, length-append s.queue (x ∷ [])))
Step-IsSound {s} (drop before after x e open' h) v =
    same-IsSound s s.queue (before ++ after) s.shown v v.room
Step-IsSound {s} (forward x rest e) v =
    same-IsSound s rest s.copied (s.shown ++ x ∷ []) v (omega (arith, v.room, ap length e))
Step-IsSound {s} (run_returns at) v = record {
  room = v.room;
  open_early = λ h. v.open_early (omega (arith, ap position at));
  closed_late = λ h. absurd (omega (arith, h));
  listening = λ h. v.listening (omega (arith, ap position at));
}
Step-IsSound {s} (close_channel at) v = record {
  room = v.room;
  open_early = λ h. absurd (omega (arith, h));
  closed_late = λ h. refl;
  listening = λ h. v.listening (omega (arith, ap position at));
}
Step-IsSound {s} (unsubscribe at) v = record {
  room = v.room;
  open_early = λ h. absurd (omega (arith, h));
  closed_late = λ h. v.closed_late (omega (arith, ap position at));
  listening = λ h. absurd (omega (arith, h));
}

Reach-IsSound : {s : Feed} → Reach s → IsSound s
Reach-IsSound start = record {
  room = omega arith;
  open_early = λ h. refl;
  closed_late = λ h. absurd (omega (arith, h));
  listening = λ h. refl;
}
Reach-IsSound (later r st) = Step-IsSound st (Reach-IsSound r)

open_and_closed : {b : Bool} → b ≡ false → b ≡ true → ⊥
open_and_closed p q = cc

append_assoc :
    (xs : List Notification) (ys zs : List Notification) → (xs ++ ys) ++ zs ≡ xs ++ (ys ++ zs)
append_assoc [] ys zs = refl
append_assoc (x ∷ xs) ys zs = ap (λ l. x ∷ l) (append_assoc xs ys zs)

-- No step calls the callback with `x` without the panic.
Step-Panics : (x : Notification) {s t : Feed} → Step s t → Panics x s → Panics x t
Step-Panics x (copy y on) p = record {
  before = p.before;
  after = p.after ++ y ∷ [];
  is_copied = ap (λ l. l ++ y ∷ []) p.is_copied ∙ append_assoc p.before (x ∷ p.after) (y ∷ []);
  is_closed = p.is_closed;
}
Step-Panics x (accept before after y e open' h) p = absurd (open_and_closed open' p.is_closed)
Step-Panics x (drop before after y e open' h) p = absurd (open_and_closed open' p.is_closed)
Step-Panics x (forward y rest e) p = record {
  before = p.before;
  after = p.after;
  is_copied = p.is_copied;
  is_closed = p.is_closed;
}
Step-Panics x (run_returns at) p = record {
  before = p.before;
  after = p.after;
  is_copied = p.is_copied;
  is_closed = p.is_closed;
}
Step-Panics x (close_channel at) p = record {
  before = p.before;
  after = p.after;
  is_copied = p.is_copied;
  is_closed = refl;
}
Step-Panics x (unsubscribe at) p = record {
  before = p.before;
  after = p.after;
  is_copied = p.is_copied;
  is_closed = p.is_closed;
}

Steps-Panics : (x : Notification) {s t : Feed} → Steps s t → Panics x s → Panics x t
Steps-Panics x here p = p
Steps-Panics x (next r st) p = Step-Panics x st (Steps-Panics x r p)

-- An `Emit` of `x` has copied the callback.
abbrev pub emitted : Feed → Notification → Feed
emitted s x = record s { copied = s.copied ++ x ∷ [] }

-- At every moment of the console: its channel never holds more than 100; until `StartInteractiveConsole`
-- closes it, it is open; and while it is closed and the callback is not yet unsubscribed, any notification
-- can be emitted to the callback, and from then on, whatever else happens, the call of the
-- callback with that notification is still to come and the channel is closed, so that the call panics.
pub closed_while_subscribed :
    (s : Feed)
    → Reach s
    → (length s.queue ≤ capacity)
      × (position s.stage ≤ 1 → s.closed ≡ false)
      × (s.stage ≡ channel_closed
          → (x : Notification)
          → Step s (emitted s x) × ((t : Feed) → Steps (emitted s x) t → Panics x t))
closed_while_subscribed s r =
    let v = Reach-IsSound r in
    (
      v.room,
      v.open_early,
      λ at x. (
        copy x (v.listening (omega (arith, ap position at))),
        λ t after. Steps-Panics x after (record {
          before = s.copied;
          after = [];
          is_copied = refl;
          is_closed = v.closed_late (omega (arith, ap position at));
        }),
      ),
    )
