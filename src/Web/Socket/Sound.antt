-- ===== src/Web/Socket/Sound.antt =====
-- The invariant of a client of internal/web/websocket.go, and the ways that its steps keep it.
use p2ptest.Base.{
  ℕ, ◌+◌, ◌<◌, ◌≤◌, Bool, true, false, List, [], ◌∷◌, ◌++◌, length, length-append, ◌≡◌, ◌≢◌, arith,
  refl, sym, ap, ◌∙◌, ◌↔◌,
}
use p2ptest.Notification.{Notification}
use p2ptest.Web.Socket.{
  Socket, Writer, not_started, pumping, leaving, unsubscribed, conn_closed, channel_closed, gone,
  capacity, accepted, called,
}

-- How far `writePump` is.
abbrev pub stage : Writer → ℕ
stage not_started = 0
stage pumping = 1
stage leaving = 2
stage unsubscribed = 3
stage conn_closed = 4
stage channel_closed = 5
stage gone = 6

-- The handler is still sending the history, which has room in the channel, and nobody else can send.
pub record IsPushing (s : Socket) : Type 0 where
  pub fits : length s.queue + length s.remaining ≤ capacity
  pub alone : s.subscribed ≡ false
  pub none_copied : s.copied ≡ []
  pub not_yet : stage s.writer ≡ 0

pub record IsSound (s : Socket) : Type 0 where
  pub room : length s.queue ≤ capacity
  pub phase : (x : Notification) (rest : List Notification) → s.remaining ≡ x ∷ rest → IsPushing s
  pub closed_then : s.closed ≡ true → 5 ≤ stage s.writer
  pub then_closed : 5 ≤ stage s.writer → s.closed ≡ true
  pub then_unsubscribed : 3 ≤ stage s.writer → s.subscribed ≡ false
  pub removed_then : s.registered ≡ false → 6 ≤ stage s.writer
  pub then_removed : 6 ≤ stage s.writer → s.registered ≡ false

pub nil-cons {ℓ} : {A : Type ℓ} {x : A} {xs : List A} → [] ≡ x ∷ xs → ⊥
nil-cons e = cc

pub cons-middle {ℓ} : {A : Type ℓ} (xs ys : List A) (x : A) → xs ++ x ∷ ys ≡ [] → ⊥
cons-middle [] ys x e = cc
cons-middle (y ∷ xs) ys x e = cc

pub clash : {b : Bool} → b ≡ true → b ≡ false → ⊥
clash p q = cc

pub accepted-IsSound :
    (history : List Notification) → length history ≤ capacity → IsSound (accepted history)
accepted-IsSound history h = record {
  room = omega arith;
  phase = λ x rest e. record {
    fits = omega (arith, h);
    alone = refl;
    none_copied = refl;
    not_yet = refl;
  };
  closed_then = λ e. cc;
  then_closed = λ e. absurd (omega (arith, e));
  then_unsubscribed = λ e. refl;
  removed_then = λ e. cc;
  then_removed = λ e. absurd (omega (arith, e));
}

-- The invariant rests on these parts of a state: where none is pushed, the history is sent.
module _ (s : Socket) (v : IsSound s) where
  pub pushed-IsSound :
      (x : Notification) (rest : List Notification)
      → s.remaining ≡ x ∷ rest
      → length s.queue < capacity
      → IsSound (record s { remaining = rest; queue = s.queue ++ x ∷ [] })
  pushed-IsSound x rest e h =
      let p : IsPushing s = v.phase x rest e in
      let longer = length-append s.queue (x ∷ []) in
      record {
        room = omega (arith, longer, h);
        phase = λ y rest' e'. record {
          fits = omega (arith, longer, p.fits, ap length e);
          alone = p.alone;
          none_copied = p.none_copied;
          not_yet = p.not_yet;
        };
        closed_then = v.closed_then;
        then_closed = v.then_closed;
        then_unsubscribed = v.then_unsubscribed;
        removed_then = v.removed_then;
        then_removed = v.then_removed;
      }

  -- A call of the callback, whatever its `select` does.
  pub called-IsSound :
      (before after : List Notification) (x : Notification)
      → s.copied ≡ before ++ x ∷ after
      → (queue : List Notification) → length queue ≤ capacity
      → IsSound (record (called s (before ++ after) x) { queue = queue })
  called-IsSound before after x e queue h = record {
    room = h;
    phase =
        λ y rest e'. absurd (cons-middle before after x (sym e ∙ (v.phase y rest e').none_copied));
    closed_then = v.closed_then;
    then_closed = v.then_closed;
    then_unsubscribed = v.then_unsubscribed;
    removed_then = v.removed_then;
    then_removed = v.then_removed;
  }

  -- A step of `writePump` to a later stage.
  pub moved-IsSound :
      (w : Writer) (closed subscribed registered : Bool) (queue written : List Notification)
      → 1 ≤ stage s.writer
      → length queue ≤ capacity
      → ((closed ≡ true) ↔ (5 ≤ stage w))
      → (3 ≤ stage w → subscribed ≡ false)
      → ((registered ≡ false) ↔ (6 ≤ stage w))
      → IsSound (record s {
        writer = w;
        closed = closed;
        subscribed = subscribed;
        registered = registered;
        queue = queue;
        written = written;
      })
  moved-IsSound w closed subscribed registered queue written started h c u r = record {
    room = h;
    phase = λ x rest e. absurd (omega (arith, started, (v.phase x rest e).not_yet));
    closed_then = c.0;
    then_closed = c.1;
    then_unsubscribed = u;
    removed_then = r.0;
    then_removed = r.1;
  }

  -- The handler goes on after the history, or an `Emit` copies the callback.
  pub waiting-IsSound :
      (subscribed : Bool) (copied : List Notification) (w : Writer)
      → ((x : Notification) (rest : List Notification) → s.remaining ≢ x ∷ rest)
      → stage s.writer ≤ 2
      → stage w ≤ 2
      → IsSound (record s { subscribed = subscribed; copied = copied; writer = w })
  waiting-IsSound subscribed copied w idle early early' = record {
    room = v.room;
    phase = λ x rest e. absurd (idle x rest e);
    closed_then = λ e. absurd (omega (arith, v.closed_then e, early));
    then_closed = λ e. absurd (omega (arith, e, early'));
    then_unsubscribed = λ e. absurd (omega (arith, e, early'));
    removed_then = λ e. absurd (omega (arith, v.removed_then e, early));
    then_removed = λ e. absurd (omega (arith, e, early'));
  }
