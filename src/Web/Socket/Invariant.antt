-- ===== src/Web/Socket/Invariant.antt =====
-- What always holds of a client of internal/web/websocket.go.
use p2ptest.Base.{
  ℕ, ◌<◌, ◌≤◌, true, false, List, [], ◌∷◌, ◌++◌, length, length-append, ◌≡◌, ◌≢◌, inl, inr, arith,
  refl, sym, ltb, Bool-cases, ap, ◌∙◌, ◌↔◌,
}
use p2ptest.Notification.{Notification}
use p2ptest.Web.Socket.{
  Socket, pumping, leaving, unsubscribed, conn_closed, channel_closed, gone, capacity, Step, push,
  subscribe, start, copy, accept, drop, ignore, read_fails, write, write_fails, stop, unsubscribe,
  close_conn, close_channel, remove, Steps, here, later, Reach,
}
use p2ptest.Web.Socket.Sound.{
  stage, IsPushing, IsSound, nil-cons, clash, accepted-IsSound, pushed-IsSound, called-IsSound,
  moved-IsSound, waiting-IsSound,
}

-- What `subscribed` says of the place of `writePump` and of the history.
early_subscribed : {s : Socket} → IsSound s → s.subscribed ≡ true → stage s.writer ≤ 2
early_subscribed {s} v on = elim (Bool-cases (ltb 2 (stage s.writer))) [
  | inl late ↦ absurd (clash on (v.then_unsubscribed (ground (arith, late))))
  | inr early ↦ ground (arith, early)
]

sent_subscribed :
    {s : Socket}
    → IsSound s
    → s.subscribed ≡ true
    → (x : Notification) (rest : List Notification) → s.remaining ≢ x ∷ rest
sent_subscribed v on x rest e = clash on (v.phase x rest e).alone

still_open :
    {s : Socket} → IsSound s → (n : ℕ) → stage s.writer ≤ 4 → n ≤ 4 → (s.closed ≡ true) ↔ (5 ≤ n)
still_open v n early early' =
    (λ e. absurd (omega (arith, v.closed_then e, early)), λ e. absurd (omega (arith, e, early')))

still_there :
    {s : Socket}
    → IsSound s
    → (n : ℕ) → stage s.writer ≤ 5
    → n ≤ 5
    → (s.registered ≡ false) ↔ (6 ≤ n)
still_there v n early early' =
    (λ e. absurd (omega (arith, v.removed_then e, early)), λ e. absurd (omega (arith, e, early')))

-- What is promised of every moment.
abbrev pub IsKept : Socket → Type 0
IsKept s =
    (length s.queue ≤ capacity)
    × ((x : Notification) (rest : List Notification)
        → s.remaining ≡ x ∷ rest
        → length s.queue < capacity)
    × (s.closed ≡ true → s.subscribed ≡ false)
    × ((s.registered ≡ false → (s.subscribed ≡ false) × (s.closed ≡ true))
        × (6 ≤ stage s.writer → s.registered ≡ false))

pub Step-IsSound : {s t : Socket} → Step s t → IsSound s → IsSound t
Step-IsSound {s} (push x rest e h) v = pushed-IsSound s v x rest e h
Step-IsSound {s} (subscribe e w off) v =
    waiting-IsSound s v true s.copied s.writer (λ x rest e'. nil-cons (sym e ∙ e'))
      (omega (arith, ap stage w)) (omega (arith, ap stage w))
Step-IsSound {s} (start on w) v =
    waiting-IsSound s v s.subscribed s.copied pumping (sent_subscribed v on) (early_subscribed v on)
      (omega arith)
Step-IsSound {s} (copy x on) v =
    waiting-IsSound s v s.subscribed (s.copied ++ x ∷ []) s.writer (sent_subscribed v on)
      (early_subscribed v on) (early_subscribed v on)
Step-IsSound {s} (accept before after x e open' h) v =
    called-IsSound s v before after x e (s.queue ++ x ∷ [])
      (omega (arith, length-append s.queue (x ∷ []), h))
Step-IsSound {s} (drop before after x e open' h) v =
    called-IsSound s v before after x e s.queue v.room
Step-IsSound {s} (ignore before after x e stopped) v =
    called-IsSound s v before after x e s.queue v.room
Step-IsSound {s} (read_fails w running) v = record {
  room = v.room;
  phase = λ x rest e.
      let p : IsPushing s = v.phase x rest e in
      record { fits = p.fits; alone = p.alone; none_copied = p.none_copied; not_yet = p.not_yet };
  closed_then = v.closed_then;
  then_closed = v.then_closed;
  then_unsubscribed = v.then_unsubscribed;
  removed_then = v.removed_then;
  then_removed = v.then_removed;
}
Step-IsSound {s} (write x rest w e) v =
    moved-IsSound s v s.writer s.closed s.subscribed s.registered rest (s.written ++ x ∷ [])
      (omega (arith, ap stage w)) (omega (arith, v.room, ap length e))
      (v.closed_then, v.then_closed) v.then_unsubscribed (v.removed_then, v.then_removed)
Step-IsSound {s} (write_fails x rest w e) v =
    moved-IsSound s v leaving s.closed s.subscribed s.registered rest (s.written ++ x ∷ [])
      (omega (arith, ap stage w)) (omega (arith, v.room, ap length e))
      (still_open v 2 (omega (arith, ap stage w)) (omega arith)) (λ e'. absurd (omega (arith, e')))
      (still_there v 2 (omega (arith, ap stage w)) (omega arith))
Step-IsSound {s} (stop w stopped) v =
    moved-IsSound s v leaving s.closed s.subscribed s.registered s.queue s.written
      (omega (arith, ap stage w)) v.room (still_open v 2 (omega (arith, ap stage w)) (omega arith))
      (λ e'. absurd (omega (arith, e'))) (still_there v 2 (omega (arith, ap stage w)) (omega arith))
Step-IsSound {s} (unsubscribe w) v =
    moved-IsSound s v unsubscribed s.closed false s.registered s.queue s.written
      (omega (arith, ap stage w)) v.room (still_open v 3 (omega (arith, ap stage w)) (omega arith))
      (λ e'. refl) (still_there v 3 (omega (arith, ap stage w)) (omega arith))
Step-IsSound {s} (close_conn w) v =
    moved-IsSound s v conn_closed s.closed s.subscribed s.registered s.queue s.written
      (omega (arith, ap stage w)) v.room (still_open v 4 (omega (arith, ap stage w)) (omega arith))
      (λ e'. v.then_unsubscribed (omega (arith, ap stage w)))
      (still_there v 4 (omega (arith, ap stage w)) (omega arith))
Step-IsSound {s} (close_channel w) v =
    moved-IsSound s v channel_closed true s.subscribed s.registered s.queue s.written
      (omega (arith, ap stage w)) v.room (λ e'. omega arith, λ e'. refl)
      (λ e'. v.then_unsubscribed (omega (arith, ap stage w)))
      (still_there v 5 (omega (arith, ap stage w)) (omega arith))
Step-IsSound {s} (remove w) v =
    moved-IsSound s v gone s.closed s.subscribed false s.queue s.written (omega (arith, ap stage w))
      v.room (λ e'. omega arith, λ e'. v.then_closed (omega (arith, ap stage w)))
      (λ e'. v.then_unsubscribed (omega (arith, ap stage w))) (λ e'. omega arith, λ e'. refl)

Steps-IsSound : {s t : Socket} → Steps s t → IsSound s → IsSound t
Steps-IsSound here v = v
Steps-IsSound (later r st) v = Step-IsSound st (Steps-IsSound r v)

-- At every moment of a client whose history has at most 256 notifications: its channel holds at
-- most 256; while the handler has a part of the history to send, the channel has room, so that it never
-- waits; the channel is closed only after the callback is unsubscribed; a client that is no
-- more among the dashboard's is unsubscribed and its channel is closed; and at the end of
-- `writePump` it is no more among them.
pub Reach-IsKept :
    (history : List Notification) (s : Socket)
    → length history ≤ capacity
    → Reach history s
    → IsKept s
Reach-IsKept history s h r =
    let v = Steps-IsSound r (accepted-IsSound history h) in
    (
      v.room,
      λ x rest e. omega (arith, (v.phase x rest e).fits, ap length e),
      λ e. v.then_unsubscribed (omega (arith, v.closed_then e)),
      (
        λ e. (
          v.then_unsubscribed (omega (arith, v.removed_then e)),
          v.then_closed (omega (arith, v.removed_then e)),
        ),
        v.then_removed,
      ),
    )
