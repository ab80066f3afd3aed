-- ===== src/Web/Messages.antt =====
-- What "/api/messages" of internal/web/handlers.go shows of the notifications of
-- internal/notifier/notifier.go.
use mathlib.Core.List.{mem-cons, not-mem-nil, Mem-prop}
use mathlib.Core.Logic.Or
use p2ptest.Base.{
  ℕ, suc, ◌-◌, ◌<◌, Str, lit, true, List, [], ◌∷◌, ◌++◌, length, length-append, drop, Mem, ◌≡◌,
  refl, sym, ap, ◌∙◌, arith, inl, inr, Returns, zero, subst, ◌==◌, str_eq, str_beq_iff, Bool-cases,
  false,
}
use p2ptest.Notification.{Notification, new_message_received}
use p2ptest.Notifier.{new, history}
use p2ptest.Notifier.History.{latest}
use p2ptest.Notifier.Recent.{Event, run, emissions, history_recent}
use p2ptest.Services.{Services}
use p2ptest.Web.{Request, Answer, json, notifications, got}
use p2ptest.Web.Handlers.{is_message, messages_of, handle_get_messages}

true-false : true ≡ false → ⊥
true-false e = cc

mem-messages_of :
    (x : Notification) (l : List Notification)
    → is_message x.kind ≡ true
    → Mem x l
    → Mem x (messages_of l)
unfolding messages_of
mem-messages_of x [] e m = absurd (not-mem-nil m)
mem-messages_of x (y ∷ l) e m = elim (Bool-cases (is_message y.kind)) [
  | inl text ↦
      rw (text, messages_of)
        (Or.elim Mem-prop (mem-cons.0 m) (λ h. mem-cons.1 (Or.inl h))
          (λ m'. mem-cons.1 (Or.inr (mem-messages_of x l e m'))))
  | inr other ↦
      rw (other, messages_of)
        (Or.elim Mem-prop (mem-cons.0 m)
          (λ h.
            absurd (true-false (sym e ∙ ap (λ (n : Notification). is_message n.kind) h ∙ other)))
          (λ m'. mem-messages_of x l e m'))
]

mem-drop :
    (n : ℕ) (before after : List Notification) (x : Notification)
    → n < suc (length before)
    → Mem x (drop n (before ++ x ∷ after))
mem-drop zero [] after x h = mem-cons.1 (Or.inl refl)
mem-drop zero (y ∷ before) after x h =
    mem-cons.1 (Or.inr (mem-drop zero before after x (omega arith)))
mem-drop (suc n) [] after x h = absurd (omega (arith, h))
mem-drop (suc n) (y ∷ before) after x h = mem-drop n before after x (omega (arith, h))

-- The answer has the notification among its messages, and the node is as it was.
abbrev pub HasShown : {S : Type 0} → Notification → S → Answer S → Type 0
HasShown x s out =
    (shown : List Notification) × (out.0 ≡ json ((lit "messages", notifications shown) ∷ []))
    × Mem x shown
    × (out.1 ≡ s)

-- A text that the node has received is among the messages that a GET shows, as long as fewer notifications have
-- been emitted since than the notifier keeps.
pub message_shown :
    {S : Type 0} (srv : Services S) (s : S) (r : Request) (size : ℕ) (events : List Event)
    (before after : List Notification) (from content : Str) (now : ℕ)
    → r.method ≡ lit "GET"
    → srv.history s ≡ history (run (new size) events)
    → emissions events ≡ before ++ new_message_received from content now ∷ after
    → length after < size
    → Returns (HasShown (new_message_received from content now) s) (handle_get_messages srv s r)
unfolding handle_get_messages new_message_received got
message_shown srv s r size events before after from content now get kept emitted recent =
    let x : Notification = new_message_received from content now in
    let size_of = length-append before (x ∷ after) in
    let is_recent : Mem x (latest size (before ++ x ∷ after)) =
      mem-drop (length (before ++ x ∷ after) - size) before after x
        (omega (arith, size_of, recent)) in
    let is_kept : Mem x (srv.history s) =
      subst (λ l. Mem x l) (sym (kept ∙ history_recent size events))
        (subst (λ l. Mem x (latest size l)) (sym emitted) is_recent) in
    let is_get : (r.method == lit "GET") ≡ true = (str_beq_iff r.method (lit "GET")).1 get in
    rw (is_get, handle_get_messages)
      (messages_of (srv.history s), refl, mem-messages_of x (srv.history s) refl is_kept, refl)
