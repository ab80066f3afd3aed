-- ===== src/Notifier/Recent.antt =====
-- Series of calls of the notifier of internal/notifier/notifier.go.
use p2ptest.Base.{
  ℕ, zero, suc, ◌+◌, ◌-◌, ◌≡◌, refl, ap, sym, ◌∙◌, arith, List, [], ◌∷◌, ◌++◌, drop, length, nat_eq,
  length-append, length-drop, drop-append,
}
use mathlib.Core.List.{append-nil, append_assoc}
use p2ptest.Base.Dict
use p2ptest.Base.Dict.{Dict, Visit}
use p2ptest.Notification.{Notification, zero_notification}
use p2ptest.Notifier.{Notifier, Callback, new, subscribe, unsubscribe, store, emit, history}
use p2ptest.Notifier.History.{
  IsValid, new-IsValid, store-IsValid, latest, latest_all, history-store, length-history,
  history-tabulate,
}

drop-nil : (e : ℕ) → drop {A = Notification} e [] ≡ []
drop-nil zero = refl
drop-nil (suc e) = refl

drop-drop : (d e : ℕ) (xs : List Notification) → drop e (drop d xs) ≡ drop (d + e) xs
drop-drop zero e xs = let p : e ≡ 0 + e = omega arith in ap (λ j. drop j xs) p
drop-drop (suc d) e [] = drop-nil e ∙ sym (drop-nil (suc d + e))
drop-drop (suc d) e (x ∷ xs) =
    let p : suc (d + e) ≡ suc d + e = omega arith in drop-drop d e xs ∙ ap (λ j. drop j (x ∷ xs)) p

latest-append :
    (k : ℕ) (xs ys : List Notification) → latest k (latest k xs ++ ys) ≡ latest k (xs ++ ys)
latest-append k xs ys =
    let d : ℕ = length xs - k in
    let zs : List Notification = xs ++ ys in
    let e : d + (length (drop d zs) - k) ≡ length zs - k =
      omega (arith, length-append xs ys, length-drop d zs) in
    rw (← drop-append d xs ys (omega arith), drop-drop d _ zs) (ap (λ j. drop j zs) e)

size-store : (n : Notifier) (x : Notification) → (store n x).buffer_size ≡ n.buffer_size
unfolding store
size-store n x = ground arith

history-new : (size : ℕ) → history (new size) ≡ []
unfolding history new
history-new size = ground arith

-- A change of the subscriptions alone.
abbrev with_callbacks : Notifier → Dict ℕ Callback → ℕ → Notifier
with_callbacks n callbacks token = record n { callbacks = callbacks; next_token = token }

with_callbacks-IsValid :
    {n : Notifier} (callbacks : Dict ℕ Callback) (token : ℕ)
    → IsValid n
    → IsValid (with_callbacks n callbacks token)
with_callbacks-IsValid callbacks token v = record {
  sized = v.sized;
  count_in = v.count_in;
  head_in = v.head_in;
}

history-with_callbacks :
    {n : Notifier} (callbacks : Dict ℕ Callback) (token : ℕ)
    → IsValid n
    → history (with_callbacks n callbacks token) ≡ history n
history-with_callbacks callbacks token v =
    history-tabulate (with_callbacks-IsValid callbacks token v) ∙ sym (history-tabulate v)

-- One call of a method that changes the notifier.
pub data Event : Type 0 where
  subscribed : Callback → Event
  unsubscribed : ℕ → Event
  emitted : Visit (ℕ × Callback) → Notification → Event

unfoldable pub handle : Notifier → Event → Notifier
unfolding subscribe unsubscribe emit
handle n (subscribed callback) = (subscribe n callback).1
handle n (unsubscribed token) = unsubscribe n token
handle n (emitted visit x) = (emit n visit x).0

unfoldable pub run : Notifier → List Event → Notifier
unfolding handle
run n [] = n
run n (e ∷ rest) = run (handle n e) rest

abbrev pub emissions : List Event → List Notification
emissions [] = []
emissions (emitted visit x ∷ rest) = x ∷ emissions rest
emissions (subscribed callback ∷ rest) = emissions rest
emissions (unsubscribed token ∷ rest) = emissions rest

history-run :
    (events : List Event) {n : Notifier}
    → IsValid n
    → history (run n events) ≡ latest n.buffer_size (history n ++ emissions events)
unfolding run
history-run [] {n} v =
    rw append-nil (
      sym
        (latest_all n.buffer_size (history n) (omega (arith, length-history v zero_notification))))
history-run (emitted visit x ∷ rest) {n} v =
    history-run rest (store-IsValid x v)
    ∙ rw (size-store n x, history-store x v, latest-append, append_assoc) refl
history-run (subscribed callback ∷ rest) {n} v =
    let v' =
      with_callbacks-IsValid (Dict.put n.callbacks n.next_token callback) (n.next_token + 1) v in
    history-run rest v'
    ∙ rw (history-with_callbacks (Dict.put n.callbacks n.next_token callback) (n.next_token + 1) v)
        refl
history-run (unsubscribed token ∷ rest) {n} v =
    let v' = with_callbacks-IsValid (Dict.remove n.callbacks token) n.next_token v in
    history-run rest v'
    ∙ rw (history-with_callbacks (Dict.remove n.callbacks token) n.next_token v) refl

-- Whatever is subscribed, unsubscribed and emitted since a notifier was made, in whatever order,
-- and however its callbacks are visited, the history is the latest `size` notifications that were
-- emitted, oldest first: all of them while they are at most `size`.
pub history_recent :
    (size : ℕ) (events : List Event)
    → history (run (new size) events) ≡ latest size (emissions events)
unfolding new
history_recent size events = history-run events (new-IsValid size) ∙ rw (history-new size) refl
