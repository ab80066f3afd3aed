-- ===== src/Notifier/Subscribers.antt =====
-- The subscriptions of internal/notifier/notifier.go: tokens are never used twice while they are
-- in use, and an emission calls exactly the callbacks that are subscribed.
use p2ptest.Base.{ℕ, ◌≤◌, ◌≡◌, ◌≢◌, refl, ap, arith, List, [], ◌∷◌, nat_eq, some, none, Perm, map}
use mathlib.Core.List.Perm
use p2ptest.Base.Dict
use p2ptest.Base.Dict.{
  Dict, Visit, IsVisit, IsMap, get-put_self, get-put, get-remove, get-empty, put-IsMap,
  remove-IsMap, mem-entries,
}
use p2ptest.Notification.{Notification}
use p2ptest.Notifier.{Notifier, Callback, Delivery, new, subscribe, store, emit, deliveries}
use p2ptest.Notifier.Recent.{Event, subscribed, unsubscribed, emitted, handle, run}

-- The tokens in use are below the next one.
pub record IsFresh (n : Notifier) : Type 0 where
  pub callbacks_map : IsMap n.callbacks
  pub below : (t : ℕ) → n.next_token ≤ t → Dict.get n.callbacks t ≡ none

new-IsFresh : (size : ℕ) → IsFresh (new size)
unfolding new Dict.empty Dict.get Dict.lookup
new-IsFresh size = record { callbacks_map = tt; below = λ t h. refl }

callbacks-store : (n : Notifier) (x : Notification) → (store n x).callbacks ≡ n.callbacks
unfolding store
callbacks-store n x = ground arith

token-store : (n : Notifier) (x : Notification) → (store n x).next_token ≡ n.next_token
unfolding store
token-store n x = ground arith

handle-IsFresh : {n : Notifier} (e : Event) → IsFresh n → IsFresh (handle n e)
unfolding handle
handle-IsFresh {n} (subscribed c) f = record {
  callbacks_map = put-IsMap n.callbacks n.next_token c f.callbacks_map;
  below = λ t h. ground (arith, get-put n.callbacks n.next_token t c, f.below t);
}
handle-IsFresh {n} (unsubscribed k) f = record {
  callbacks_map = remove-IsMap n.callbacks k f.callbacks_map;
  below = λ t h. ground (arith, get-remove n.callbacks k t, f.below t);
}
handle-IsFresh {n} (emitted visit x) f = record {
  callbacks_map = rw (callbacks-store n x) f.callbacks_map;
  below = rw (callbacks-store n x, token-store n x) f.below;
}

run-IsFresh : (events : List Event) {n : Notifier} → IsFresh n → IsFresh (run n events)
unfolding run
run-IsFresh [] f = f
run-IsFresh (e ∷ rest) f = run-IsFresh rest (handle-IsFresh e f)

-- Nothing in the series ends the subscription `t`.
abbrev pub Keeps : ℕ → List Event → Type 0
Keeps t [] = Unit
Keeps t (unsubscribed k ∷ rest) = (k ≢ t) × Keeps t rest
Keeps t (_ ∷ rest) = Keeps t rest

kept_callback :
    (t : ℕ) (c : Callback) (events : List Event) {n : Notifier}
    → IsFresh n
    → Keeps t events
    → Dict.get n.callbacks t ≡ some c
    → Dict.get (run n events).callbacks t ≡ some c
unfolding run
kept_callback t c [] f k h = h
kept_callback t c (subscribed d ∷ rest) {n} f k h =
    kept_callback t c rest (handle-IsFresh (subscribed d) f) k
      (ground (arith, get-put n.callbacks n.next_token t d, f.below t))
kept_callback t c (unsubscribed j ∷ rest) {n} f k h =
    kept_callback t c rest (handle-IsFresh (unsubscribed j) f) k.1
      (ground (arith, get-remove n.callbacks j t))
kept_callback t c (emitted visit x ∷ rest) {n} f k h =
    kept_callback t c rest (handle-IsFresh (emitted visit x) f) k (rw (callbacks-store n x) h)

-- A subscription made after any series of calls holds its callback after any further series that
-- does not end it: later subscriptions never take its token.
pub subscription_lasts :
    (size : ℕ) (before after : List Event) (c : Callback)
    → Keeps (subscribe (run (new size) before) c).0 after
    → Dict.get
        (run (subscribe (run (new size) before) c).1 after).callbacks
        (subscribe (run (new size) before) c).0
      ≡ some c
unfolding subscribe
subscription_lasts size before after c k =
    let n : Notifier = run (new size) before in
    kept_callback n.next_token c after
      (unfold handle in handle-IsFresh (subscribed c) (run-IsFresh before (new-IsFresh size))) k
      (get-put_self n.callbacks n.next_token c)

-- The call of the callback of one subscription.
abbrev pub call : Notification → ℕ × Callback → Delivery
call x s = record { callback = s.1; notification = x }

deliveries-map : (x : Notification) (l : List (ℕ × Callback)) → deliveries x l ≡ map (call x) l
unfolding deliveries
deliveries-map x [] = refl
deliveries-map x ((t, c) ∷ l) = ap (λ d. call x (t, c) ∷ d) (deliveries-map x l)

-- After any series of calls the tokens in use are distinct, and an emission calls the callback of
-- every subscription once with the notification, in the order in which the map is visited.
pub emit-perm :
    (size : ℕ) (events : List Event) (visit : Visit (ℕ × Callback)) (x : Notification)
    → IsVisit visit
    → IsMap (run (new size) events).callbacks
      × Perm
          (emit (run (new size) events) visit x).1
          (map (call x) (run (new size) events).callbacks.entries)
unfolding emit
emit-perm size events visit x once = (
  (run-IsFresh events (new-IsFresh size)).callbacks_map,
  rw deliveries-map (Perm.map (call x) (once _)),
)
