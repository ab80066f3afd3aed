-- ===== src/Notifier/Tests.antt =====
-- The theorems about the notifier at concrete calls.
use mathlib.Core.List.Perm
use p2ptest.Base.{ℕ, ◌≡◌, refl, List, [], ◌∷◌, some, nat_eq}
use p2ptest.Base.Dict
use p2ptest.Base.Dict.{Visit, IsVisit, IsMap}
use p2ptest.Notification.{Notification, new_peer_online, new_peer_offline}
use p2ptest.Notifier.{Callback, new, subscribe, store, history}
use p2ptest.Notifier.History.{latest}
use p2ptest.Notifier.Recent.{
  Event, subscribed, unsubscribed, emitted, run, emissions, history_recent,
}
use p2ptest.Notifier.Subscribers.{subscription_lasts}

abbrev up : ℕ → Notification
up now = new_peer_online (65 ∷ []) (49 ∷ []) now

abbrev down : ℕ → Notification
down now = new_peer_offline (65 ∷ []) [] now

abbrev in_order : Visit (ℕ × Callback)
in_order l = l

in_order-IsVisit : IsVisit in_order
in_order-IsVisit l = Perm.refl l

abbrev events : List Event
events =
    subscribed 7
    ∷ emitted in_order (up 1)
    ∷ emitted in_order (down 2)
    ∷ subscribed 8
    ∷ unsubscribed 0
    ∷ emitted in_order (up 3)
    ∷ []

history_wraps : history (run (new 2) events) ≡ down 2 ∷ up 3 ∷ []
unfolding history run store new subscribe Dict.get Dict.put Dict.remove Dict.empty
history_wraps = refl

history_recent_example : history (run (new 2) events) ≡ latest 2 (emissions events)
history_recent_example = history_recent 2 events

subscription_lasts_example :
    Dict.get
      (run (subscribe (run (new 2) []) 9).1 (subscribed 7 ∷ [])).callbacks
      (subscribe (run (new 2) []) 9).0
    ≡ some 9
subscription_lasts_example = subscription_lasts 2 [] (subscribed 7 ∷ []) 9 tt
