-- ===== src/Notifier.antt =====
-- internal/notifier/notifier.go: subscriptions, and a ring buffer of the latest notifications.
-- A callback is a closure of another component, known here by a number. Each method is one step
-- under the lock; `Emit` then calls the callbacks, and these calls are a part of its result.
-- The buffer's size is not negative: a negative one behaves as 0.
pub mod Window
pub mod History
pub mod Recent
pub mod Subscribers
pub mod Tests
use p2ptest.Base.{
  ℕ, zero, suc, ◌+◌, ◌%◌, ltb, ◌==◌, nat_eq, if◌then◌else◌, ◌||◌, List, [], ◌∷◌, set, get_or,
  replicate,
}
use p2ptest.Base.Dict
use p2ptest.Base.Dict.{Dict, Visit}
use p2ptest.Notification.{Notification, zero_notification}

abbrev pub Callback : Type 0
Callback = ℕ

pub record Notifier : Type 0 where
  pub callbacks : Dict ℕ Callback
  pub next_token : ℕ
  pub buffer_size : ℕ
  pub buffer : List Notification
  pub head : ℕ
  pub count : ℕ

-- `NewNotifier`
unfoldable pub new : ℕ → Notifier
new size = record {
  callbacks = Dict.empty;
  next_token = 0;
  buffer_size = size;
  buffer = replicate size zero_notification;
  head = 0;
  count = 0;
}

-- `Subscribe`
unfoldable pub subscribe : Notifier → Callback → ℕ × Notifier
subscribe n callback = (
  n.next_token,
  record n {
    next_token = n.next_token + 1;
    callbacks = Dict.put n.callbacks n.next_token callback;
  },
)

-- `Unsubscribe`
unfoldable pub unsubscribe : Notifier → ℕ → Notifier
unsubscribe n token = record n { callbacks = Dict.remove n.callbacks token }

-- One call of a callback.
pub record Delivery : Type 0 where
  pub callback : Callback
  pub notification : Notification

unfoldable pub deliveries : Notification → List (ℕ × Callback) → List Delivery
deliveries x [] = []
deliveries x ((token, callback) ∷ rest) =
    record { callback = callback; notification = x } ∷ deliveries x rest

-- The write to the buffer.
unfoldable pub store : Notifier → Notification → Notifier
store n x =
    if ltb 0 n.buffer_size
    then (let index = (n.head + n.count) % n.buffer_size in
        let buffer = set n.buffer index x in
        if ltb n.count n.buffer_size
        then record n { buffer = buffer; count = n.count + 1 }
        else record n { buffer = buffer; head = (n.head + 1) % n.buffer_size })
    else n

-- `Emit`: the new state, and the calls that it makes, in their order.
unfoldable pub emit : Notifier → Visit (ℕ × Callback) → Notification → Notifier × List Delivery
unfolding deliveries store
emit n visit x = (store n x, deliveries x (visit n.callbacks.entries))

-- `n.buffer[(n.head + i) % n.bufferSize]`
abbrev pub cell : Notifier → ℕ → Notification
cell n i = get_or n.buffer ((n.head + i) % n.buffer_size) zero_notification

-- The loop of `History`, with `rounds` rounds left at `i`.
unfoldable pub collect : Notifier → ℕ → ℕ → List Notification
collect n i zero = []
collect n i (suc rounds) = cell n i ∷ collect n (i + 1) rounds

-- `History`
unfoldable pub history : Notifier → List Notification
unfolding collect
history n = if n.buffer_size == 0 || n.count == 0 then [] else collect n 0 n.count
