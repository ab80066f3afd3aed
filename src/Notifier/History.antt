-- ===== src/Notifier/History.antt =====
-- The ring buffer of internal/notifier/notifier.go keeps exactly the latest notifications.
use p2ptest.Base.{
  ℕ, zero, suc, ◌+◌, ◌-◌, ◌%◌, ◌≤◌, ◌<◌, ◌≡◌, ◌≢◌, refl, ap, sym, ◌∙◌, arith, List, [], ◌∷◌, ◌++◌,
  drop, length, nat_eq, length-set, length-replicate, get_or-set_self, get_or-set_ne, length-append,
}
use native.Mathlib.Decide.{ℕ_discrete, dec_lt}
use p2ptest.Notification.{Notification, zero_notification}
use p2ptest.Notifier.{Notifier, new, store, cell, collect, history}
use p2ptest.Notifier.Window.{
  tabulate, tabulate_ext, tabulate_snoc, tabulate_shift, length-tabulate, mod-ne, mod-step,
  mod_full, mod_last, mod_first, drop-tabulate,
}

pub record IsValid (n : Notifier) : Type 0 where
  pub sized : length n.buffer ≡ n.buffer_size
  pub count_in : n.count ≤ n.buffer_size
  pub head_in : n.buffer_size ≢ 0 → n.head < n.buffer_size

pub new-IsValid : (size : ℕ) → IsValid (new size)
unfolding new
new-IsValid size = record {
  sized = length-replicate size zero_notification;
  count_in = omega arith;
  head_in = λ h. omega arith;
}

pub store-IsValid : {n : Notifier} (x : Notification) → IsValid n → IsValid (store n x)
unfolding store
store-IsValid {n} x v = record {
  sized = ground (arith, v.sized, length-set n.buffer ((n.head + n.count) % n.buffer_size) x);
  count_in = ground (arith, v.count_in);
  head_in = λ h. ground (arith, v.head_in);
}

collect-tabulate : (n : Notifier) (i k : ℕ) → collect n i k ≡ tabulate (cell n) i k
unfolding collect
collect-tabulate n i zero = refl
collect-tabulate n i (suc k) = ap (λ t. cell n i ∷ t) (collect-tabulate n (i + 1) k)

-- On a valid notifier the history is the `count` cells from the head on.
pub history-tabulate : {n : Notifier} → IsValid n → history n ≡ tabulate (cell n) 0 n.count
unfolding history
history-tabulate {n} v = ground (arith, v.count_in, collect-tabulate n 0 n.count)

-- The last `k` of a list.
abbrev pub latest {ℓ} : {A : Type ℓ} → ℕ → List A → List A
latest k xs = drop (length xs - k) xs

module _ {n : Notifier} (v : IsValid n) (x : Notification) where
  module _ (room : n.count < n.buffer_size) where
    count-room : (store n x).count ≡ suc n.count
    unfolding store
    count-room = ground arith

    cell-room : (j : ℕ) → 0 ≤ j → j < 0 + n.count → cell (store n x) j ≡ cell n j
    unfolding store
    cell-room j a b =
        let index : ℕ = (n.head + n.count) % n.buffer_size in
        let far : index ≢ (n.head + j) % n.buffer_size = λ e.
          mod-ne n.buffer_size n.head j n.count (v.head_in (omega arith)) (omega arith) room
            (sym e) in
        ground (arith, get_or-set_ne n.buffer {i = index} x zero_notification far)

    cell-room_last : cell (store n x) (0 + n.count) ≡ x
    unfolding store
    cell-room_last =
        let index : ℕ = (n.head + n.count) % n.buffer_size in
        ground (arith, get_or-set_self n.buffer index x zero_notification, v.sized)

    history-room : history (store n x) ≡ history n ++ x ∷ []
    history-room =
        rw
          (
            history-tabulate (store-IsValid x v),
            history-tabulate v,
            count-room,
            tabulate_snoc,
            cell-room_last,
          )
          (ap (λ t. t ++ x ∷ []) (tabulate_ext _ _ 0 n.count cell-room))

  module _ (full : n.count ≡ n.buffer_size) (some_size : 0 < n.buffer_size) where
    count-full : (store n x).count ≡ suc (n.count - 1)
    unfolding store
    count-full = ground arith

    cell-full : (j : ℕ) → 0 ≤ j → j < 0 + (n.count - 1) → cell (store n x) j ≡ cell n (j + 1)
    unfolding store
    cell-full j a b =
        let head_in = v.head_in (omega arith) in
        let apart : n.head ≢ (n.head + (j + 1)) % n.buffer_size = λ e.
          mod-ne n.buffer_size n.head 0 (j + 1) head_in (omega arith) (omega arith)
            (mod_first n.buffer_size n.head head_in ∙ e) in
        ground (
          arith,
          full,
          mod-step n.buffer_size n.head j head_in,
          mod_full n.buffer_size n.head head_in,
          get_or-set_ne n.buffer {i = n.head} x zero_notification apart,
        )

    cell-full_last : cell (store n x) (0 + (n.count - 1)) ≡ x
    unfolding store
    cell-full_last =
        let head_in = v.head_in (omega arith) in
        ground (
          arith,
          full,
          mod_full n.buffer_size n.head head_in,
          mod_last n.buffer_size n.head head_in,
          get_or-set_self n.buffer n.head x zero_notification,
          v.sized,
        )

    history-full : history (store n x) ≡ drop 1 (history n ++ x ∷ [])
    history-full =
        rw
          (
            history-tabulate (store-IsValid x v),
            history-tabulate v,
            count-full,
            tabulate_snoc,
            cell-full_last,
            drop-tabulate (cell n) n.count (x ∷ []) (omega arith),
          )
          (ap (λ t. t ++ x ∷ [])
            (tabulate_ext _ _ 0 (n.count - 1) cell-full ∙ tabulate_shift (cell n) 0 (n.count - 1)))

  pub length-history : length (history n) ≡ n.count
  length-history = rw (history-tabulate v) (length-tabulate (cell n) 0 n.count)

pub latest_all {ℓ} : {A : Type ℓ} (k : ℕ) (xs : List A) → length xs ≤ k → latest k xs ≡ xs
latest_all k xs h = let e : length xs - k ≡ 0 = omega arith in ap (λ j. drop j xs) e

latest_one {ℓ} : {A : Type ℓ} (k : ℕ) (xs : List A) → length xs ≡ suc k → drop 1 xs ≡ latest k xs
latest_one k xs h = let e : 1 ≡ length xs - k = omega arith in ap (λ j. drop j xs) e

latest_none :
    {n : Notifier} (v : IsValid n) (x : Notification)
    → n.buffer_size ≡ 0
    → history (store n x) ≡ latest n.buffer_size (history n ++ x ∷ [])
unfolding store history
latest_none {n} v x empty = ground (arith, empty, v.count_in)

-- The write of `Emit` on a valid notifier: the history is what it was with the notification at its end, cut to
-- the latest `buffer_size`.
pub history-store :
    {n : Notifier} (x : Notification)
    → IsValid n
    → history (store n x) ≡ latest n.buffer_size (history n ++ x ∷ [])
history-store {n} x v = elim (ℕ_discrete n.buffer_size 0) [
  | yes empty ↦ latest_none v x empty
  | no some_size ↦ elim (dec_lt n.count n.buffer_size) [
    | yes room ↦
        history-room v x room
        ∙ sym (
            latest_all n.buffer_size _
              (omega (arith, length-append (history n) (x ∷ []), length-history v x)))
    | no full ↦
        history-full v x (omega arith) (omega arith)
        ∙ latest_one n.buffer_size (history n ++ x ∷ [])
            (omega (arith, length-append (history n) (x ∷ []), length-history v x))
  ]
]
