-- ===== src/Web/Socket/Order.antt =====
-- What a client of internal/web/websocket.go is sent, and in which order.
use p2ptest.Base.{◌≤◌, List, [], ◌∷◌, ◌++◌, length, ◌≡◌, refl, sym, ap, ◌∙◌, subst}
use p2ptest.Notification.{Notification}
use p2ptest.Web.Socket.{
  Socket, capacity, Step, push, subscribe, start, copy, accept, drop, ignore, read_fails, write,
  write_fails, stop, unsubscribe, close_conn, close_channel, remove, Steps, here, later, Reach,
}
use p2ptest.Web.Socket.Sound.{IsSound, accepted-IsSound, cons-middle}
use p2ptest.Web.Socket.Invariant.{Step-IsSound}

-- The first list is the second one, less some of its elements.
pub data IsSublist {ℓ} {A : Type ℓ} : List A → List A → Type ℓ where
  nil : IsSublist [] []
  keep : (x : A) {xs ys : List A} → IsSublist xs ys → IsSublist (x ∷ xs) (x ∷ ys)
  skip : (y : A) {xs ys : List A} → IsSublist xs ys → IsSublist xs (y ∷ ys)

module _ {ℓ} {A : Type ℓ} where
  same-IsSublist : (xs : List A) → IsSublist xs xs
  same-IsSublist [] = nil
  same-IsSublist (x ∷ xs) = keep x (same-IsSublist xs)

  keep_last : {xs ys : List A} (x : A) → IsSublist xs ys → IsSublist (xs ++ x ∷ []) (ys ++ x ∷ [])
  keep_last x nil = keep x nil
  keep_last x (keep y h) = keep y (keep_last x h)
  keep_last x (skip y h) = skip y (keep_last x h)

  skip_last : {xs ys : List A} (x : A) → IsSublist xs ys → IsSublist xs (ys ++ x ∷ [])
  skip_last x nil = skip x nil
  skip_last x (keep y h) = keep y (skip_last x h)
  skip_last x (skip y h) = skip y (skip_last x h)

  none-IsSublist : (ys : List A) → IsSublist [] ys
  none-IsSublist [] = nil
  none-IsSublist (y ∷ ys) = skip y (none-IsSublist ys)

  front-IsSublist : (xs zs : List A) → IsSublist xs (xs ++ zs)
  front-IsSublist [] zs = none-IsSublist zs
  front-IsSublist (x ∷ xs) zs = keep x (front-IsSublist xs zs)

  less_of_less :
      {ys zs : List A} → IsSublist ys zs → {xs : List A} → IsSublist xs ys → IsSublist xs zs
  less_of_less nil h = h
  less_of_less (keep z k) (keep y h) = keep y (less_of_less k h)
  less_of_less (keep z k) (skip y h) = skip y (less_of_less k h)
  less_of_less (skip z k) h = skip z (less_of_less k h)

  regroup : (xs : List A) (x : A) (ys : List A) → (xs ++ x ∷ []) ++ ys ≡ xs ++ x ∷ ys
  regroup [] x ys = refl
  regroup (z ∷ xs) x ys = ap (λ t. z ∷ t) (regroup xs x ys)

  shift_last : (xs ys : List A) (x : A) → xs ++ (ys ++ x ∷ []) ≡ (xs ++ ys) ++ x ∷ []
  shift_last [] ys x = refl
  shift_last (z ∷ xs) ys x = ap (λ t. z ∷ t) (shift_last xs ys x)

  append_nil : (xs : List A) → xs ++ [] ≡ xs
  append_nil [] = refl
  append_nil (x ∷ xs) = ap (λ t. x ∷ t) (append_nil xs)

-- All that is written or on its way, in its order.
abbrev pub under_way : Socket → List Notification
under_way s = s.written ++ (s.queue ++ s.remaining)

abbrev IsInOrder : List Notification → Socket → Type 0
IsInOrder history s = IsSublist (under_way s) (history ++ s.offered)

-- The callback is called only once the history is sent.
history_sent :
    (s : Socket) (l before after : List Notification) (x : Notification)
    → IsSound s
    → s.remaining ≡ l
    → s.copied ≡ before ++ x ∷ after
    → l ≡ []
history_sent s [] before after x v e c = refl
history_sent s (y ∷ l) before after x v e c =
    absurd (cons-middle before after x (sym c ∙ (v.phase y l e).none_copied))

-- One more is under way, or is left out.
one_more :
    (history : List Notification) (s : Socket) (before after : List Notification) (x : Notification)
    → IsSound s
    → s.copied ≡ before ++ x ∷ after
    → IsInOrder history s
    → IsSublist
        (s.written ++ ((s.queue ++ x ∷ []) ++ s.remaining))
        (history ++ (s.offered ++ x ∷ []))
one_more history s before after x v c h =
    let sent = history_sent s s.remaining before after x v refl c in
    let ended = append_nil (s.queue ++ x ∷ []) ∙ ap (λ q. q ++ x ∷ []) (sym (append_nil s.queue)) in
    rw (shift_last history s.offered x) (
      subst
        (λ r.
          IsSublist (s.written ++ ((s.queue ++ x ∷ []) ++ r)) ((history ++ s.offered) ++ x ∷ []))
        (sym sent)
        (subst (λ q. IsSublist (s.written ++ q) ((history ++ s.offered) ++ x ∷ [])) (sym ended)
          (subst (λ q. IsSublist q ((history ++ s.offered) ++ x ∷ []))
            (sym (shift_last s.written (s.queue ++ []) x))
            (keep_last x (
              subst (λ r. IsSublist (s.written ++ (s.queue ++ r)) (history ++ s.offered)) sent
                h)))))

one_less :
    (history : List Notification) (s : Socket) (x : Notification)
    → IsInOrder history s
    → IsSublist (under_way s) (history ++ (s.offered ++ x ∷ []))
one_less history s x h = rw (shift_last history s.offered x) (skip_last x h)

-- The first of the channel is written.
one_written :
    (history : List Notification) (s : Socket) (x : Notification) (rest : List Notification)
    → s.queue ≡ x ∷ rest
    → IsInOrder history s
    → IsSublist ((s.written ++ x ∷ []) ++ (rest ++ s.remaining)) (history ++ s.offered)
one_written history s x rest e h =
    rw (regroup s.written x (rest ++ s.remaining))
      (subst (λ q. IsSublist (s.written ++ (q ++ s.remaining)) (history ++ s.offered)) e h)

Step-IsInOrder :
    (history : List Notification) {s t : Socket}
    → Step s t
    → IsSound s
    → IsInOrder history s
    → IsInOrder history t
Step-IsInOrder history {s} (push x rest e room) v h =
    rw (regroup s.queue x rest)
      (subst (λ r. IsSublist (s.written ++ (s.queue ++ r)) (history ++ s.offered)) e h)
Step-IsInOrder history (subscribe e w off) v h = h
Step-IsInOrder history (start on w) v h = h
Step-IsInOrder history (copy x on) v h = h
Step-IsInOrder history {s} (accept before after x e open' room) v h =
    one_more history s before after x v e h
Step-IsInOrder history {s} (drop before after x e open' full) v h = one_less history s x h
Step-IsInOrder history {s} (ignore before after x e stopped) v h = one_less history s x h
Step-IsInOrder history (read_fails w running) v h = h
Step-IsInOrder history {s} (write x rest w e) v h = one_written history s x rest e h
Step-IsInOrder history {s} (write_fails x rest w e) v h = one_written history s x rest e h
Step-IsInOrder history (stop w stopped) v h = h
Step-IsInOrder history (unsubscribe w) v h = h
Step-IsInOrder history (close_conn w) v h = h
Step-IsInOrder history (close_channel w) v h = h
Step-IsInOrder history (remove w) v h = h

Steps-IsInOrder :
    (history : List Notification) {s t : Socket}
    → Steps s t
    → IsSound s
    → IsInOrder history s
    → IsSound t × IsInOrder history t
Steps-IsInOrder history here v h = (v, h)
Steps-IsInOrder history (later r st) v h =
    let earlier = Steps-IsInOrder history r v h in
    (Step-IsSound st earlier.0, Step-IsInOrder history st earlier.0 earlier.1)

-- At every moment of a client whose history has at most 256 notifications: what is written to its
-- connection is, in this order and each once, some of the history and then some of the
-- notifications that its callback was called with.
pub Reach-IsSublist :
    (history : List Notification) (s : Socket)
    → length history ≤ capacity
    → Reach history s
    → IsSublist s.written (history ++ s.offered)
Reach-IsSublist history s h r =
    less_of_less
      (Steps-IsInOrder history r (accepted-IsSound history h)
        (rw (append_nil history) (same-IsSublist history))).1
      (front-IsSublist s.written (s.queue ++ s.remaining))
