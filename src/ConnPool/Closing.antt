-- ===== src/ConnPool/Closing.antt =====
-- The life of a connection in the pool of internal/transport/conn_pool.go, over any sequence of
-- calls.
use mathlib.Core.List.{mem-cons, not-mem-nil}
use mathlib.Core.List.Perm
use mathlib.Core.Logic.Or
use p2ptest.Base.{
  Str, str_eq, nat_eq, nat_beq_iff, ◌==◌, Bool, true, false, ◌||◌, if◌then◌else◌, Option, none,
  some, List, [], ◌∷◌, ◌++◌, ◌≡◌, ◌≢◌, ◌↔◌, inl, inr, refl, arith, ap, sym, ◌∙◌, Mem, Bool-cases,
}
use p2ptest.Base.Dict
use p2ptest.Base.Dict.{
  Dict, Visit, IsVisit, IsMap, get-put, get-remove, put-IsMap, remove-IsMap, mem-entries, get-empty,
}
use p2ptest.ConnPool.{
  Conn, Stream, Call, close, close_send, ConnPool, set_conn, get_conn, delete_conn, set_stream,
  delete_stream, close_by_addr, close_all, close_conn, close_conns, close_streams, close_stream,
}

-- Whether a connection is closed by some calls.
unfoldable pub closes : Conn → List Call → Bool
closes c [] = false
closes c (close d ∷ rest) = if d == c then true else closes c rest
closes c (close_send s ∷ rest) = closes c rest

-- One call of a method that changes the pool.
pub data Op : Type 0 where
  put_conn : Str → Option Conn → Op
  drop_conn : Str → Op
  put_stream : Str → Stream → Op
  drop_stream : Str → Op
  close_at : Str → Op
  close_every : Visit (Str × Stream) → Visit (Str × Option Conn) → Op

unfoldable pub step : ConnPool → Op → ConnPool × List Call
step p (put_conn addr conn) = (set_conn p addr conn, [])
step p (drop_conn addr) = delete_conn p addr
step p (put_stream addr stream) = (set_stream p addr stream, [])
step p (drop_stream addr) = (delete_stream p addr, [])
step p (close_at addr) = close_by_addr p addr
step p (close_every visit visit') = close_all p visit visit'

unfoldable pub run : ConnPool → List Op → ConnPool × List Call
unfolding step
run p [] = (p, [])
run p (op ∷ rest) =
    let (p', calls) = step p op in let (p'', calls') = run p' rest in (p'', calls ++ calls')

pub closes-append :
    (c : Conn) (xs ys : List Call) → closes c (xs ++ ys) ≡ (closes c xs || closes c ys)
unfolding closes
closes-append c [] ys = refl
closes-append c (close d ∷ xs) ys = ground (arith, closes-append c xs ys)
closes-append c (close_send s ∷ xs) ys = closes-append c xs ys

pub closes-close_streams : (c : Conn) (l : List (Str × Stream)) → closes c (close_streams l) ≡ false
unfolding closes close_streams
closes-close_streams c [] = refl
closes-close_streams c ((addr, s) ∷ l) = closes-close_streams c l

pub closes-close_stream : (c : Conn) (s : Option Stream) → closes c (close_stream s) ≡ false
unfolding closes
closes-close_stream c none = refl
closes-close_stream c (some s) = refl

pub closes-close_conn :
    (c : Conn) (o : Option (Option Conn)) → (closes c (close_conn o) ≡ true) ↔ (o ≡ some (some c))
unfolding closes
closes-close_conn c none = ground arith
closes-close_conn c (some none) = ground arith
closes-close_conn c (some (some d)) = ground (arith, nat_beq_iff d c)

some_inj : {a b : Option Conn} → some a ≡ some b → a ≡ b
some_inj e = cc

Conn-set : IsSet (Option (Option Conn))
Conn-set = hlevel

closes-prop : (c : Conn) (calls : List Call) → IsProp (closes c calls ≡ true)
closes-prop c calls = hlevel

-- The loop closes every connection that it meets, and no other.
closes_met :
    (c : Conn) (addr : Str) (l : List (Str × Option Conn))
    → Mem (addr, some c) l
    → closes c (close_conns l) ≡ true
unfolding close_conns
closes_met c addr [] m = absurd (not-mem-nil m)
closes_met c addr ((k, o) ∷ l) m =
    let split = closes-append c (close_conn (some o)) (close_conns l) in
    Or.elim (closes-prop c (close_conns ((k, o) ∷ l))) (mem-cons.0 m)
      (λ e.
        ground (arith, split, (closes-close_conn c (some o)).1 (ap some (sym (ap (λ t. t.1) e)))))
      (λ m'. ground (arith, split, closes_met c addr l m'))

closes_only_met :
    (c : Conn) (l : List (Str × Option Conn))
    → ((addr : Str) → ¬ (Mem (addr, some c) l))
    → closes c (close_conns l) ≡ false
unfolding close_conns closes
closes_only_met c [] no_entry = refl
closes_only_met c ((k, o) ∷ l) no_entry =
    let later = closes_only_met c l (λ addr m. no_entry addr (mem-cons.1 (Or.inr m))) in
    elim (Bool-cases (closes c (close_conn (some o)))) [
      | inl closed ↦ absurd (
          no_entry k (
            mem-cons.1 (
              Or.inl
                (ap (λ q. (k, q)) (sym (some_inj ((closes-close_conn c (some o)).0 closed)))))))
      | inr kept ↦
          closes-append c (close_conn (some o)) (close_conns l) ∙ ground (arith, kept, later)
    ]

-- `CloseAll` closes exactly the connections of the pool.
module _ (p : ConnPool) (u : IsMap p.conns) (visit : Visit (Str × Stream))
    (visit' : Visit (Str × Option Conn)) (once : IsVisit visit') (c : Conn) where
  visited :
      (addr : Str)
      → Mem (addr, some c) (visit' p.conns.entries) ↔ (Dict.get p.conns addr ≡ some (some c))
  visited addr =
      let stored = mem-entries Conn-set p.conns addr (some c) u in
      (λ m. stored.0 ((Perm.mem_iff (once _)).0 m), λ e. (Perm.mem_iff (once _)).1 (stored.1 e))

  pub closed_if_held :
      (addr : Str) → get_conn p addr ≡ some (some c) → closes c (close_all p visit visit').1 ≡ true
  unfolding close_all get_conn
  closed_if_held addr at = ground (
    arith,
    closes-append c (close_streams (visit p.streams.entries))
        (close_conns (visit' p.conns.entries)),
    closes_met c addr (visit' p.conns.entries) ((visited addr).1 at),
  )

  pub kept_if_gone :
      ((addr : Str) → get_conn p addr ≢ some (some c))
      → closes c (close_all p visit visit').1 ≡ false
  unfolding close_all get_conn
  kept_if_gone gone = ground (
    arith,
    closes-append c (close_streams (visit p.streams.entries))
        (close_conns (visit' p.conns.entries)),
    closes-close_streams c (visit p.streams.entries),
    closes_only_met c (visit' p.conns.entries) (λ addr m. gone addr ((visited addr).0 m)),
  )
