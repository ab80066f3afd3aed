-- ===== src/ConnPool/Leaks.antt =====
-- Which connections of the pool of internal/transport/conn_pool.go are closed in the end.
use p2ptest.Base.{
  Str, str_eq, str_beq_iff, nat_eq, ◌==◌, true, false, Option, none, some, List, [], ◌∷◌, ◌≡◌, ◌≢◌,
  ◌⊎◌, inl, inr, refl, arith, ◌∙◌, Bool-cases,
}
use p2ptest.Base.Dict
use p2ptest.Base.Dict.{
  Dict, Visit, IsVisit, IsMap, get-put, get-remove, put-IsMap, remove-IsMap, get-empty,
}
use p2ptest.ConnPool.{
  Conn, ConnPool, new, set_conn, get_conn, delete_conn, set_stream, delete_stream, close_by_addr,
  close_all, close_conn, close_stream,
}
use p2ptest.ConnPool.Closing.{
  closes, Op, put_conn, drop_conn, put_stream, drop_stream, close_at, close_every, step, run,
  closes-append, closes-close_stream, closes-close_conn, closed_if_held, kept_if_gone,
}

-- Every `range` of the call visits each entry once.
abbrev pub IsFair : Op → Type 0
IsFair (close_every visit visit') = IsVisit visit'
IsFair (put_conn addr conn) = Unit
IsFair (drop_conn addr) = Unit
IsFair (put_stream addr stream) = Unit
IsFair (drop_stream addr) = Unit
IsFair (close_at addr) = Unit

-- The call stores a connection only where there is none.
abbrev pub IsSparing : ConnPool → Op → Type 0
IsSparing p (put_conn addr conn) = get_conn p addr ≡ none
IsSparing p (close_every visit visit') = Unit
IsSparing p (drop_conn addr) = Unit
IsSparing p (put_stream addr stream) = Unit
IsSparing p (drop_stream addr) = Unit
IsSparing p (close_at addr) = Unit

-- The call does not store the connection.
abbrev pub IsAvoiding : Conn → Op → Type 0
IsAvoiding c (put_conn addr conn) = conn ≢ some c
IsAvoiding c (close_every visit visit') = Unit
IsAvoiding c (drop_conn addr) = Unit
IsAvoiding c (put_stream addr stream) = Unit
IsAvoiding c (drop_stream addr) = Unit
IsAvoiding c (close_at addr) = Unit

step-IsMap : (p : ConnPool) (op : Op) → IsMap p.conns → IsMap (step p op).0.conns
unfolding step set_conn delete_conn set_stream delete_stream close_by_addr close_all new Dict.empty
step-IsMap p (put_conn addr conn) u = put-IsMap p.conns addr conn u
step-IsMap p (drop_conn addr) u = remove-IsMap p.conns addr u
step-IsMap p (put_stream addr stream) u = u
step-IsMap p (drop_stream addr) u = u
step-IsMap p (close_at addr) u = remove-IsMap p.conns addr u
step-IsMap p (close_every visit visit') u = tt

none-some : {o : Option (Option Conn)} {c : Option Conn} → o ≡ none → o ≡ some c → ⊥
none-some a b = cc

held_step :
    (p : ConnPool) (op : Op) (addr : Str) (c : Conn)
    → IsMap p.conns
    → IsFair op
    → IsSparing p op
    → get_conn p addr ≡ some (some c)
    → (get_conn (step p op).0 addr ≡ some (some c)) ⊎ (closes c (step p op).1 ≡ true)
unfolding step set_conn delete_conn set_stream delete_stream close_by_addr get_conn
held_step p (put_conn k conn) addr c u fair free at =
    inl
      (ground (arith, get-put p.conns k addr conn, str_beq_iff k addr, none-some {c = some c} free))
held_step p (drop_conn k) addr c u fair free at = elim (Bool-cases (k == addr)) [
  | inl same ↦
      inr ((closes-close_conn c (Dict.get p.conns k)).1 (ground (arith, at, str_beq_iff k addr)))
  | inr other ↦ inl (ground (arith, at, get-remove p.conns k addr))
]
held_step p (put_stream k stream) addr c u fair free at = inl at
held_step p (drop_stream k) addr c u fair free at = inl at
held_step p (close_at k) addr c u fair free at = elim (Bool-cases (k == addr)) [
  | inl same ↦ inr (
      ground (
        arith,
        closes-append c (close_stream (Dict.get p.streams k)) (close_conn (Dict.get p.conns k)),
        (closes-close_conn c (Dict.get p.conns k)).1 (ground (arith, at, str_beq_iff k addr)),
      ))
  | inr other ↦ inl (ground (arith, at, get-remove p.conns k addr))
]
held_step p (close_every visit visit') addr c u fair free at =
    inr (closed_if_held p u visit visit' fair c addr at)

gone_step :
    (p : ConnPool) (op : Op) (c : Conn)
    → IsMap p.conns
    → IsFair op
    → IsAvoiding c op
    → ((k : Str) → get_conn p k ≢ some (some c))
    → ((k : Str) → get_conn (step p op).0 k ≢ some (some c)) × (closes c (step p op).1 ≡ false)
unfolding step set_conn delete_conn set_stream delete_stream close_by_addr get_conn closes close_all
    new
gone_step p (put_conn addr conn) c u fair avoids gone =
    (λ k h. ground (arith, get-put p.conns addr k conn, gone k), refl)
gone_step p (drop_conn addr) c u fair avoids gone = (
  λ k h. ground (arith, get-remove p.conns addr k, gone k),
  ground (arith, closes-close_conn c (Dict.get p.conns addr), gone addr),
)
gone_step p (put_stream addr stream) c u fair avoids gone = (gone, refl)
gone_step p (drop_stream addr) c u fair avoids gone = (gone, refl)
gone_step p (close_at addr) c u fair avoids gone = (
  λ k h. ground (arith, get-remove p.conns addr k, gone k),
  ground (
    arith,
    closes-append c (close_stream (Dict.get p.streams addr)) (close_conn (Dict.get p.conns addr)),
    closes-close_stream c (Dict.get p.streams addr),
    closes-close_conn c (Dict.get p.conns addr),
    gone addr,
  ),
)
gone_step p (close_every visit visit') c u fair avoids gone =
    (λ k h. none-some (get-empty k) h, kept_if_gone p u visit visit' fair c gone)

-- All calls are fair, and each stores a connection only where there is none at its time.
abbrev pub IsCareful : ConnPool → List Op → Type 0
IsCareful p [] = Unit
IsCareful p (op ∷ rest) = IsFair op × IsSparing p op × IsCareful (step p op).0 rest

-- All calls are fair, and none stores the connection.
abbrev pub IsFree : Conn → List Op → Type 0
IsFree c [] = Unit
IsFree c (op ∷ rest) = IsFair op × IsAvoiding c op × IsFree c rest

-- A connection of the pool, over calls that never overwrite one: it is still where it was, or it
-- has been closed.
pub held_or_closed :
    (p : ConnPool) (ops : List Op) (addr : Str) (c : Conn)
    → IsMap p.conns
    → IsCareful p ops
    → get_conn p addr ≡ some (some c)
    → (get_conn (run p ops).0 addr ≡ some (some c)) ⊎ (closes c (run p ops).1 ≡ true)
unfolding run
held_or_closed p [] addr c u careful at = inl at
held_or_closed p (op ∷ rest) addr c u careful at =
    let both = closes-append c (step p op).1 (run (step p op).0 rest).1 in
    elim (held_step p op addr c u careful.0 careful.1 at) [
      | inl held ↦
          elim (held_or_closed (step p op).0 rest addr c (step-IsMap p op u) careful.2 held) [
            | inl at' ↦ inl at'
            | inr later ↦ inr (ground (arith, both, later))
          ]
      | inr closed ↦ inr (ground (arith, both, closed))
    ]

never_closed :
    (p : ConnPool) (ops : List Op) (c : Conn)
    → IsMap p.conns
    → IsFree c ops
    → ((k : Str) → get_conn p k ≢ some (some c))
    → closes c (run p ops).1 ≡ false
unfolding run closes
never_closed p [] c u free gone = refl
never_closed p (op ∷ rest) c u free gone =
    let next = gone_step p op c u free.0 free.1 gone in
    let later = never_closed (step p op).0 rest c (step-IsMap p op u) free.2 next.0 in
    closes-append c (step p op).1 (run (step p op).0 rest).1 ∙ ground (arith, later, next.1)

-- A connection that `SetConn` overwrites is never closed, whatever is called after that: where the
-- pool holds it at one address only, and it is not stored again.
pub overwritten_leaks :
    (p : ConnPool) (ops : List Op) (addr : Str) (old fresh : Conn)
    → IsMap p.conns
    → get_conn p addr ≡ some (some old)
    → ((k : Str) → get_conn p k ≡ some (some old) → k ≡ addr)
    → fresh ≢ old
    → IsFree old ops
    → closes old (run p (put_conn addr (some fresh) ∷ ops)).1 ≡ false
unfolding run step set_conn get_conn closes
overwritten_leaks p ops addr old fresh u at only differs free =
    never_closed (set_conn p addr (some fresh)) ops old (put-IsMap p.conns addr (some fresh) u) free
      (λ k h. ground (arith, get-put p.conns addr k (some fresh), only k, str_beq_iff addr k))
