-- ===== src/ConnPool/Tests.antt =====
-- The theorems about the pool at a concrete pool.
use p2ptest.Base.{
  Str, str_eq, true, false, some, none, [], ◌∷◌, ◌≡◌, ◌≢◌, ◌⊎◌, refl, arith, str_beq_iff, str_beq,
}
use p2ptest.Base.Dict
use p2ptest.Base.Dict.{Dict, IsMap, get-put}
use p2ptest.ConnPool.{Conn, ConnPool, get_conn}
use p2ptest.ConnPool.Closing.{closes, put_conn, close_at, run}
use p2ptest.ConnPool.Leaks.{held_or_closed, overwritten_leaks}

-- The connection 1 at the address "a".
abbrev pool : ConnPool
pool = record {
  conns = record { entries = (97 ∷ [], some 1) ∷ [] };
  streams = record { entries = [] };
}

pool-IsMap : IsMap pool.conns
unfolding Dict.lookup
pool-IsMap = (refl, tt)

get-pool : get_conn pool (97 ∷ []) ≡ some (some 1)
unfolding get_conn Dict.get Dict.lookup str_beq
get-pool = refl

other_free : get_conn pool (98 ∷ []) ≡ none
unfolding get_conn Dict.get Dict.lookup str_beq
other_free = refl

only_there : (k : Str) → get_conn pool k ≡ some (some 1) → k ≡ 97 ∷ []
unfolding get_conn Dict.get Dict.lookup
only_there k h = ground (arith, str_beq_iff (97 ∷ []) k)

fresh_differs : ◌≢◌ {A = Conn} 2 1
fresh_differs = λ e. omega arith

held_or_closed_example :
    (get_conn (run pool (put_conn (98 ∷ []) (some 2) ∷ close_at (97 ∷ []) ∷ [])).0 (97 ∷ [])
      ≡ some (some 1))
    ⊎ (closes 1 (run pool (put_conn (98 ∷ []) (some 2) ∷ close_at (97 ∷ []) ∷ [])).1 ≡ true)
held_or_closed_example =
    held_or_closed pool (put_conn (98 ∷ []) (some 2) ∷ close_at (97 ∷ []) ∷ []) (97 ∷ []) 1
      pool-IsMap (tt, other_free, (tt, tt, tt)) get-pool

overwritten_leaks_example :
    closes 1 (run pool (put_conn (97 ∷ []) (some 2) ∷ close_at (97 ∷ []) ∷ [])).1 ≡ false
overwritten_leaks_example =
    overwritten_leaks pool (close_at (97 ∷ []) ∷ []) (97 ∷ []) 1 2 pool-IsMap get-pool only_there
      fresh_differs (tt, tt, tt)
