-- ===== src/Logger.antt =====
-- internal/logger/logger.go, and the dialling of internal/grpcutil/conn.go. What building a logger,
-- opening a file and the gRPC library return is a parameter; the settings of an encoder are not modelled.
use p2ptest.Base.{
  Str, lit, ◌++◌, Bool, true, false, if◌then◌else◌, is_some, Option, none, some, List, [], ◌∷◌, ◌≡◌,
  ◌⊎◌, refl, Outcome, done, panic, ◌>>=◌, deref, Returns, Bool-cases, inl, inr,
}
use p2ptest.ConnPool.{Conn, Call, close}
use p2ptest.Services.{Result, error, ok}

-- Where a logger writes: to the standard streams, as it is built for development or not, or to a file.
pub data Sink : Type 0 where
  standard : Bool → Sink
  log_file : Str → Sink

-- `globalLogger`, nil at first, and whether `once` has run.
pub record Global : Type 0 where
  pub logger : Option Sink
  pub once : Bool

abbrev pub initial : Global
initial = record { logger = none; once = false }

-- `InitLogger`, where `builds` says for which argument `cfg.Build` succeeds.
unfoldable pub init_logger : (Bool → Bool) → Global → Bool → Outcome Global
init_logger builds g is_dev =
    if g.once
    then done g
    else if builds is_dev
    then done (record { logger = some (standard is_dev); once = true })
    else panic

-- `RedirectToFile`, where `opens` says which files can be opened: the file that the function it
-- returns closes, none where that does nothing.
unfoldable pub redirect_to_file : (Str → Bool) → Global → Str → Option Str × Global
redirect_to_file opens g path =
    if opens path then (some path, record g { logger = some (log_file path) }) else (none, g)

-- `L`
unfoldable pub l : Global → Outcome Sink
l g = deref g.logger

-- A call of the package.
pub data Logging : Type 0 where
  init : Bool → Logging
  redirect : Str → Logging

-- The calls one after the other.
unfoldable pub run_logging : (Bool → Bool) → (Str → Bool) → Global → List Logging → Outcome Global
unfolding init_logger redirect_to_file
run_logging builds opens g [] = done g
run_logging builds opens g (init is_dev ∷ rest) =
    init_logger builds g is_dev >>= λ g'. run_logging builds opens g' rest
run_logging builds opens g (redirect path ∷ rest) =
    run_logging builds opens (redirect_to_file opens g path).1 rest

-- `NewClientConn`: what it returns, and the calls of the connection that it has made, given what
-- `grpc.NewClient` returns and whether the state changes from idle in time.
unfoldable pub new_client_conn : Result Conn → Bool → Result Conn × List Call
new_client_conn (error why) moves = (error (lit "grpc.NewClient failed: " ++ why), [])
new_client_conn (ok conn) moves =
    if moves then (ok conn, []) else (error (lit "connection not ready in time"), close conn ∷ [])

module _ (builds : Bool → Bool) (opens : Str → Bool) where
  once_initialized :
      (g : Global) (calls : List Logging)
      → g.once ≡ true
      → is_some g.logger ≡ true
      → Returns (λ g'. Returns (λ s. Unit) (l g')) (run_logging builds opens g calls)
  unfolding run_logging init_logger redirect_to_file l
  once_initialized g [] once ready =
      elim g.logger as (λ o. is_some o ≡ true → Returns (λ s. Unit) (deref o)) [
        | none ↦ λ e. cc
        | some s ↦ λ e. tt
      ]
        ready
  once_initialized g (init is_dev ∷ rest) once ready =
      rw once (once_initialized (record g { once = true }) rest refl ready)
  once_initialized g (redirect path ∷ rest) once ready = elim (Bool-cases (opens path)) [
    | inl opened ↦
        rw opened (once_initialized (record g { logger = some (log_file path) }) rest once refl)
    | inr refused ↦ rw refused (once_initialized g rest once ready)
  ]

  -- After a first call of `InitLogger` whose logger is built, whatever calls follow: none panics, and
  -- neither does `L`.
  run_logging-Returns :
      (is_dev : Bool) (calls : List Logging)
      → builds is_dev ≡ true
      → Returns
          (λ g. Returns (λ s. Unit) (l g))
          (run_logging builds opens initial (init is_dev ∷ calls))
  unfolding run_logging init_logger
  run_logging-Returns is_dev calls built =
      rw built
        (once_initialized (record { logger = some (standard is_dev); once = true }) calls refl refl)

-- A connection that is made is returned or closed, and never both.
new_client_conn_lem :
    (conn : Conn) (moves : Bool)
    → (new_client_conn (ok conn) moves ≡ (ok conn, []))
      ⊎ ((why : Str) × (new_client_conn (ok conn) moves ≡ (error why, close conn ∷ [])))
unfolding new_client_conn
new_client_conn_lem conn true = inl refl
new_client_conn_lem conn false = inr (_, refl)
