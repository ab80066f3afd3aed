-- ===== src/Client/Pinging.antt =====
-- `SendPing` of internal/client/ping.go, over the pending pings of internal/node/node.go. What
-- `rand.Read` and a stream's `Send` return are parameters, and so is what other goroutines do with
-- pings while the call waits.
use p2ptest.Base.{
  Str, lit, str_eq, nat_eq, Bool, ◌&&◌, if◌then◌else◌, Option, none, some, List, ◌++◌,
}
use p2ptest.Base.Dict
use p2ptest.Proto.{Envelope}
use p2ptest.ConnPool.{Stream}
use p2ptest.Node.{Node, Channel, RoundTrip, record_ping_sent, cancel_pending_ping}
use p2ptest.Node.Pings.{PingOp, run}
use p2ptest.Client.{Sender, Stamp, attempt, ping_envelope}

-- What `SendPing` returns, or that it still waits.
pub data PingResult : Type 0 where
  ping_error : Str → PingResult
  latency : RoundTrip → PingResult
  waiting : PingResult

-- The `select`: whether the timer has fired, and which of two ready cases is chosen.
pub record Timer : Type 0 where
  pub fired : Bool
  pub chosen : Bool

abbrev pub timed_out : Timer → Node → Str → Str → PingResult × Node
timed_out timer n addr nonce =
    if timer.fired
    then (ping_error (lit "ping timeout: " ++ addr), cancel_pending_ping n nonce)
    else (waiting, n)

unfoldable pub wait_for_pong : Timer → Node → Channel → Str → Str → PingResult × Node
wait_for_pong timer n ch addr nonce = elim (Dict.get n.channels ch) [
  | none ↦ timed_out timer n addr nonce
  | some rtt ↦
      if timer.fired && timer.chosen
      then timed_out timer n addr nonce
      else (latency rtt, record n { channels = Dict.remove n.channels ch })
]

-- The sending, the wait, and the clearing of the pending ping.
unfoldable pub exchange :
    (Stream → Envelope → Bool)
    → Node
    → List PingOp
    → Timer
    → Str
    → Str
    → Envelope
    → PingResult × Node
unfolding wait_for_pong attempt
exchange sends n meanwhile timer addr nonce env =
    let (ch, n') = record_ping_sent n nonce in
    if (attempt sends n'.conn_pool addr env).0
    then wait_for_pong timer (run n' meanwhile) ch addr nonce
    else (ping_error (lit "send ping failed: "), cancel_pending_ping n' nonce)

-- `SendPing`, up to the text of an error that it wraps. `random` is what `rand.Read` returns.
unfoldable pub send_ping :
    (Stream → Envelope → Bool)
    → Sender
    → Stamp
    → Option Str
    → List PingOp
    → Timer
    → Node
    → Str
    → PingResult × Node
unfolding exchange ping_envelope
send_ping sends sender t none meanwhile timer n addr =
    (ping_error (lit "generate nonce failed: "), n)
send_ping sends sender t (some nonce) meanwhile timer n addr = elim (ping_envelope sender t nonce) [
  | none ↦ (ping_error (lit "marshal payload failed: "), n)
  | some env ↦ exchange sends n meanwhile timer addr nonce env
]
