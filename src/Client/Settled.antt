-- ===== src/Client/Settled.antt =====
-- How `SendPing` of internal/client/ping.go ends.
use p2ptest.Base.{
  ℕ, Str, str_eq, nat_eq, Bool, true, false, none, some, List, [], ◌∷◌, ◌++◌, ◌≡◌, ◌≢◌, ◌⊎◌, inl,
  inr, refl, arith, str_beq_iff, Bool-cases, Option-cases,
}
use p2ptest.Base.Dict
use p2ptest.Base.Dict.{get-put, get-remove}
use p2ptest.Proto.{Envelope}
use p2ptest.ConnPool.{Stream}
use p2ptest.Node.{
  Node, Channel, RoundTrip, record_ping_sent, cancel_pending_ping, handle_pong_received, offer,
}
use p2ptest.Node.Pings.{
  PingOp, sent, canceled, answered, step, run, IsValid, IsElsewhere, step-IsValid, sent-IsValid,
  pong_arrives,
}
use p2ptest.Client.{Sender, Stamp, attempt, ping_envelope}
use p2ptest.Client.Pinging.{
  PingResult, ping_error, latency, waiting, Timer, wait_for_pong, exchange, send_ping,
}

-- Nobody else sends a ping with this nonce.
abbrev pub IsFresh : Str → List PingOp → Type 0
IsFresh nonce [] = Unit
IsFresh nonce (sent k ∷ rest) = (k ≢ nonce) × IsFresh nonce rest
IsFresh nonce (canceled k ∷ rest) = IsFresh nonce rest
IsFresh nonce (answered k t now ∷ rest) = IsFresh nonce rest

-- The nonce waits on this channel or on none.
abbrev WaitsOnly : Str → Channel → Node → Type 0
WaitsOnly nonce ch n =
    (Dict.get n.pending_pings nonce ≡ none) ⊎ (Dict.get n.pending_pings nonce ≡ some ch)

removed-WaitsOnly :
    (n : Node) (k nonce : Str) (ch : Channel)
    → WaitsOnly nonce ch n
    → WaitsOnly nonce ch (cancel_pending_ping n k)
unfolding cancel_pending_ping
removed-WaitsOnly n k nonce ch w = ground (arith, get-remove n.pending_pings k nonce)

answered-WaitsOnly :
    (n : Node) (k nonce : Str) (t now : ℕ) (ch : Channel)
    → WaitsOnly nonce ch n
    → WaitsOnly nonce ch (handle_pong_received n k t now)
unfolding handle_pong_received offer
answered-WaitsOnly n k nonce t now ch w = ground (arith, get-remove n.pending_pings k nonce)

run-WaitsOnly :
    (n : Node) (ops : List PingOp) (nonce : Str) (ch : Channel)
    → IsValid n
    → IsFresh nonce ops
    → WaitsOnly nonce ch n
    → IsValid (run n ops) × WaitsOnly nonce ch (run n ops)
unfolding run step record_ping_sent
run-WaitsOnly n [] nonce ch v fresh w = (v, w)
run-WaitsOnly n (sent k ∷ rest) nonce ch v fresh w =
    run-WaitsOnly (record_ping_sent n k).1 rest nonce ch (step-IsValid n (sent k) v) fresh.1
      (ground (arith, get-put n.pending_pings k nonce n.next_channel, str_beq_iff k nonce, fresh.0))
run-WaitsOnly n (canceled k ∷ rest) nonce ch v fresh w =
    run-WaitsOnly (cancel_pending_ping n k) rest nonce ch (step-IsValid n (canceled k) v) fresh
      (removed-WaitsOnly n k nonce ch w)
run-WaitsOnly n (answered k t now ∷ rest) nonce ch v fresh w =
    run-WaitsOnly (handle_pong_received n k t now) rest nonce ch
      (step-IsValid n (answered k t now) v) fresh (answered-WaitsOnly n k nonce t now ch w)

-- What is promised of the end of a ping.
abbrev pub IsSettled : Str → PingResult × Node → Type 0
IsSettled nonce out = (out.0 ≢ waiting) × (Dict.get out.1.pending_pings nonce ≡ none)

error-waiting : (why : Str) → ping_error why ≢ waiting
error-waiting why e = cc

latency-waiting : (rtt : RoundTrip) → latency rtt ≢ waiting
latency-waiting rtt e = cc

canceled-IsSettled :
    (n : Node) (why nonce : Str) → IsSettled nonce (ping_error why, cancel_pending_ping n nonce)
unfolding cancel_pending_ping
canceled-IsSettled n why nonce = (
  error-waiting why,
  ground (arith, get-remove n.pending_pings nonce nonce, str_beq_iff nonce nonce),
)

-- A channel that is filled is not waited on.
unawaited :
    {n : Node} (nonce : Str) (ch : Channel) (rtt : RoundTrip)
    → IsValid n
    → WaitsOnly nonce ch n
    → Dict.get n.channels ch ≡ some rtt
    → Dict.get n.pending_pings nonce ≡ none
unawaited nonce ch rtt v w filled = ground (arith, w, v.unfilled nonce ch, filled)

wait-IsSettled :
    (timer : Timer) (n : Node) (ch : Channel) (addr nonce : Str)
    → IsValid n
    → WaitsOnly nonce ch n
    → timer.fired ≡ true
    → IsSettled nonce (wait_for_pong timer n ch addr nonce)
unfolding wait_for_pong
wait-IsSettled timer n ch addr nonce v w fired = elim (Option-cases (Dict.get n.channels ch)) [
  | inl empty ↦ rw (empty, wait_for_pong) (rw fired (canceled-IsSettled n _ nonce))
  | inr (rtt, filled) ↦ elim (Bool-cases timer.chosen) [
    | inl late ↦ rw (filled, wait_for_pong) (rw (fired, late) (canceled-IsSettled n _ nonce))
    | inr early ↦
        rw (filled, wait_for_pong)
          (rw (fired, early) (latency-waiting rtt, unawaited nonce ch rtt v w filled))
  ]
]

run-append :
    (n : Node) (ops : List PingOp) (op : PingOp) → run n (ops ++ op ∷ []) ≡ step (run n ops) op
unfolding run
run-append n [] op = refl
run-append n (o ∷ ops) op = run-append (step n o) ops op

-- A ping is sent with a nonce that nobody else uses, by a node whose pending pings are valid.
module _ (sends : Stream → Envelope → Bool) (sender : Sender) (t : Stamp) (n : Node)
    (addr nonce : Str) (v : IsValid n) where
  -- At a node whose pending pings are valid, with a nonce that no ping waits under and that nobody
  -- else sends a ping with meanwhile: once its timer has fired, `SendPing` returns, whatever pings other
  -- goroutines have sent, canceled and had answered meanwhile, and on each of its branches, and it
  -- leaves no pending ping with its nonce behind.
  pub send_ping-IsSettled :
      (meanwhile : List PingOp) (timer : Timer)
      → IsFresh nonce meanwhile
      → Dict.get n.pending_pings nonce ≡ none
      → timer.fired ≡ true
      → IsSettled nonce (send_ping sends sender t (some nonce) meanwhile timer n addr)
  unfolding send_ping exchange record_ping_sent
  send_ping-IsSettled meanwhile timer fresh unused fired =
      let n' : Node = (record_ping_sent n nonce).1 in
      let waits : WaitsOnly nonce n.next_channel n' = inr (
        ground
          (arith, get-put n.pending_pings nonce nonce n.next_channel, str_beq_iff nonce nonce)) in
      let later =
        run-WaitsOnly n' meanwhile nonce n.next_channel (sent-IsValid n nonce v) fresh waits in
      elim (Option-cases (ping_envelope sender t nonce)) [
        | inl failed ↦ rw (failed, send_ping) (error-waiting _, unused)
        | inr (env, made) ↦ elim (Bool-cases (attempt sends n'.conn_pool addr env).0) [
          | inl went ↦
              rw (made, send_ping)
                (rw went (
                  wait-IsSettled timer (run n' meanwhile) n.next_channel addr nonce later.0 later.1
                    fired))
          | inr refused ↦ rw (made, send_ping) (rw refused (canceled-IsSettled n' _ nonce))
        ]
      ]

  -- At a node whose pending pings are valid, a ping whose envelope is made and sent, whose pong
  -- arrives before the timer fires, returns the times of that pong, whatever happens to pings with
  -- other nonces before it arrives.
  pub send_ping-latency :
      (env : Envelope) (ops : List PingOp) (ping_timestamp now : ℕ) (chosen : Bool)
      → IsElsewhere nonce ops
      → ping_envelope sender t nonce ≡ some env
      → (attempt sends n.conn_pool addr env).0 ≡ true
      → (send_ping sends sender t
          (some nonce)
          (ops ++ answered nonce ping_timestamp now ∷ [])
          (record { fired = false; chosen = chosen })
          n
          addr).0
        ≡ latency (record { ping_timestamp = ping_timestamp; arrival = now })
  unfolding send_ping exchange wait_for_pong record_ping_sent step
  send_ping-latency env ops ping_timestamp now chosen away made went =
      let pong = pong_arrives n nonce ops ping_timestamp now 0 0 v away in
      rw (made, send_ping)
        (rw (went, run-append (record_ping_sent n nonce).1 ops (answered nonce ping_timestamp now))
          (rw (pong.1, wait_for_pong, step) refl))
