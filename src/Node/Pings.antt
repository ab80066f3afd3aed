-- ===== src/Node/Pings.antt =====
-- The pings that wait for their pong in internal/node/node.go.
use p2ptest.Base.{
  ℕ, ◌<◌, Str, str_eq, str_beq_iff, nat_eq, nat_beq_iff, none, some, List, [], ◌∷◌, ◌≡◌, ◌≢◌, arith,
  Option-cases, inl, inr, sym, subst,
}
use p2ptest.Base.Dict
use p2ptest.Base.Dict.{Dict, get-put, get-remove}
use p2ptest.Node.{
  Node, Channel, RoundTrip, record_ping_sent, cancel_pending_ping, handle_pong_received, offer,
}

-- A channel that a ping waits on has been made, is empty, and waits for one nonce only; a channel
-- that is not yet made is empty.
pub record IsValid (n : Node) : Type 0 where
  pub made :
      (nonce : Str) (ch : Channel) → Dict.get n.pending_pings nonce ≡ some ch → ch < n.next_channel
  pub unfilled :
      (nonce : Str) (ch : Channel)
      → Dict.get n.pending_pings nonce ≡ some ch
      → Dict.get n.channels ch ≡ none
  pub filled_made :
      (ch : Channel) (rtt : RoundTrip) → Dict.get n.channels ch ≡ some rtt → ch < n.next_channel
  pub own :
      (a b : Str) (ch : Channel)
      → Dict.get n.pending_pings a ≡ some ch
      → Dict.get n.pending_pings b ≡ some ch
      → a ≡ b

-- One call of a method on the pending pings.
pub data PingOp : Type 0 where
  sent : Str → PingOp
  canceled : Str → PingOp
  answered : Str → ℕ → ℕ → PingOp

unfoldable pub step : Node → PingOp → Node
step n (sent nonce) = (record_ping_sent n nonce).1
step n (canceled nonce) = cancel_pending_ping n nonce
step n (answered nonce ping_timestamp now) = handle_pong_received n nonce ping_timestamp now

unfoldable pub run : Node → List PingOp → Node
unfolding step
run n [] = n
run n (op ∷ rest) = run (step n op) rest

abbrev pub nonce_of : PingOp → Str
nonce_of (sent nonce) = nonce
nonce_of (canceled nonce) = nonce
nonce_of (answered nonce ping_timestamp now) = nonce

-- The calls are for other pings.
abbrev pub IsElsewhere : Str → List PingOp → Type 0
IsElsewhere nonce [] = Unit
IsElsewhere nonce (op ∷ rest) = (nonce_of op ≢ nonce) × IsElsewhere nonce rest

next_empty : {n : Node} → IsValid n → Dict.get n.channels n.next_channel ≡ none
next_empty {n} v = elim (Option-cases (Dict.get n.channels n.next_channel)) [
  | inl empty ↦ empty
  | inr (rtt, full) ↦ absurd (omega (arith, v.filled_made n.next_channel rtt full))
]

pub sent-IsValid : (n : Node) (nonce : Str) → IsValid n → IsValid (record_ping_sent n nonce).1
unfolding record_ping_sent
sent-IsValid n nonce v = record {
  made = λ k ch h. ground (arith, get-put n.pending_pings nonce k n.next_channel, v.made k ch);
  unfilled = λ k ch h.
      ground (arith, get-put n.pending_pings nonce k n.next_channel, v.unfilled k ch, next_empty v);
  filled_made = λ ch rtt h. omega (arith, v.filled_made ch rtt h);
  own = λ a b ch h h'. ground (
    arith,
    get-put n.pending_pings nonce a n.next_channel,
    get-put n.pending_pings nonce b n.next_channel,
    v.own a b ch,
    v.made a ch,
    v.made b ch,
    str_beq_iff nonce a,
    str_beq_iff nonce b,
  );
}

canceled-IsValid : (n : Node) (nonce : Str) → IsValid n → IsValid (cancel_pending_ping n nonce)
unfolding cancel_pending_ping
canceled-IsValid n nonce v = record {
  made = λ k ch h. ground (arith, get-remove n.pending_pings nonce k, v.made k ch);
  unfilled = λ k ch h. ground (arith, get-remove n.pending_pings nonce k, v.unfilled k ch);
  filled_made = v.filled_made;
  own = λ a b ch h h'.
      ground (
        arith,
        get-remove n.pending_pings nonce a,
        get-remove n.pending_pings nonce b,
        v.own a b ch,
      );
}

-- What the arrival of a pong changes.
answered_lem :
    {n : Node} (nonce : Str) (t now : ℕ) (ch : Channel)
    → IsValid n
    → Dict.get n.pending_pings nonce ≡ some ch
    → handle_pong_received n nonce t now ≡ record n {
      pending_pings = Dict.remove n.pending_pings nonce;
      channels = Dict.put n.channels ch (record { ping_timestamp = t; arrival = now });
    }
unfolding handle_pong_received
answered_lem nonce t now ch v waits = ground (arith, waits, v.unfilled nonce ch waits)

answered-IsValid :
    (n : Node) (nonce : Str) (t now : ℕ) → IsValid n → IsValid (handle_pong_received n nonce t now)
unfolding handle_pong_received
answered-IsValid n nonce t now v = elim (Option-cases (Dict.get n.pending_pings nonce)) [
  | inl idle ↦ rw (idle, handle_pong_received) v
  | inr (ch, waits) ↦
      let rtt : RoundTrip = record { ping_timestamp = t; arrival = now } in
      subst IsValid (sym (answered_lem nonce t now ch v waits)) (record {
        made = λ k c h. ground (arith, get-remove n.pending_pings nonce k, v.made k c);
        unfilled = λ k c h. ground (
          arith,
          get-remove n.pending_pings nonce k,
          v.unfilled k c,
          v.own nonce k c,
          get-put n.channels ch c rtt,
          str_beq_iff nonce k,
          nat_beq_iff ch c,
        );
        filled_made = λ c r h. ground (
          arith,
          get-put n.channels ch c rtt,
          v.filled_made c r,
          v.made nonce ch waits,
          nat_beq_iff ch c,
        );
        own = λ a b c h h'. ground (
          arith,
          get-remove n.pending_pings nonce a,
          get-remove n.pending_pings nonce b,
          v.own a b c,
        );
      })
]

pub step-IsValid : (n : Node) (op : PingOp) → IsValid n → IsValid (step n op)
unfolding step
step-IsValid n (sent nonce) v = sent-IsValid n nonce v
step-IsValid n (canceled nonce) v = canceled-IsValid n nonce v
step-IsValid n (answered nonce t now) v = answered-IsValid n nonce t now v

-- A call for another ping leaves a waiting ping.
waits_on :
    (n : Node) (op : PingOp) (nonce : Str) (ch : Channel)
    → nonce_of op ≢ nonce
    → Dict.get n.pending_pings nonce ≡ some ch
    → Dict.get (step n op).pending_pings nonce ≡ some ch
unfolding step record_ping_sent cancel_pending_ping handle_pong_received offer
waits_on n (sent other) nonce ch ne waits =
    ground (arith, get-put n.pending_pings other nonce n.next_channel, str_beq_iff other nonce)
waits_on n (canceled other) nonce ch ne waits =
    ground (arith, get-remove n.pending_pings other nonce, str_beq_iff other nonce)
waits_on n (answered other t now) nonce ch ne waits =
    ground (arith, get-remove n.pending_pings other nonce, str_beq_iff other nonce)

waits_through :
    (n : Node) (ops : List PingOp) (nonce : Str) (ch : Channel)
    → IsValid n
    → IsElsewhere nonce ops
    → Dict.get n.pending_pings nonce ≡ some ch
    → IsValid (run n ops) × (Dict.get (run n ops).pending_pings nonce ≡ some ch)
unfolding run
waits_through n [] nonce ch v away waits = (v, waits)
waits_through n (op ∷ rest) nonce ch v away waits =
    waits_through (step n op) rest nonce ch (step-IsValid n op v) away.1
      (waits_on n op nonce ch away.0 waits)

-- A pong that nothing waits for changes nothing.
idle_pong :
    (n : Node) (nonce : Str) (t now : ℕ)
    → Dict.get n.pending_pings nonce ≡ none
    → handle_pong_received n nonce t now ≡ n
unfolding handle_pong_received
idle_pong n nonce t now idle = ground (arith, idle)

-- A ping whose nonce is not used by another one meanwhile: whatever happens to other pings, its
-- channel stays empty until its pong arrives. Then it holds the times of that pong, and the ping
-- waits no more. A second pong with this nonce changes nothing.
pub pong_arrives :
    (n : Node) (nonce : Str) (ops : List PingOp) (t now t' now' : ℕ)
    → IsValid n
    → IsElsewhere nonce ops
    → let (ch, n') = record_ping_sent n nonce in
      let waiting = run n' ops in
      let arrived = handle_pong_received waiting nonce t now in
      (Dict.get waiting.channels ch ≡ none)
      × (Dict.get arrived.channels ch ≡ some (record { ping_timestamp = t; arrival = now }))
      × (Dict.get arrived.pending_pings nonce ≡ none)
      × (handle_pong_received arrived nonce t' now' ≡ arrived)
unfolding record_ping_sent handle_pong_received
pong_arrives n nonce ops t now t' now' v away =
    let n' : Node = (record_ping_sent n nonce).1 in
    let ch : Channel = n.next_channel in
    let kept = waits_through n' ops nonce ch (sent-IsValid n nonce v) away (
      ground
        (arith, get-put n.pending_pings nonce nonce n.next_channel, str_beq_iff nonce nonce)) in
    let rtt : RoundTrip = record { ping_timestamp = t; arrival = now } in
    let w : Node = run n' ops in
    let after = answered_lem nonce t now ch kept.0 kept.1 in
    let gone : Dict.get (Dict.remove w.pending_pings nonce) nonce ≡ none =
      ground (arith, get-remove w.pending_pings nonce nonce, str_beq_iff nonce nonce) in
    (
      kept.0.unfilled nonce ch kept.1,
      rw after (ground (arith, get-put w.channels ch ch rtt, nat_beq_iff ch ch)),
      rw after gone,
      rw after (idle_pong _ nonce t' now' gone),
    )
