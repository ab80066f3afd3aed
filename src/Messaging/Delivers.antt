-- ===== src/Messaging/Delivers.antt =====
-- What a stream of unsigned envelopes does in internal/messaging/application/service.go.
use mathlib.Core.Option
use p2ptest.Base.{
  ℕ, Str, Option, none, some, List, [], ◌∷◌, ◌++◌, ◌≡◌, refl, Returns, Returns-bind, Returns-weaken,
  ◌∙◌, lit, ap,
}
use p2ptest.Proto.{NodeId, NodeInfo, Payload, text, ping, pong, Envelope}
use p2ptest.Crypto.{Ed25519}
use p2ptest.Notification.{Notification, new_message_received}
use p2ptest.Notifier
use p2ptest.Notifier.{Notifier}
use p2ptest.Notifier.Recent.{Event, emitted, run, emissions, history_recent}
use p2ptest.Notifier.History.{latest}
use p2ptest.Messaging.{
  Wire, Service, Moment, Handled, Received, envelope, error, eof, Ending, returned, handle_envelope,
  stream,
}

-- What an unsigned envelope of a named sender says.
pub data Saying : Type 0 where
  says : Str → Saying
  pings : Str → Saying
  pongs : Str → ℕ → Saying

pub record Plain : Type 0 where
  pub moment : Moment
  pub msg_id : Str
  pub from : NodeId
  pub timestamp : ℕ
  pub saying : Saying

abbrev pub payload_of : Saying → Payload
payload_of (says content) = text (some (record { content = content }))
payload_of (pings nonce) = ping (some (record { nonce = nonce }))
payload_of (pongs nonce t) = pong (some (record { nonce = nonce; ping_timestamp = t }))

abbrev pub unsigned : Plain → Envelope
unsigned p = record {
  msg_id = p.msg_id;
  from = some p.from;
  payload = payload_of p.saying;
  timestamp = p.timestamp;
  content_hash = [];
  signature = [];
}

abbrev pub arrivals : List Plain → List Received
arrivals [] = []
arrivals (p ∷ rest) = envelope p.moment (some (unsigned p)) ∷ arrivals rest

abbrev said_event : Plain → Saying → List Event → List Event
said_event p (says content) rest =
    emitted p.moment.callbacks_order (new_message_received p.from.name content p.moment.emitted_at)
    ∷ rest
said_event p (pings nonce) rest = rest
said_event p (pongs nonce t) rest = rest

-- The emissions that the texts cause.
abbrev events : List Plain → List Event
events [] = []
events (p ∷ rest) = said_event p p.saying (events rest)

abbrev said_text : Plain → Saying → List Notification → List Notification
said_text p (says content) rest =
    new_message_received p.from.name content p.moment.emitted_at ∷ rest
said_text p (pings nonce) rest = rest
said_text p (pongs nonce t) rest = rest

-- One notification for each text, in the order of their arrival.
abbrev pub texts : List Plain → List Notification
texts [] = []
texts (p ∷ rest) = said_text p p.saying (texts rest)

abbrev answer : Option NodeId → Plain → Saying → List Envelope → List Envelope
answer self p (pings nonce) rest =
    record {
      msg_id = p.msg_id ++ lit "-pong";
      from = self;
      payload = pong (some (record { nonce = nonce; ping_timestamp = p.timestamp }));
      timestamp = p.moment.now_milli;
      content_hash = [];
      signature = [];
    }
    ∷ rest
answer self p (says content) rest = rest
answer self p (pongs nonce t) rest = rest

-- One pong for each ping, in the order of their arrival, with the ping's nonce and time.
abbrev pub answers : Option NodeId → List Plain → List Envelope
answers self [] = []
answers self (p ∷ rest) = answer self p p.saying (answers self rest)

emissions-events : (ps : List Plain) → emissions (events ps) ≡ texts ps
emissions-events [] = refl
emissions-events (p ∷ ps) =
    elim p.saying as (λ x. emissions (said_event p x (events ps)) ≡ said_text p x (texts ps)) [
      | says content ↦
          ap (λ l. new_message_received p.from.name content p.moment.emitted_at ∷ l)
            (emissions-events ps)
      | pings nonce ↦ emissions-events ps
      | pongs nonce t ↦ emissions-events ps
    ]

run-said_event :
    (n : Notifier) (p : Plain) (x : Saying) (rest : List Event)
    → run (run n (said_event p x [])) rest ≡ run n (said_event p x rest)
unfolding run
run-said_event n p (says content) rest = refl
run-said_event n p (pings nonce) rest = refl
run-said_event n p (pongs nonce t) rest = refl

answer_first :
    (self : Option NodeId) (p : Plain) (x : Saying) (rest : List Envelope)
    → answer self p x [] ++ rest ≡ answer self p x rest
answer_first self p (says content) rest = refl
answer_first self p (pings nonce) rest = refl
answer_first self p (pongs nonce t) rest = refl

module _ (e : Ed25519) (w : Wire) (self : NodeInfo) where
  abbrev with_notifier : Notifier → Service
  with_notifier n = record { self_info = some self; notifier = some n }

  -- The handling of one unsigned envelope.
  abbrev IsHandled : Plain → Saying → Notifier → Handled → Type 0
  IsHandled p x n h =
      (h.service ≡ with_notifier (run n (said_event p x []))) × (h.sent ≡ answer self.id p x [])

  handle_plain :
      (p : Plain) (x : Saying) (n : Notifier)
      → Returns (IsHandled p x n) (
          handle_envelope e w p.moment (with_notifier n) (record {
            msg_id = p.msg_id;
            from = some p.from;
            payload = payload_of x;
            timestamp = p.timestamp;
            content_hash = [];
            signature = [];
          }))
  unfolding handle_envelope run
  handle_plain p (says content) n = (refl, refl)
  handle_plain p (pings nonce) n = (refl, refl)
  handle_plain p (pongs nonce t) n = (refl, refl)

  abbrev IsStreamed : List Plain → Notifier → Ending × Handled → Type 0
  IsStreamed ps n out =
      (out.0 ≡ returned none)
      × (out.1.service ≡ with_notifier (run n (events ps)))
      × (out.1.sent ≡ answers self.id ps)

  stream_plain :
      (ps : List Plain) (n : Notifier)
      → Returns (IsStreamed ps n) (stream e w (with_notifier n) (arrivals ps ++ error eof ∷ []))
  unfolding stream run
  stream_plain [] n = (refl, refl, refl)
  stream_plain (p ∷ ps) n =
      Returns-bind _ _ (handle_envelope e w p.moment (with_notifier n) (unsigned p)) _
        (handle_plain p p.saying n)
        (λ h known.
          Returns-bind (IsStreamed ps (run n (said_event p p.saying []))) _
            (stream e w h.service (arrivals ps ++ error eof ∷ [])) _
            (rw (known.0) (stream_plain ps (run n (said_event p p.saying []))))
            (λ out done_so. (
              done_so.0,
              done_so.1 ∙ ap with_notifier (run-said_event n p p.saying (events ps)),
              rw (known.1, done_so.2) (answer_first self.id p p.saying (answers self.id ps)),
            )))

  -- A stream of unsigned envelopes of named senders, up to its end: `Stream` returns without an
  -- error, has answered the pings, each one once, in their order, with the ping's nonce and time,
  -- and the history of its notifier, new at the start, holds the latest texts, in their order.
  pub stream_delivers :
      (size : ℕ) (ps : List Plain)
      → Returns
          (λ out.
            (out.0 ≡ returned none)
            × (out.1.sent ≡ answers self.id ps)
            × (Option.map Notifier.history out.1.service.notifier ≡ some (latest size (texts ps))))
          (stream e w
            (record { self_info = some self; notifier = some (Notifier.new size) })
            (arrivals ps ++ error eof ∷ []))
  stream_delivers size ps =
      Returns-weaken _ _
        (stream e w (with_notifier (Notifier.new size)) (arrivals ps ++ error eof ∷ []))
        (stream_plain ps (Notifier.new size))
        (λ out got. (
          got.0,
          got.2,
          ap (λ s. Option.map Notifier.history s.notifier) got.1
              ∙ ap some (history_recent size (events ps) ∙ ap (latest size) (emissions-events ps)),
        ))
