-- ===== src/Messaging.antt =====
-- internal/messaging/application/service.go: the Messaging service. The encoder of protobuf and
-- SHA-256 are not part of the program, and are parameters. Log lines are left out, but not the
-- dereferences in them: `env.From.Name` panics where `From` is nil.
pub mod Crashes
pub mod Delivers
mod Tests
use p2ptest.Base.{
  ℕ, Str, lit, str_eq, nat_eq, ◌==◌, Bool, true, false, not, ◌||◌, if◌then◌else◌, is_empty, Option,
  none, some, List, [], ◌∷◌, ◌++◌, length, Outcome, done, panic, ◌>>=◌, deref, nat_beq,
}
use p2ptest.Base.Dict.{Visit}
use p2ptest.Proto.{
  NodeId, NodeInfo, TextMessage, Ping, Pong, Payload, empty, text, ping, pong, Envelope,
}
use p2ptest.Crypto.{Ed25519, verify}
use p2ptest.Notification.{Notification, new_message_received}
use p2ptest.Notifier
use p2ptest.Notifier.{Notifier, Callback, Delivery}

-- A Go value of the interface `proto.Message` that an envelope can hold.
pub data Message : Type 0 where
  text_message : Option TextMessage → Message
  ping_message : Option Ping → Message
  pong_message : Option Pong → Message

-- google.golang.org/protobuf's `proto.Marshal`, none where it has an error, and crypto/sha256.
pub record Wire : Type 0 where
  pub marshal : Message → Option Str
  pub sha256 : Str → Str

-- `MessagingService`
pub record Service : Type 0 where
  pub self_info : Option NodeInfo
  pub notifier : Option Notifier

-- `NewMessagingService`
abbrev pub new_service : Option NodeInfo → Option Notifier → Service
new_service self_info notifier = record { self_info = self_info; notifier = notifier }

-- The assertion `env.GetPayload().(proto.Message)`. What it finds is nil or one of the wrappers
-- `*Envelope_Text`, `*Envelope_Ping` and `*Envelope_Pong`, which proto/p2p/p2p.pb.go gives no
-- method but `isEnvelope_Payload`: none of them is a `proto.Message`, and the assertion panics.
abbrev pub as_message : Payload → Outcome Message
as_message empty = panic
as_message (text t) = panic
as_message (ping p) = panic
as_message (pong p) = panic

-- The loop of `equalBytes`, which is only run on slices of one length.
unfoldable pub equal_bytes_from : Str → Str → Bool
equal_bytes_from [] bs = true
equal_bytes_from (a ∷ as') [] = true
equal_bytes_from (a ∷ as') (b ∷ bs) =
    let rest = equal_bytes_from as' bs in if not (nat_beq a b) then false else rest

-- `equalBytes`
unfoldable pub equal_bytes : Str → Str → Bool
unfolding equal_bytes_from
equal_bytes a b = if not (nat_beq (length a) (length b)) then false else equal_bytes_from a b

-- The comparison of the hash with that of the payload.
unfoldable pub check_hash : Wire → Envelope → Outcome Bool
unfolding equal_bytes
check_hash w env = as_message env.payload >>= λ m. elim (w.marshal m) [
  | none ↦ done false
  | some bytes ↦ done (equal_bytes (w.sha256 bytes) env.content_hash)
]

-- `verifyEnvelope` of an envelope with a signature and a key.
unfoldable pub verify_signed : Ed25519 → Wire → Envelope → NodeId → Outcome Bool
unfolding check_hash
verify_signed e w env from =
    let signed = verify e from.public_key env.content_hash env.signature in
    if not (is_empty env.content_hash)
    then (check_hash w env >>= λ same. done (if not same then false else signed))
    else done signed

-- `verifyEnvelope`
unfoldable pub verify_envelope : Ed25519 → Wire → Envelope → Outcome Bool
unfolding verify_signed
verify_envelope e w env = elim env.from [
  | none ↦ done true
  | some from ↦
      if is_empty env.signature || is_empty from.public_key
      then done true
      else verify_signed e w env from
]

-- The readings of the clock while an envelope is handled, in milliseconds for the pong, and the
-- order in which the callbacks are visited.
pub record Moment : Type 0 where
  pub now_milli : ℕ
  pub emitted_at : ℕ
  pub callbacks_order : Visit (ℕ × Callback)

-- The state after some envelopes, what was sent on the stream, and the calls of callbacks.
pub record Handled : Type 0 where
  pub service : Service
  pub sent : List Envelope
  pub calls : List Delivery

abbrev pub nothing : Service → Handled
nothing s = record { service = s; sent = []; calls = [] }

-- The case of a text.
unfoldable pub receive_text : Moment → Service → NodeId → TextMessage → Handled
receive_text m s from t = elim s.notifier [
  | none ↦ nothing s
  | some n ↦
      let (n', calls) =
        Notifier.emit n m.callbacks_order (new_message_received from.name t.content m.emitted_at) in
      record { service = record s { notifier = some n' }; sent = []; calls = calls }
]

-- The answer to a ping. An error of `stream.Send` is only logged.
unfoldable pub pong_envelope : Moment → Option NodeId → Envelope → Ping → Envelope
pong_envelope m self env p = record {
  msg_id = env.msg_id ++ lit "-pong";
  from = self;
  payload = pong (some (record { nonce = p.nonce; ping_timestamp = env.timestamp }));
  timestamp = m.now_milli;
  content_hash = [];
  signature = [];
}

-- The `switch` over the payload.
unfoldable pub dispatch : Moment → Service → Envelope → Outcome Handled
unfolding receive_text pong_envelope
dispatch m s env = deref env.from >>= λ from. elim env.payload [
  | empty ↦ done (nothing s)
  | text t ↦ deref t >>= λ t'. done (receive_text m s from t')
  | ping p ↦ deref s.self_info >>= λ self. deref p >>= λ p'.
      done (record { service = s; sent = pong_envelope m self.id env p' ∷ []; calls = [] })
  | pong p ↦ done (nothing s)
]

-- `handleEnvelope`
unfoldable pub handle_envelope : Ed25519 → Wire → Moment → Service → Envelope → Outcome Handled
unfolding verify_envelope dispatch
handle_envelope e w m s env =
    verify_envelope e w env >>= λ valid. if not valid then done (nothing s) else dispatch m s env

-- An error of `stream.Recv`: `io.EOF`, or another one, with the code that `status.FromError`
-- finds in it, if it does.
pub data RecvError : Type 0 where
  eof : RecvError
  failure : Option ℕ → RecvError

-- One return of `stream.Recv`.
pub data Received : Type 0 where
  envelope : Moment → Option Envelope → Received
  error : RecvError → Received

-- What the loop of `Stream` has come to: it waits for more, or it has returned.
pub data Ending : Type 0 where
  waiting : Ending
  returned : Option RecvError → Ending

-- What `Stream` returns for an error: nil at the end of the stream, and where the code is
-- `codes.Canceled`, which is 1.
abbrev pub stream_error : RecvError → Option RecvError
stream_error eof = none
stream_error (failure none) = some (failure none)
stream_error (failure (some code)) = if code == 1 then none else some (failure (some code))

abbrev pub after : Handled → Ending × Handled → Ending × Handled
after h (ending, h') =
    (ending, record { service = h'.service; sent = h.sent ++ h'.sent; calls = h.calls ++ h'.calls })

-- `Stream`, over what `stream.Recv` returns one after the other.
unfoldable pub stream : Ed25519 → Wire → Service → List Received → Outcome (Ending × Handled)
unfolding handle_envelope
stream e w s [] = done (waiting, nothing s)
stream e w s (error err ∷ rest) = done (returned (stream_error err), nothing s)
stream e w s (envelope m none ∷ rest) = stream e w s rest
stream e w s (envelope m (some env) ∷ rest) =
    handle_envelope e w m s env >>= λ h. stream e w h.service rest >>= λ out. done (after h out)
