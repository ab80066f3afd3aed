-- ===== src/Client.antt =====
-- internal/client/client.go and internal/client/ping.go: the handshake that a node asks with, and
-- the envelopes that it sends. The pool of streams is the node's. What a stream's `Send` returns is a
-- parameter. Log lines are left out.
pub mod Sending
pub mod Joining
pub mod Meeting
pub mod Pinging
pub mod Settled
pub mod Connecting
pub mod Linked
pub mod Receiving
pub mod Tests
mod JoinTests
use p2ptest.Base.{
  ℕ, zero, suc, ◌+◌, Str, lit, str_eq, Bool, true, false, if◌then◌else◌, Option, none, some, List,
  [], ◌∷◌, ◌++◌,
}
use p2ptest.Base.Dict.{Visit}
use p2ptest.Proto.{
  NodeId, NodeAddr, NodeInfo, online, HandshakeReq, TextMessage, Ping, Payload, text, ping,
  Envelope,
}
use p2ptest.Addr.{decimal}
use p2ptest.Config.{NodeConfig}
use p2ptest.Crypto.{Ed25519, Identity, sign, handshake_sign_data}
use p2ptest.ConnPool.{
  ConnPool, Stream, Sent, no_stream, send_on, has_stream, send_to_stream, stream_addrs,
}
use p2ptest.Messaging.{Message, text_message, ping_message, Wire}

-- What a sending node is made of, with what it takes from the libraries.
pub record Sender : Type 0 where
  pub ed25519 : Ed25519
  pub wire : Wire
  pub identity : Identity
  pub node_id : NodeId
  pub cfg : NodeConfig

-- The readings of the clock for one envelope: of `generateMsgID`, in nanoseconds, and of its
-- timestamp, in milliseconds.
pub record Stamp : Type 0 where
  pub now_nano : ℕ
  pub now_milli : ℕ

-- `generateMsgID`
unfoldable pub generate_msg_id : Stamp → Str
generate_msg_id t = lit "msg-" ++ decimal t.now_nano

-- `buildHandshakeReq`
unfoldable pub build_handshake_req : Sender → HandshakeReq
build_handshake_req n = record {
  self = some (record {
    id = some n.node_id;
    addrs = record { ip = n.cfg.listen_ip; port = n.cfg.listen_port } ∷ [];
    status = online;
    last_seen = 0;
  });
  proto_version = n.cfg.proto_ver;
  signature = sign n.ed25519 n.identity (handshake_sign_data n.node_id.uuid);
}

-- The envelope around a payload, whose message has the encoding `bytes`.
unfoldable pub seal : Sender → Stamp → Payload → Str → Envelope
seal n t payload bytes =
    let hash = n.wire.sha256 bytes in
    record {
      msg_id = generate_msg_id t;
      from = some n.node_id;
      payload = payload;
      timestamp = t.now_milli;
      content_hash = hash;
      signature = sign n.ed25519 n.identity hash;
    }

-- The envelope of a text, none where `proto.Marshal` has an error.
unfoldable pub text_envelope : Sender → Stamp → Str → Option Envelope
unfolding seal
text_envelope n t content =
    let message : TextMessage = record { content = content } in
    elim (n.wire.marshal (text_message (some message))) [
      | none ↦ none
      | some bytes ↦ some (seal n t (text (some message)) bytes)
    ]

-- The envelope of a ping.
unfoldable pub ping_envelope : Sender → Stamp → Str → Option Envelope
unfolding seal
ping_envelope n t nonce =
    let message : Ping = record { nonce = nonce } in
    elim (n.wire.marshal (ping_message (some message))) [
      | none ↦ none
      | some bytes ↦ some (seal n t (ping (some message)) bytes)
    ]

-- One call of a stream's `Send`.
pub record Send : Type 0 where
  pub stream : Stream
  pub envelope : Envelope

-- `SendToStream`: whether its error is nil, and the call that it makes.
unfoldable pub attempt : (Stream → Envelope → Bool) → ConnPool → Str → Envelope → Bool × List Send
attempt sends pool addr env = elim (send_to_stream pool addr env) [
  | no_stream reason ↦ (false, [])
  | send_on stream env' ↦ (sends stream env', record { stream = stream; envelope = env' } ∷ [])
]

-- `SendTextMessage`: whether its error is nil, and the call that it makes.
unfoldable pub send_text_message :
    (Stream → Envelope → Bool) → Sender → ConnPool → Stamp → Str → Str → Bool × List Send
unfolding attempt text_envelope
send_text_message sends n pool t addr content =
    if has_stream pool addr
    then (elim (text_envelope n t content) [
      | none ↦ (false, [])
      | some env ↦ attempt sends pool addr env
    ])
    else (false, [])

-- One round of the loop of `BroadcastTextMessage`.
unfoldable pub broadcast_one :
    (Stream → Envelope → Bool) → Sender → ConnPool → Stamp → Str → Str → Bool × List Send
unfolding attempt text_envelope
broadcast_one sends n pool t addr content = elim (text_envelope n t content) [
  | none ↦ (false, [])
  | some env ↦ attempt sends pool addr env
]

-- The counts of the successes and the failures, and the calls of `Send`.
pub record Broadcast : Type 0 where
  pub success : ℕ
  pub failed : ℕ
  pub sent : List Send

-- The loop, where `clock` has the readings of each round.
unfoldable pub broadcast_from :
    (Stream → Envelope → Bool) → Sender → ConnPool → (ℕ → Stamp) → Str → ℕ → List Str → Broadcast
unfolding broadcast_one
broadcast_from sends n pool clock content i [] = record { success = 0; failed = 0; sent = [] }
broadcast_from sends n pool clock content i (addr ∷ rest) =
    let later = broadcast_from sends n pool clock content (suc i) rest in
    let (ok, calls) = broadcast_one sends n pool (clock i) addr content in
    record {
      success = if ok then suc later.success else later.success;
      failed = if ok then later.failed else suc later.failed;
      sent = calls ++ later.sent;
    }

-- `BroadcastTextMessage`
unfoldable pub broadcast_text_message :
    (Stream → Envelope → Bool)
    → Sender
    → ConnPool
    → Visit (Str × Stream)
    → (ℕ → Stamp)
    → Str
    → Broadcast
unfolding broadcast_from
broadcast_text_message sends n pool visit clock content =
    broadcast_from sends n pool clock content 0 (stream_addrs pool visit)
