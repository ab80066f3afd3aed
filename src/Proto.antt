-- ===== src/Proto.antt =====
-- The messages of proto/p2p.proto, as proto/p2p/p2p.pb.go declares them in Go.
-- A pointer to a message that may be nil is an `Option`; the elements of a repeated field are
-- never nil, as the decoder of protobuf fills each of them.
use p2ptest.Base.{ℕ, Str, Option, List, Bool}

-- An enumeration of proto3 is open: `other` is a number with no name.
pub data NodeStatus : Type 0 where
  unknown online busy offline : NodeStatus
  other : ℕ → NodeStatus

pub record NodeId : Type 0 where
  pub uuid : Str
  pub name : Str
  pub public_key : Str

pub record NodeAddr : Type 0 where
  pub ip : Str
  pub port : ℕ

pub record NodeInfo : Type 0 where
  pub id : Option NodeId
  pub addrs : List NodeAddr
  pub status : NodeStatus
  pub last_seen : ℕ

pub record GetPeersReq : Type 0 where
  pub limit : ℕ

pub record GetPeersResp : Type 0 where
  pub peers : List NodeInfo

pub record FindNodeReq : Type 0 where
  pub target : Option NodeId

pub record FindNodeResp : Type 0 where
  pub node : Option NodeInfo
  pub found : Bool

pub record HandshakeReq : Type 0 where
  pub self : Option NodeInfo
  pub proto_version : ℕ
  pub signature : Str

pub record HandshakeResp : Type 0 where
  pub peer : Option NodeInfo
  pub known_peers : List NodeInfo
  pub accepted : Bool
  pub reject_reason : Str

pub record HeartbeatReq : Type 0 where
  pub node_id : Option NodeId
  pub timestamp : ℕ
  pub signature : Str

pub record HeartbeatResp : Type 0 where
  pub status : NodeStatus
  pub timestamp : ℕ

pub record DisconnectReq : Type 0 where
  pub node_id : Option NodeId
  pub reason : Str

pub record DisconnectResp : Type 0 where
  pub acknowledged : Bool

pub record NotifyNodeJoinReq : Type 0 where
  pub new_node : Option NodeInfo

pub record NotifyNodeJoinResp : Type 0 where
  pub acknowledged : Bool

pub record TextMessage : Type 0 where
  pub content : Str

pub record Ping : Type 0 where
  pub nonce : Str

pub record Pong : Type 0 where
  pub nonce : Str
  pub ping_timestamp : ℕ

-- The `oneof payload` of an envelope: the interface value, nil or one of the three wrappers
-- `Envelope_Text`, `Envelope_Ping` and `Envelope_Pong` with the pointer that it holds.
pub data Payload : Type 0 where
  empty : Payload
  text : Option TextMessage → Payload
  ping : Option Ping → Payload
  pong : Option Pong → Payload

pub record Envelope : Type 0 where
  pub msg_id : Str
  pub from : Option NodeId
  pub payload : Payload
  pub timestamp : ℕ
  pub content_hash : Str
  pub signature : Str
